-- ===== src/Dictionary.antt =====
-- iriDictionary of dictionary.go: the ids of terms, in which a number stands for each IRI. Its state
-- is the open transaction, the two maps that cache the table of IRIs, and the factory's sequence.
pub mod View
pub mod Terms
pub mod Parts
pub mod RoundTrip
pub mod Strings
use forty_six.Base.{
  ℕ, ◌≡◌, Bool, true, false, List, [], ◌∷◌, Option, none, some, Bytes, bytes_eq, if◌then◌else◌,
  Error, key_not_found, not_found, panic, Result, ok, err, ◌>>=◌,
}
use forty_six.Util.Keys.{value_to_id_prefix, id_to_value_prefix}
use forty_six.Util.Ids.{from_uint64}
use forty_six.Badger.{Database, Outcome, done, failed, panicked, set_safe}
use forty_six.Dict.{Dict, lookup, insert}

-- badger.Sequence: Next gives a number and the sequence that follows.
pub record Sequence : Type 1 where
  pub Counter : Type 0
  pub next : Counter → Result (ℕ × Counter)

abbrev pub value_key : Bytes → Bytes
value_key value = value_to_id_prefix ∷ value

abbrev pub id_key : Bytes → Bytes
id_key id = id_to_value_prefix ∷ id

-- `sequence` is that of the factory, which may be nil.
pub record IriDictionary (b : Database) (q : Sequence) : Type 0 where
  pub update : Bool
  pub sequence : Option q.Counter
  pub txn : b.Txn
  pub values : Dict Bytes
  pub ids : Dict Bytes

-- an index panic in fromUint64
abbrev pub text_of : Option Bytes → Result Bytes
text_of none = err panic
text_of (some text) = ok text

-- A failed call ends GetID; a nil transaction beside the error is not used again.
abbrev pub after_write {ℓ} : {T : Type ℓ} → Outcome T → Result T
after_write (done t) = ok t
after_write (failed t e) = err e
after_write panicked = err panic

module _ (b : Database) (q : Sequence) where
  abbrev pub Found : Type 0
  Found = Result (Bytes × IriDictionary b q)

  -- The two assignments at the end of getIRI and of getValue.
  abbrev pub remember : Bytes → Bytes → IriDictionary b q → IriDictionary b q
  remember id value d = record d { ids = insert value id d.ids; values = insert id value d.values }

  -- An IRI without an id gets the next number.
  unfoldable pub allocate : Bytes → q.Counter → IriDictionary b q → Found
  allocate value counter d = do
    (n, counter) ← q.next counter
    id ← text_of (from_uint64 n)
    t ← after_write (set_safe b (id_key id) value d.txn)
    t ← after_write (set_safe b (value_key value) id t)
    ok (id, remember id value (record d { sequence = some counter; txn = t }))

  unfoldable pub new_iri : Bytes → Bool → Option q.Counter → IriDictionary b q → Found
  new_iri value true (some counter) d = allocate value counter d
  new_iri value _ _ d = err not_found

  unfoldable pub stored_iri : Bytes → Result Bytes → IriDictionary b q → Found
  stored_iri value (err key_not_found) d = new_iri value d.update d.sequence d
  stored_iri value (err e) d = err e
  stored_iri value (ok id) d = ok (id, remember id value d)

  unfoldable pub cached_iri : Bytes → Option Bytes → IriDictionary b q → Found
  cached_iri value (some id) d = ok (id, d)
  cached_iri value none d = stored_iri value (b.get d.txn (value_key value)) d

  -- getIRI
  unfoldable pub get_iri : Bytes → IriDictionary b q → Found
  get_iri value d = cached_iri value (lookup value d.ids) d

  unfoldable pub stored_value : Bytes → Result Bytes → IriDictionary b q → Found
  stored_value id (err key_not_found) d = err not_found
  stored_value id (err e) d = err e
  stored_value id (ok value) d = ok (value, remember id value d)

  unfoldable pub cached_value : Bytes → Option Bytes → IriDictionary b q → Found
  cached_value id (some value) d = ok (value, d)
  cached_value id none d = stored_value id (b.get d.txn (id_key id)) d

  -- getValue
  unfoldable pub get_value : Bytes → IriDictionary b q → Found
  get_value id d = cached_value id (lookup id d.values) d
