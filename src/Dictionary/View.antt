-- ===== src/Dictionary/View.antt =====
-- The table of IRIs that a dictionary stands for: its maps over the entries of its transaction.
use mathlib.Core.Option.{some-injective}
use forty_six.Base.{
  ok-injective, ℕ, ◌⊎◌, inl, inr, Bool-cases, ◌≡◌, ◌∙◌, refl, sym, subst, Bool, true, false, Option,
  none, some, Bytes, bytes_eq, bytes_eq_iff, bytes_eq_self, if◌then◌else◌, All, arith,
  key_not_found, Result, ok, err, >>=-eq-ok,
}
use forty_six.Util.Ids.{from_uint64}
use forty_six.Util.Ids.Decode.{IsBase64, from_uint64-IsBase64}
use forty_six.Badger.{Database, Outcome, failed, panicked, Reads, set_safe, done}
use forty_six.Badger.Safe.{get-set_safe}
use forty_six.Dict.{lookup, lookup-insert}
use forty_six.Dictionary.{
  Sequence, IriDictionary, value_key, id_key, text_of, after_write, remember, allocate, new_iri,
  stored_iri, cached_iri, get_iri,
}

-- what stands in the map or else in the database
abbrev pub known : Option Bytes → Result Bytes → Option Bytes
known (some v) r = some v
known none (ok v) = some v
known none (err e) = none

text_of-ok : (r : Option Bytes) (text : Bytes) → text_of r ≡ ok text → r ≡ some text
text_of-ok none text h = cc
text_of-ok (some t) text h = cc

after_write-done {ℓ} : {T : Type ℓ} (r : Outcome T) (t : T) → after_write r ≡ ok t → r ≡ done t
after_write-done (done u) t h = cc
after_write-done (failed l e) t h = cc
after_write-done panicked t h = cc

module _ (b : Database) (q : Sequence) where
  -- the id of an IRI, and the IRI of an id
  unfoldable pub id_of : IriDictionary b q → Bytes → Option Bytes
  id_of d value = known (lookup value d.ids) (b.get d.txn (value_key value))

  unfoldable pub value_of : IriDictionary b q → Bytes → Option Bytes
  value_of d id = known (lookup id d.values) (b.get d.txn (id_key id))

  -- The id of every IRI is a base64 text, and leads back to the IRI. The next number of the sequence
  -- is the id of none.
  pub record IsCoherent (d : IriDictionary b q) : Type 0 where
    pub back : (value id : Bytes) → id_of d value ≡ some id → value_of d id ≡ some value
    pub plain : (value id : Bytes) → id_of d value ≡ some id → All IsBase64 id

  -- The next number of the sequence is the id of no IRI yet.
  abbrev pub IsFresh : IriDictionary b q → Type 0
  IsFresh d =
      (counter counter' : q.Counter) (n : ℕ) (id : Bytes)
      → d.sequence ≡ some counter
      → q.next counter ≡ ok (n, counter')
      → from_uint64 n ≡ some id
      → value_of d id ≡ none

  remember-id_of :
      (id value v : Bytes) (d : IriDictionary b q)
      → id_of (remember b q id value d) v ≡ (if bytes_eq value v then some id else id_of d v)
  unfolding id_of
  remember-id_of id value v d = ground (arith, lookup-insert value v id d.ids)

  remember-value_of :
      (id value j : Bytes) (d : IriDictionary b q)
      → value_of (remember b q id value d) j ≡ (if bytes_eq id j then some value else value_of d j)
  unfolding value_of
  remember-value_of id value j d = ground (arith, lookup-insert id j value d.values)

  -- what a getIRI of `value` that gives `id` does to the table
  pub record Extends (value id : Bytes) (d d' : IriDictionary b q) : Type 0 where
    pub ids : (v : Bytes) → id_of d' v ≡ (if bytes_eq value v then some id else id_of d v)
    pub values : (j : Bytes) → value_of d' j ≡ (if bytes_eq id j then some value else value_of d j)
    pub text : All IsBase64 id
    -- the id is that of the IRI, or is new
    pub known_or_new : (id_of d value ≡ some id) ⊎ (value_of d id ≡ none)

  pub Extends-IsCoherent :
      (value id : Bytes) (d d' : IriDictionary b q)
      → IsCoherent d
      → Extends value id d d'
      → IsCoherent d'
  Extends-IsCoherent value id d d' h e = record {
    back = λ v j k. ground (
      arith,
      e.ids v,
      e.values j,
      k,
      h.back v j,
      e.known_or_new,
      h.back value id,
      bytes_eq_iff value v,
      bytes_eq_iff id j,
      h.back v id,
      bytes_eq_self id,
    );
    plain = λ v j k. elim (Bool-cases (bytes_eq value v)) [
      | inl same ↦
          subst (All IsBase64) (some-injective _ _ (sym (e.ids v ∙ rw same refl) ∙ k)) e.text
      | inr other ↦ h.plain v j (sym (e.ids v ∙ rw other refl) ∙ k)
    ];
  }

  known-Extends :
      (value id : Bytes) (d : IriDictionary b q)
      → IsCoherent d
      → id_of d value ≡ some id
      → Extends value id d d
  known-Extends value id d h e = record {
    ids = λ v. ground (arith, bytes_eq_iff value v, e);
    values = λ j. ground (arith, bytes_eq_iff id j, h.back value id e);
    text = h.plain value id e;
    known_or_new = inl e;
  }

  remember-Extends :
      (value id : Bytes) (d : IriDictionary b q)
      → IsCoherent d
      → id_of d value ≡ some id
      → Extends value id d (remember b q id value d)
  remember-Extends value id d h e = record {
    ids = λ v. remember-id_of id value v d;
    values = λ j. remember-value_of id value j d;
    text = h.plain value id e;
    known_or_new = inl e;
  }

  stored-id_of :
      (value id : Bytes) (d : IriDictionary b q)
      → lookup value d.ids ≡ none
      → b.get d.txn (value_key value) ≡ ok id
      → id_of d value ≡ some id
  unfolding id_of
  stored-id_of value id d e k = rw (e, k) refl

  cached-id_of :
      (value id : Bytes) (d : IriDictionary b q)
      → lookup value d.ids ≡ some id
      → id_of d value ≡ some id
  unfolding id_of
  cached-id_of value id d e = rw e refl

module _ (b : Database) (laws : Reads b) (q : Sequence) where
  written-Extends :
      (value id : Bytes) (d : IriDictionary b q) (counter : q.Counter) (t t' : b.Txn)
      → value_of b q d id ≡ none
      → All IsBase64 id
      → set_safe b (id_key id) value d.txn ≡ done t
      → set_safe b (value_key value) id t ≡ done t'
      → Extends b q value id d
          (remember b q id value (record d { sequence = some counter; txn = t' }))
  unfolding id_of value_of bytes_eq
  written-Extends value id d counter t t' new text w w' =
      let read : (j : Bytes)
          → b.get t' j ≡ (
              if bytes_eq (value_key value) j
              then ok id
              else if bytes_eq (id_key id) j
              then ok value
              else b.get d.txn j) =
        λ j.
          get-set_safe b laws t t' (value_key value) id j w'
          ∙ rw (get-set_safe b laws d.txn t (id_key id) value j w) refl in
      record {
        ids = λ v. ground (arith, lookup-insert value v id d.ids, read (value_key v));
        values = λ j. ground (arith, lookup-insert id j value d.values, read (id_key j));
        text = text;
        known_or_new = inr new;
      }

  allocate-Extends :
      (value id : Bytes) (counter : q.Counter) (d d' : IriDictionary b q)
      → d.sequence ≡ some counter
      → IsFresh b q d
      → allocate b q value counter d ≡ ok (id, d')
      → Extends b q value id d d'
  unfolding allocate
  allocate-Extends value id counter d d' c fresh h =
      let (r, e, h₁) = >>=-eq-ok (q.next counter) _ h in
      let (text, e', h₂) = >>=-eq-ok (text_of (from_uint64 r.0)) _ h₁ in
      let (t, w, h₃) = >>=-eq-ok (after_write (set_safe b (id_key text) value d.txn)) _ h₂ in
      let (t', w', h₄) = >>=-eq-ok (after_write (set_safe b (value_key value) text t)) _ h₃ in
      let same = text_of-ok (from_uint64 r.0) text e' in
      subst (λ (x : Bytes × IriDictionary b q). Extends b q value x.0 d x.1) (ok-injective _ _ h₄)
        (written-Extends value text d r.1 t t' (fresh counter r.1 r.0 text c e same)
          (from_uint64-IsBase64 r.0 same) (after_write-done _ t w) (after_write-done _ t' w'))

  stored-Extends :
      (value id : Bytes) (r : Result Bytes) (d d' : IriDictionary b q)
      → lookup value d.ids ≡ none
      → b.get d.txn (value_key value) ≡ r
      → IsCoherent b q d
      → IsFresh b q d
      → stored_iri b q value r d ≡ ok (id, d')
      → Extends b q value id d d'
  unfolding stored_iri new_iri
  stored-Extends value id (ok val) d d' e k h fresh p =
      subst (λ (x : Bytes × IriDictionary b q). Extends b q value x.0 d x.1) (ok-injective _ _ p)
        (remember-Extends b q value val d h (stored-id_of b q value val d e k))
  stored-Extends value id (err key_not_found) d d' e k h fresh p = new d.update d.sequence refl p
    where
      new :
          (update : Bool) (sequence : Option q.Counter)
          → d.sequence ≡ sequence
          → new_iri b q value update sequence d ≡ ok (id, d')
          → Extends b q value id d d'
      new true (some counter) c p = allocate-Extends value id counter d d' c fresh p
      new true none c p = cc
      new false sequence c p = cc
  stored-Extends value id (err _) d d' e k h fresh p = cc

  -- A getIRI that returns an id has that id stand for the IRI from then on, and changes the table in
  -- no other way: an IRI that has an id keeps it, and the id of one that has none is new. The table is
  -- coherent, and the sequence's next number is not in use; the table stays coherent.
  pub get_iri-Extends :
      (value id : Bytes) (d d' : IriDictionary b q)
      → IsCoherent b q d
      → IsFresh b q d
      → get_iri b q value d ≡ ok (id, d')
      → Extends b q value id d d' × IsCoherent b q d'
  unfolding get_iri cached_iri
  get_iri-Extends value id d d' h fresh p =
      let e = cases (lookup value d.ids) refl p in (e, Extends-IsCoherent b q value id d d' h e)
    where
      cases :
          (r : Option Bytes)
          → lookup value d.ids ≡ r
          → cached_iri b q value r d ≡ ok (id, d')
          → Extends b q value id d d'
      cases (some text) e p =
          subst (λ (x : Bytes × IriDictionary b q). Extends b q value x.0 d x.1)
            (ok-injective _ _ p)
            (known-Extends b q value text d h (cached-id_of b q value text d e))
      cases none e p = stored-Extends value id (b.get d.txn (value_key value)) d d' e refl h fresh p
