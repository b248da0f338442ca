-- ===== src/Tests/Sources.antt =====
-- The theorems on statements, tag schemes and the datasets in memory at concrete inputs.
use forty_six.Base.{
  ◌≡◌, ◌≢◌, ◌<◌, refl, [], ◌∷◌, map, none, some, codes, arith, ok, err, not_found, parse_quads,
  bytes_eq, if◌then◌else◌, length, ltb,
}
use forty_six.Statement.{Statement, get_statements}
use forty_six.Statement.Parse.{entry_value, IsStored, get_statements-entry_value}
use forty_six.Dict.{lookup, insert}
use forty_six.QuadStore.{Quad}
use forty_six.QuadStore.Memory
use forty_six.QuadStore.Memory.{MemoryStore, set, delete}
use forty_six.QuadStore.Memory.Order.{count, IsConsistent}
use forty_six.QuadStore.Memory.Listing.{set_twice-still_listed}
use forty_six.QuadStore.Encoding
use forty_six.QuadStore.Encoding.RoundTrip.{IsPlainQuad, get-set_badger}
use forty_six.Tests.Disk.{disk, disk-Reads, blank, Table}

abbrev statement : Statement
statement = record { base = codes "AAAB"; index = 40; graph = [] }

statement-IsStored : IsStored statement
statement-IsStored = record { base = ground arith; graph = tt; index = omega arith }

get_statements-entry_value_example :
    get_statements (entry_value (statement ∷ statement ∷ []))
    ≡ ok (map some (statement ∷ statement ∷ []))
get_statements-entry_value_example =
    get_statements-entry_value (statement ∷ statement ∷ [])
      (statement-IsStored, (statement-IsStored, tt))

abbrev quad : Quad
quad = record {
  subject = codes "AAAB";
  predicate = codes "AAAC";
  object = codes "AAAD";
  graph = [];
}

empty-IsConsistent : IsConsistent Memory.empty
empty-IsConsistent = record { sorted = tt; listed = λ id h. absurd (h (unfold lookup in refl)) }

abbrev one : MemoryStore
one = set (codes "a") (quad ∷ []) Memory.empty

one-has : lookup (codes "a") one.datasets ≢ none
unfolding set lookup insert bytes_eq
one-has h = cc

set_twice-still_listed_example :
    (m' : MemoryStore) × (delete
        (codes "a")
        (set (codes "a") [] (set (codes "a") (quad ∷ []) Memory.empty))
      ≡ ok m')
    × (Memory.get (codes "a") m' ≡ err not_found)
    × (0 < count (codes "a") m'.values)
set_twice-still_listed_example =
    set_twice-still_listed (codes "a") (quad ∷ []) [] Memory.empty empty-IsConsistent

quad-IsPlainQuad : IsPlainQuad quad
quad-IsPlainQuad = record {
  subject = ground arith;
  predicate = ground arith;
  object = ground arith;
  graph = tt;
}

-- the database with the dataset of one quad
abbrev stored : Table
stored j =
    if bytes_eq (Encoding.dataset_key (codes "a")) j
    then ok (Encoding.quads_value (quad ∷ []))
    else blank j

get-set_badger_example :
    Encoding.get disk (codes "a") stored
    ≡ (if ltb (length (quad ∷ [])) 2 then err parse_quads else ok (quad ∷ []))
get-set_badger_example =
    get-set_badger disk disk-Reads (codes "a") (quad ∷ []) blank stored (quad-IsPlainQuad, tt)
      (unfold Encoding.set in refl)
