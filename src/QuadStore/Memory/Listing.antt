-- ===== src/QuadStore/Memory/Listing.antt =====
-- What List shows of the ids, by Next from an index on.
use forty_six.Base.{
  refl, ok-injective, ap, sym, Option, Bool-cases, inl, inr, ltb, length, ◌<◌, ◌≡◌, ◌≢◌, Bytes,
  bytes_eq, bytes_eq_self, List, some, none, ok, err, not_found, arith, if◌then◌else◌,
}
use forty_six.Dict.{lookup, lookup-insert, lookup-remove, remove}
use forty_six.QuadStore.{Quad}
use forty_six.QuadStore.Sort.{search_strings}
use forty_six.QuadStore.Memory.{delete_found, MemoryStore, set, get, delete}
use forty_six.QuadStore.Memory.Order.{
  IsConsistent, count, count-set, set-IsConsistent, deleted, delete-IsConsistent, count-deleted,
}

lookup-set :
    (id j : Bytes) (quads : List Quad) (m : MemoryStore)
    → lookup j (set id quads m).datasets
      ≡ (if bytes_eq id j then some quads else lookup j m.datasets)
unfolding set
lookup-set id j quads m = lookup-insert id j quads m.datasets

-- Get returns what Set has stored last under the id, and Set changes what Get returns for no other
-- id.
pub get-set :
    (id j : Bytes) (quads : List Quad) (m : MemoryStore)
    → get j (set id quads m) ≡ (if bytes_eq id j then ok quads else get j m)
unfolding get
get-set id j quads m = ground (arith, lookup-set id j quads m)

set-has :
    (id : Bytes) (quads : List Quad) (m : MemoryStore) → lookup id (set id quads m).datasets ≢ none
set-has id quads m q = ground (arith, lookup-set id id quads m, bytes_eq_self id)

-- An id that is set twice is listed twice, so that after a Delete Get does not find it and it is
-- still in the list, for every consistent store.
pub set_twice-still_listed :
    (id : Bytes) (quads quads' : List Quad) (m : MemoryStore)
    → IsConsistent m
    → (m' : MemoryStore) × (delete id (set id quads' (set id quads m)) ≡ ok m')
      × (get id m' ≡ err not_found)
      × (0 < count id m'.values)
set_twice-still_listed id quads quads' m h =
    let twice = set id quads' (set id quads m) in
    let c = set-IsConsistent id quads' (set id quads m) (set-IsConsistent id quads m h) in
    let has : lookup id twice.datasets ≢ none = set-has id quads' (set id quads m) in
    let (d, _, gone) = delete-IsConsistent id twice c has in
    (
      deleted id twice,
      d,
      gone,
      ground (
        arith,
        bytes_eq_self id,
        count-deleted id id twice c has,
        count-set id id quads' (set id quads m),
        count-set id id quads m,
      ),
    )

delete_found-gone :
    (id : Bytes) (quads : List Quad) (m m' : MemoryStore)
    → delete_found (some quads) id m ≡ ok m'
    → m'.datasets ≡ remove id m.datasets
unfolding delete_found
delete_found-gone id quads m m' k =
    elim (Bool-cases (ltb (search_strings m.values id) (length m.values))) [
      | inl e ↦ ap (λ (x : MemoryStore). x.datasets) (sym (ok-injective _ m' (rw e at k)))
      | inr e ↦ absurd (cc (rw e at k))
    ]

-- A Delete that returns no error takes the dataset out, in every store.
pub get-delete_memory :
    (id : Bytes) (m m' : MemoryStore) → delete id m ≡ ok m' → get id m' ≡ err not_found
unfolding delete get
get-delete_memory id m m' h = cases (lookup id m.datasets) h
  where
    cases : (r : Option (List Quad)) → delete_found r id m ≡ ok m' → get id m' ≡ err not_found
    cases none k = cc
    cases (some quads) k =
        rw (delete_found-gone id quads m m' k, lookup-remove id id m.datasets, bytes_eq_self id)
          refl
