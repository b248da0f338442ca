-- ===== src/QuadStore/Memory/Order.antt =====
-- The ids stay in order, so that the binary search finds them.
use forty_six.Base.{
  ℕ, zero, suc, ◌+◌, ◌≡◌, ◌≢◌, none, refl, true, false, Bool-cases, Option-cases, lt→ltb, inl, inr,
  List, [], ◌∷◌, arith, Bytes, bytes_eq, bytes_eq_iff, length, ◌<◌, All, All-map, if◌then◌else◌, ok,
  err, not_found, bytes_eq_self, ◌∙◌,
}
use forty_six.Dict.{lookup, remove, lookup-insert, lookup-remove}
use forty_six.QuadStore.{Quad}
use forty_six.QuadStore.Sort.{
  bytes_le, bytes_le_refl, bytes_le_antisym, bytes_le_total, bytes_le_trans, position, IsSorted,
  search_strings, search_strings-position,
}
use forty_six.QuadStore.Memory.{MemoryStore, get, insert_at, remove_at, set, delete}

insert_at-All :
    (P : Bytes → Type 0) (i : ℕ) (x : Bytes) (xs : List Bytes)
    → P x
    → All P xs
    → All P (insert_at i x xs)
insert_at-All P zero x xs p h = (p, h)
insert_at-All P (suc i) x [] p h = (p, tt)
insert_at-All P (suc i) x (y ∷ xs) p (q, h) = (q, insert_at-All P i x xs p h)

insert_at-IsSorted :
    (x : Bytes) (xs : List Bytes) → IsSorted xs → IsSorted (insert_at (position x xs) x xs)
unfolding position
insert_at-IsSorted x [] s = (tt, tt)
insert_at-IsSorted x (y ∷ xs) (p, s) = elim (Bool-cases (bytes_le x y)) [
  | inl e ↦ rw e ((e, All-map xs (λ z q. bytes_le_trans x y z e q) p), (p, s))
  | inr e ↦ rw e (
    insert_at-All (λ z. bytes_le y z ≡ true) (position x xs) x xs (bytes_le_total x y e) p,
    insert_at-IsSorted x xs s,
  )
]

remove_at-All : (P : Bytes → Type 0) (i : ℕ) (xs : List Bytes) → All P xs → All P (remove_at i xs)
remove_at-All P zero [] h = tt
remove_at-All P (suc i) [] h = tt
remove_at-All P zero (y ∷ xs) (q, h) = h
remove_at-All P (suc i) (y ∷ xs) (q, h) = (q, remove_at-All P i xs h)

remove_at-IsSorted : (i : ℕ) (xs : List Bytes) → IsSorted xs → IsSorted (remove_at i xs)
remove_at-IsSorted zero [] h = tt
remove_at-IsSorted (suc i) [] h = tt
remove_at-IsSorted zero (y ∷ xs) (p, s) = s
remove_at-IsSorted (suc i) (y ∷ xs) (p, s) =
    (remove_at-All (λ z. bytes_le y z ≡ true) i xs p, remove_at-IsSorted i xs s)

-- how often a text is in a list
unfoldable pub count : Bytes → List Bytes → ℕ
count x [] = 0
count x (y ∷ ys) = (if bytes_eq y x then 1 else 0) + count x ys

pub count-insert_at :
    (i : ℕ) (x j : Bytes) (xs : List Bytes)
    → count j (insert_at i x xs) ≡ (if bytes_eq x j then 1 else 0) + count j xs
unfolding count
count-insert_at zero x j xs = refl
count-insert_at (suc i) x j [] = refl
count-insert_at (suc i) x j (y ∷ xs) = omega (arith, count-insert_at i x j xs)

count-below :
    (x y : Bytes) (ys : List Bytes)
    → bytes_le y x ≡ false
    → All (λ z. bytes_le y z ≡ true) ys
    → count x ys ≡ 0
unfolding count
count-below x y [] e p = refl
count-below x y (z ∷ ys) e (q, p) = ground (arith, count-below x y ys e p, bytes_eq_iff z x)

first_is :
    (x y : Bytes) (ys : List Bytes)
    → IsSorted (y ∷ ys)
    → 0 < count x (y ∷ ys)
    → bytes_le x y ≡ true
    → y ≡ x
unfolding count
first_is x y ys (p, s) h e = elim (Bool-cases (bytes_le y x)) [
  | inl q ↦ bytes_le_antisym y x q e
  | inr q ↦ ground (arith, count-below x y ys q p, bytes_eq_iff y x)
]

-- A text that is in a sorted list stands at its position.
pub count-remove_at :
    (x j : Bytes) (xs : List Bytes)
    → IsSorted xs
    → 0 < count x xs
    → count j xs ≡ (if bytes_eq x j then 1 else 0) + count j (remove_at (position x xs) xs)
unfolding count position
count-remove_at x j [] s h = ground arith
count-remove_at x j (y ∷ xs) (p, s) h = elim (Bool-cases (bytes_le x y)) [
  | inl e ↦ rw (e, first_is x y xs (p, s) h e)
  | inr e ↦ rw e (ground (arith, bytes_eq_iff y x, bytes_le_refl x, count-remove_at x j xs s))
]

pub position-lt-length :
    (x : Bytes) (xs : List Bytes) → IsSorted xs → 0 < count x xs → position x xs < length xs
unfolding count position
position-lt-length x [] s h = ground arith
position-lt-length x (y ∷ xs) (p, s) h =
    ground (arith, position-lt-length x xs s, bytes_eq_iff y x, bytes_le_refl x)

-- The ids are in order, and every dataset's id is one of them.
pub record IsConsistent (m : MemoryStore) : Type 0 where
  pub sorted : IsSorted m.values
  pub listed : (id : Bytes) → lookup id m.datasets ≢ none → 0 < count id m.values

pub count-set :
    (id j : Bytes) (quads : List Quad) (m : MemoryStore)
    → count j (set id quads m).values ≡ (if bytes_eq id j then 1 else 0) + count j m.values
unfolding set
count-set id j quads m = count-insert_at (search_strings m.values id) id j m.values

set-listed :
    (id j : Bytes) (quads : List Quad) (m : MemoryStore)
    → (lookup j m.datasets ≢ none → 0 < count j m.values)
    → lookup j (set id quads m).datasets ≢ none
    → 0 < count j (set id quads m).values
set-listed id j quads m listed has = elim (Bool-cases (bytes_eq id j)) [
  | inl e ↦ rw (count-set, e) (omega arith)
  | inr e ↦
      let old = listed (λ q. has (unfold set in (lookup-insert id j quads m.datasets ∙ rw e q))) in
      rw (count-set, e) (omega arith)
]

-- Set keeps the ids in order and lists the id that it sets.
pub set-IsConsistent :
    (id : Bytes) (quads : List Quad) (m : MemoryStore)
    → IsConsistent m
    → IsConsistent (set id quads m)
set-IsConsistent id quads m h = record {
  sorted =
      unfold set in
      rw (search_strings-position m.values id h.sorted) (insert_at-IsSorted id m.values h.sorted);
  listed = λ j. set-listed id j quads m (h.listed j);
}

-- the store that Delete leaves
abbrev pub deleted : Bytes → MemoryStore → MemoryStore
deleted id m = record {
  datasets = remove id m.datasets;
  values = remove_at (position id m.values) m.values;
}

delete-deleted :
    (id : Bytes) (m : MemoryStore)
    → IsConsistent m
    → lookup id m.datasets ≢ none
    → delete id m ≡ ok (deleted id m)
unfolding delete
delete-deleted id m h has = elim (Option-cases (lookup id m.datasets)) [
  | inl e ↦ absurd (has e)
  | inr (quads, e) ↦
      let inside = position-lt-length id m.values h.sorted (h.listed id has) in
      rw (
        e,
        search_strings-position m.values id h.sorted,
        lt→ltb (position id m.values) (length m.values) inside,
      )
]

pub count-deleted :
    (id j : Bytes) (m : MemoryStore)
    → IsConsistent m
    → lookup id m.datasets ≢ none
    → count j m.values ≡ (if bytes_eq id j then 1 else 0) + count j (deleted id m).values
count-deleted id j m h has = count-remove_at id j m.values h.sorted (h.listed id has)

deleted-listed :
    (id j : Bytes) (m : MemoryStore)
    → IsConsistent m
    → lookup id m.datasets ≢ none
    → lookup j (deleted id m).datasets ≢ none
    → 0 < count j (deleted id m).values
deleted-listed id j m h has hj = elim (Bool-cases (bytes_eq id j)) [
  | inl e ↦ absurd (hj (lookup-remove id j m.datasets ∙ rw e))
  | inr e ↦
      let old = h.listed j (λ q. hj (lookup-remove id j m.datasets ∙ rw e q)) in
      ground (arith, e, old, count-deleted id j m h has)
]

-- Delete of an id that has a dataset never panics on a consistent store, and leaves a consistent
-- store, without that dataset.
pub delete-IsConsistent :
    (id : Bytes) (m : MemoryStore)
    → IsConsistent m
    → lookup id m.datasets ≢ none
    → (delete id m ≡ ok (deleted id m))
      × IsConsistent (deleted id m)
      × (get id (deleted id m) ≡ err not_found)
delete-IsConsistent id m h has = (
  delete-deleted id m h has,
  record {
    sorted = remove_at-IsSorted (position id m.values) m.values h.sorted;
    listed = λ j. deleted-listed id j m h has;
  },
  unfold get in rw (lookup-remove, bytes_eq_self id),
)
