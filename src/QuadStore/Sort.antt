-- ===== src/QuadStore/Sort.antt =====
-- What the program uses of Go's package sort: SearchStrings, with its binary search.
use forty_six.Base.{
  ℕ, zero, suc, ◌+◌, ◌-◌, ◌/◌, ◌≤◌, ◌<◌, ◌≡◌, refl, ◌∙◌, Bool, true, false, Bool-cases, inl, inr,
  List, [], ◌∷◌, arith, Bytes, length, get_or, ltb, leb, ◌==◌, if◌then◌else◌, All, All-map,
}

-- `<=` on Go strings: by the bytes.
unfoldable pub bytes_le : Bytes → Bytes → Bool
bytes_le [] ys = true
bytes_le (x ∷ xs) [] = false
bytes_le (x ∷ xs) (y ∷ ys) = if ltb x y then true else if x == y then bytes_le xs ys else false

-- sort.Search: the loop on `i` and `j`. Each round at least halves j - i, so a fuel of j - i is
-- enough.
unfoldable pub search_loop : (ℕ → Bool) → ℕ → ℕ → ℕ → ℕ
search_loop f zero i j = i
search_loop f (suc fuel) i j =
    let h = (i + j) / 2 in
    let left = search_loop f fuel i h in
    let right = search_loop f fuel (h + 1) j in if ltb i j then (if f h then left else right) else i

unfoldable pub search_strings : List Bytes → Bytes → ℕ
unfolding search_loop bytes_le
search_strings xs x = search_loop (λ i. bytes_le x (get_or xs i [])) (length xs) 0 (length xs)

-- A test that fails below `m` and holds from `m` on is searched for right.
search_loop-finds :
    (f : ℕ → Bool) (m n fuel i j : ℕ)
    → ((k : ℕ) → k < n → f k ≡ leb m k)
    → i ≤ m
    → m ≤ j
    → j ≤ n
    → j - i ≤ fuel
    → search_loop f fuel i j ≡ m
unfolding search_loop
search_loop-finds f m n zero i j mono im mj jn enough = omega arith
search_loop-finds f m n (suc fuel) i j mono im mj jn enough = elim (Bool-cases (ltb i j)) [
  | inl more ↦ ground (
    arith,
    mono ((i + j) / 2),
    search_loop-finds f m n fuel i ((i + j) / 2) mono,
    search_loop-finds f m n fuel ((i + j) / 2 + 1) j mono,
  )
  | inr over ↦ ground arith
]

-- the number of texts in front of the first that is not below `x`
unfoldable pub position : Bytes → List Bytes → ℕ
unfolding bytes_le
position x [] = 0
position x (y ∷ ys) = if bytes_le x y then 0 else suc (position x ys)

abbrev pub IsSorted : List Bytes → Type 0
IsSorted [] = Unit
IsSorted (x ∷ xs) = All (λ y. bytes_le x y ≡ true) xs × IsSorted xs

pub bytes_le_refl : (x : Bytes) → bytes_le x x ≡ true
unfolding bytes_le
bytes_le_refl [] = refl
bytes_le_refl (c ∷ x) = ground (arith, bytes_le_refl x)

pub bytes_le_trans :
    (x y z : Bytes) → bytes_le x y ≡ true → bytes_le y z ≡ true → bytes_le x z ≡ true
unfolding bytes_le
bytes_le_trans [] y z p q = refl
bytes_le_trans (a ∷ x) [] z p q = ground arith
bytes_le_trans (a ∷ x) (b ∷ y) [] p q = ground arith
bytes_le_trans (a ∷ x) (b ∷ y) (c ∷ z) p q = ground (arith, bytes_le_trans x y z)

pub bytes_le_total : (x y : Bytes) → bytes_le x y ≡ false → bytes_le y x ≡ true
unfolding bytes_le
bytes_le_total [] y p = ground arith
bytes_le_total (a ∷ x) [] p = refl
bytes_le_total (a ∷ x) (b ∷ y) p = ground (arith, bytes_le_total x y)

pub bytes_le_antisym : (x y : Bytes) → bytes_le x y ≡ true → bytes_le y x ≡ true → x ≡ y
unfolding bytes_le
bytes_le_antisym [] [] p q = refl
bytes_le_antisym [] (b ∷ y) p q = ground arith
bytes_le_antisym (a ∷ x) [] p q = ground arith
bytes_le_antisym (a ∷ x) (b ∷ y) p q = ground (arith, bytes_le_antisym x y)

-- What is not above the first of a sorted list is not above any of them.
below-All :
    (x y : Bytes) (ys : List Bytes)
    → bytes_le x y ≡ true
    → All (λ z. bytes_le y z ≡ true) ys
    → All (λ z. bytes_le x z ≡ true) ys
below-All x y ys p h = All-map ys (λ z q. bytes_le_trans x y z p q) h

get_or-All :
    (x : Bytes) (ys : List Bytes) (k : ℕ)
    → k < length ys
    → All (λ z. bytes_le x z ≡ true) ys
    → bytes_le x (get_or ys k []) ≡ true
get_or-All x [] k lt h = elim lt [ ]
get_or-All x (y ∷ ys) zero lt (p, h) = p
get_or-All x (y ∷ ys) (suc k) lt (p, h) = get_or-All x ys k (omega arith) h

position-test :
    (x : Bytes) (xs : List Bytes) (k : ℕ)
    → IsSorted xs
    → k < length xs
    → bytes_le x (get_or xs k []) ≡ leb (position x xs) k
unfolding position
position-test x [] k s lt = elim lt [ ]
position-test x (y ∷ ys) zero (p, s) lt = ground arith
position-test x (y ∷ ys) (suc k) (p, s) lt = elim (Bool-cases (bytes_le x y)) [
  | inl e ↦ rw e (get_or-All x ys k (omega arith) (below-All x y ys e p) ∙ ground arith)
  | inr e ↦ rw e (position-test x ys k s (omega arith) ∙ ground arith)
]

position-le-length : (x : Bytes) (xs : List Bytes) → position x xs ≤ length xs
unfolding position
position-le-length x [] = omega arith
position-le-length x (y ∷ ys) = ground (arith, position-le-length x ys)

-- SearchStrings finds, in a sorted slice, the index of the first text that is not below the one
-- searched for, and the length of the slice where there is none.
pub search_strings-position :
    (xs : List Bytes) (x : Bytes) → IsSorted xs → search_strings xs x ≡ position x xs
search_strings-position xs x s =
    unfold search_strings in
    search_loop-finds (λ i. bytes_le x (get_or xs i [])) (position x xs) (length xs) (length xs) 0
      (length xs) (λ k lt. position-test x xs k s lt) (omega arith) (position-le-length x xs)
      (omega arith) (omega arith)
