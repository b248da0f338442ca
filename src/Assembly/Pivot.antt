-- ===== src/Assembly/Pivot.antt =====
-- The variables that the sort of a query leaves where they are.
use forty_six.Base.{
  ℕ, suc, ◌≤◌, ◌<◌, ◌-◌, ◌≡◌, refl, sym, ◌∙◌, Bool, true, false, Bool-cases, inl, inr, List, [],
  ◌∷◌, Option, none, some, length, ltb, ◌==◌, if◌then◌else◌, arith,
}
use forty_six.Assembly.Numbering.{nth}
use forty_six.Assembly.Order.{Variable, precedes, less, sink, sort_onto, stable, rev_onto}

-- The entries from the index `n` on, with and without the one at `n`.
nth-cons {ℓ} :
    {A : Type ℓ} (n i : ℕ) (o : Option A) (x : A) (xs : List A)
    → (if ltb i n then o else nth (i - n) (x ∷ xs))
      ≡ (if ltb i (suc n) then (if n == i then some x else o) else nth (i - suc n) xs)
nth-cons n i o x xs = elim (Bool-cases (ltb i n)) [
  | inl e ↦
      let e1 : ltb i (suc n) ≡ true = ground (arith, e) in
      let e2 : (n == i) ≡ false = ground (arith, e) in rw (e, e1, e2) refl
  | inr e ↦ elim (Bool-cases (n == i)) [
    | inl e2 ↦
        let e1 : ltb i (suc n) ≡ true = ground (arith, e, e2) in
        let e3 : i - n ≡ 0 = ground (arith, e2) in rw (e, e1, e2, e3) refl
    | inr e2 ↦
        let e1 : ltb i (suc n) ≡ false = ground (arith, e, e2) in
        let e3 : i - n ≡ suc (i - suc n) = ground (arith, e, e2) in rw (e, e1, e3) refl
  ]
]

module _ {ℓ} {S C : Type ℓ} (lower : S → S → Bool) (pivot : ℕ) where
  -- Only variables behind the pivot are swapped.
  pub less-true :
      (n : ℕ) (x y : Variable S C)
      → less lower pivot (suc n) n x y ≡ true
      → pivot ≤ n × (precedes lower pivot x y ≡ true)
  unfolding less
  less-true n x y h = (ground (arith, h), ground (arith, h))

  -- The entry at the index `i` of a list that stands last first.
  from_end : ℕ → List (Variable S C) → Option (Variable S C)
  from_end i [] = none
  from_end i (y ∷ ys) = if length ys == i then some y else from_end i ys

  length-sink :
      (x : Variable S C) (ys : List (Variable S C))
      → length (sink lower pivot x ys) ≡ suc (length ys)
  unfolding sink
  length-sink x [] = refl
  length-sink x (y ∷ ys) = elim (Bool-cases (less lower pivot (suc (length ys)) (length ys) x y)) [
    | inl e ↦ rw e (omega (arith, length-sink x ys))
    | inr e ↦ rw e refl
  ]

  sink-from_end :
      (i : ℕ) (x : Variable S C) (ys : List (Variable S C))
      → i < pivot
      → from_end i (sink lower pivot x ys) ≡ from_end i (x ∷ ys)
  unfolding sink from_end
  sink-from_end i x [] lt = refl
  sink-from_end i x (y ∷ ys) lt =
      elim (Bool-cases (less lower pivot (suc (length ys)) (length ys) x y)) [
        | inl e ↦ rw e (
            ground (
              arith,
              lt,
              (less-true (length ys) x y e).0,
              length-sink x ys,
              sink-from_end i x ys lt,
            ))
        | inr e ↦ rw e refl
      ]

  sort_onto-from_end :
      (i : ℕ) (sorted given xs : List (Variable S C))
      → i < pivot
      → length sorted ≡ length given
      → from_end i sorted ≡ from_end i given
      → from_end i (sort_onto lower pivot sorted xs) ≡ from_end i (rev_onto xs given)
  unfolding sort_onto
  sort_onto-from_end i sorted given [] lt e h = h
  sort_onto-from_end i sorted given (x ∷ xs) lt e h =
      sort_onto-from_end i (sink lower pivot x sorted) (x ∷ given) xs lt
        (omega (arith, length-sink x sorted, e))
        (sink-from_end i x sorted lt ∙ unfold from_end in rw (e, h) refl)

  from_end-none : (i : ℕ) (ys : List (Variable S C)) → length ys ≤ i → from_end i ys ≡ none
  unfolding from_end
  from_end-none i [] le = refl
  from_end-none i (y ∷ ys) le =
      let e : (length ys == i) ≡ false = ground (arith, le) in
      rw e (from_end-none i ys (omega arith))

  nth-rev_onto :
      (i : ℕ) (ys acc : List (Variable S C))
      → nth i (rev_onto ys acc)
        ≡ (if ltb i (length ys) then from_end i ys else nth (i - length ys) acc)
  unfolding from_end
  nth-rev_onto i [] acc =
      let e : ltb i 0 ≡ false = ground arith in let e1 : i - 0 ≡ i = omega arith in rw (e, e1) refl
  nth-rev_onto i (y ∷ ys) acc =
      nth-rev_onto i ys (y ∷ acc) ∙ nth-cons (length ys) i (from_end i ys) y acc

  from_end-rev_onto :
      (i : ℕ) (xs acc : List (Variable S C))
      → from_end i (rev_onto xs acc)
        ≡ (if ltb i (length acc) then from_end i acc else nth (i - length acc) xs)
  unfolding from_end
  from_end-rev_onto i [] acc = elim (Bool-cases (ltb i (length acc))) [
    | inl e ↦ rw e refl
    | inr e ↦ rw e (from_end-none i acc (ground (arith, e)))
  ]
  from_end-rev_onto i (x ∷ xs) acc =
      from_end-rev_onto i xs (x ∷ acc) ∙ sym (nth-cons (length acc) i (from_end i acc) x xs)

  pub nth-stable :
      (us : List (Variable S C)) (i : ℕ) → i < pivot → nth i (stable lower pivot us) ≡ nth i us
  unfolding stable
  nth-stable us i lt =
      let sorted = sort_onto lower pivot [] us in
      let no : ltb i 0 ≡ false = ground arith in
      let whole : i - 0 ≡ i = omega arith in
      nth-rev_onto i sorted []
      ∙ sym (from_end-rev_onto i [] sorted)
      ∙ sort_onto-from_end i [] [] us lt refl refl
      ∙ from_end-rev_onto i us []
      ∙ rw (no, whole) refl
