-- ===== src/Assembly/Stable.antt =====
-- The sort of the variables of a query: sort.Stable with Less of iterator.go.
use mathlib.Core.List.{Memᴰ}
use mathlib.Core.Option.{some-injective}
use forty_six.Base.{
  ℕ, zero, suc, ◌≡◌, ◌⊎◌, inl, inr, sym, ap, Bool, Bool-cases, List, [], ◌∷◌, some, length,
}
use forty_six.Assembly.Numbering.{nth}
use forty_six.Assembly.Order.{Variable, less, sink, sort_onto, stable, rev_onto}

-- Every entry of the first list is one of the second.
abbrev pub Within {ℓ} : {A : Type ℓ} → List A → List A → Type ℓ
Within {A} us vs = (x : A) → Memᴰ x us → Memᴰ x vs

pub nth-Memᴰ {ℓ} : {A : Type ℓ} (i : ℕ) (xs : List A) (x : A) → nth i xs ≡ some x → Memᴰ x xs
nth-Memᴰ i [] x h = absurd (cc h)
nth-Memᴰ zero (y ∷ ys) x h = Memᴰ.head (sym (some-injective y x h))
nth-Memᴰ (suc i) (y ∷ ys) x h = Memᴰ.tail (nth-Memᴰ i ys x h)

pub Memᴰ-nth {ℓ} : {A : Type ℓ} (xs : List A) (x : A) → Memᴰ x xs → (i : ℕ) × (nth i xs ≡ some x)
Memᴰ-nth [] x m = elim m [ ]
Memᴰ-nth (y ∷ ys) x (Memᴰ.head e) = (0, ap some (sym e))
Memᴰ-nth (y ∷ ys) x (Memᴰ.tail m) = let (i, at) = Memᴰ-nth ys x m in (suc i, at)

rev_onto-left {ℓ} : {A : Type ℓ} (xs ys : List A) (x : A) → Memᴰ x ys → Memᴰ x (rev_onto xs ys)
rev_onto-left [] ys x m = m
rev_onto-left (z ∷ zs) ys x m = rev_onto-left zs (z ∷ ys) x (Memᴰ.tail m)

rev_onto-right {ℓ} : {A : Type ℓ} (xs ys : List A) (x : A) → Memᴰ x xs → Memᴰ x (rev_onto xs ys)
rev_onto-right [] ys x m = elim m [ ]
rev_onto-right (z ∷ zs) ys x (Memᴰ.head e) = rev_onto-left zs (z ∷ ys) x (Memᴰ.head e)
rev_onto-right (z ∷ zs) ys x (Memᴰ.tail m) = rev_onto-right zs (z ∷ ys) x m

rev_onto-back {ℓ} :
    {A : Type ℓ} (xs ys : List A) (x : A) → Memᴰ x (rev_onto xs ys) → Memᴰ x xs ⊎ Memᴰ x ys
rev_onto-back [] ys x m = inr m
rev_onto-back (z ∷ zs) ys x m = elim (rev_onto-back zs (z ∷ ys) x m) [
  | inl a ↦ inl (Memᴰ.tail a)
  | inr (Memᴰ.head e) ↦ inl (Memᴰ.head e)
  | inr (Memᴰ.tail a) ↦ inr a
]

under {ℓ} :
    {A : Type ℓ} (x y : A) (ys zs : List A) → Within zs (x ∷ ys) → Within (y ∷ zs) (x ∷ y ∷ ys)
under x y ys zs h z (Memᴰ.head e) = Memᴰ.tail (Memᴰ.head e)
under x y ys zs h z (Memᴰ.tail m) = elim (h z m) [
  | Memᴰ.head e ↦ Memᴰ.head e
  | Memᴰ.tail a ↦ Memᴰ.tail (Memᴰ.tail a)
]

over {ℓ} :
    {A : Type ℓ} (x y : A) (ys zs : List A) → Within (x ∷ ys) zs → Within (x ∷ y ∷ ys) (y ∷ zs)
over x y ys zs h z (Memᴰ.head e) = Memᴰ.tail (h z (Memᴰ.head e))
over x y ys zs h z (Memᴰ.tail (Memᴰ.head e)) = Memᴰ.head e
over x y ys zs h z (Memᴰ.tail (Memᴰ.tail m)) = Memᴰ.tail (h z (Memᴰ.tail m))

module _ {ℓ} {S C : Type ℓ} (lower : S → S → Bool) (pivot : ℕ) where
  sink-Within :
      (x : Variable S C) (ys : List (Variable S C))
      → Within (sink lower pivot x ys) (x ∷ ys) × Within (x ∷ ys) (sink lower pivot x ys)
  unfolding sink
  sink-Within x [] = (λ z m. m, λ z m. m)
  sink-Within x (y ∷ ys) =
      let (to, back) = sink-Within x ys in
      elim (Bool-cases (less lower pivot (suc (length ys)) (length ys) x y)) [
        | inl e ↦
            rw e (under x y ys (sink lower pivot x ys) to, over x y ys (sink lower pivot x ys) back)
        | inr e ↦ rw e (λ z m. m, λ z m. m)
      ]

  sort_onto-back :
      (sorted xs : List (Variable S C)) (z : Variable S C)
      → Memᴰ z (sort_onto lower pivot sorted xs)
      → Memᴰ z xs ⊎ Memᴰ z sorted
  unfolding sort_onto
  sort_onto-back sorted [] z m = inr m
  sort_onto-back sorted (x ∷ xs) z m = elim (sort_onto-back (sink lower pivot x sorted) xs z m) [
    | inl a ↦ inl (Memᴰ.tail a)
    | inr a ↦ elim ((sink-Within x sorted).0 z a) [
      | Memᴰ.head e ↦ inl (Memᴰ.head e)
      | Memᴰ.tail b ↦ inr b
    ]
  ]

  sort_onto-forth :
      (sorted xs : List (Variable S C)) (z : Variable S C)
      → Memᴰ z xs ⊎ Memᴰ z sorted
      → Memᴰ z (sort_onto lower pivot sorted xs)
  unfolding sort_onto
  sort_onto-forth sorted [] z (inl m) = elim m [ ]
  sort_onto-forth sorted [] z (inr m) = m
  sort_onto-forth sorted (x ∷ xs) z (inl (Memᴰ.head e)) =
      sort_onto-forth (sink lower pivot x sorted) xs z
        (inr ((sink-Within x sorted).1 z (Memᴰ.head e)))
  sort_onto-forth sorted (x ∷ xs) z (inl (Memᴰ.tail m)) =
      sort_onto-forth (sink lower pivot x sorted) xs z (inl m)
  sort_onto-forth sorted (x ∷ xs) z (inr m) =
      sort_onto-forth (sink lower pivot x sorted) xs z
        (inr ((sink-Within x sorted).1 z (Memᴰ.tail m)))

  pub stable-Within :
      (us : List (Variable S C))
      → Within (stable lower pivot us) us × Within us (stable lower pivot us)
  unfolding stable
  stable-Within us = (
    λ z m. elim (rev_onto-back (sort_onto lower pivot [] us) [] z m) [
      | inl a ↦ elim (sort_onto-back [] us z a) [ inl b ↦ b | inr b ↦ elim b [ ] ]
      | inr a ↦ elim a [ ]
    ],
    λ z m. rev_onto-right (sort_onto lower pivot [] us) [] z (sort_onto-forth [] us z (inl m)),
  )
