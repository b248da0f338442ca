-- ===== src/Assembly/Arrangement.antt =====
-- The order that Less of iterator.go and sort.Stable bring the variables of a query into.
use forty_six.Base.{
  ℕ, suc, ◌≤◌, ◌<◌, ◌≡◌, refl, Bool, true, false, Bool-cases, inl, inr, Bytes, List, [], ◌∷◌,
  length, arith, All,
}
use forty_six.Term.{Term, blank_node, variable}
use forty_six.Assembly.Numbering.{nth}
use forty_six.Assembly.Order.{
  Variable, by_kind, or_lower, precedes, less, sink, sort_onto, stable, rev_onto,
}
use forty_six.Assembly.Pivot.{less-true, nth-stable}

-- `<` on scores, none of which is NaN.
pub record IsWeakOrder {ℓ} {S : Type ℓ} (lower : S → S → Bool) : Type ℓ where
  pub asym : (a b : S) → lower a b ≡ true → lower b a ≡ false
  pub not_trans : (a b c : S) → lower a b ≡ false → lower b c ≡ false → lower a c ≡ false

-- The terms that parseNode makes variables of.
pub data IsBlank : Term → Type 0 where
  of_variable : (v : Bytes) → IsBlank (variable v)
  of_blank : (v : Bytes) → IsBlank (blank_node v)

module _ {ℓ} {S : Type ℓ} (lower : S → S → Bool) (order : IsWeakOrder lower) where
  by_kind-asym :
      {s t : Term} (a b : S)
      → IsBlank s
      → IsBlank t
      → or_lower (by_kind s t) (lower a b) ≡ true
      → or_lower (by_kind t s) (lower b a) ≡ false
  unfolding by_kind
  by_kind-asym a b (of_variable s) (of_variable t) h = order.asym a b h
  by_kind-asym a b (of_variable s) (of_blank t) h = refl
  by_kind-asym a b (of_blank s) (of_variable t) h = absurd (cc h)
  by_kind-asym a b (of_blank s) (of_blank t) h = order.asym a b h

  by_kind_trans :
      {s t u : Term} (a b c : S)
      → IsBlank s
      → IsBlank t
      → IsBlank u
      → or_lower (by_kind s t) (lower a b) ≡ false
      → or_lower (by_kind t u) (lower b c) ≡ false
      → or_lower (by_kind s u) (lower a c) ≡ false
  unfolding by_kind
  by_kind_trans a b c (of_variable s) (of_variable t) (of_variable u) h g =
      order.not_trans a b c h g
  by_kind_trans a b c (of_variable s) (of_variable t) (of_blank u) h g = absurd (cc g)
  by_kind_trans a b c (of_variable s) (of_blank t) r h g = absurd (cc h)
  by_kind_trans a b c (of_blank s) q (of_variable u) h g = refl
  by_kind_trans a b c (of_blank s) (of_variable t) (of_blank u) h g = absurd (cc g)
  by_kind_trans a b c (of_blank s) (of_blank t) (of_blank u) h g = order.not_trans a b c h g

module _ {ℓ} {S C : Type ℓ} (lower : S → S → Bool) (order : IsWeakOrder lower) (pivot : ℕ) where
  -- Of a list that stands last first, behind the first `pivot`, none comes behind `x`.
  Above : Variable S C → List (Variable S C) → Type 0
  Above x [] = Unit
  Above x (z ∷ zs) =
      IsBlank z.node × (pivot ≤ length zs → precedes lower pivot x z ≡ false) × Above x zs

  Ordered : List (Variable S C) → Type 0
  Ordered [] = Unit
  Ordered (y ∷ ys) = IsBlank y.node × Above y ys × Ordered ys

  less-false :
      (n : ℕ) (x y : Variable S C)
      → less lower pivot (suc n) n x y ≡ false
      → pivot ≤ n
      → precedes lower pivot x y ≡ false
  unfolding less
  less-false n x y h le = ground (arith, h, le)

  Above-trans :
      (x y : Variable S C) (ys : List (Variable S C))
      → IsBlank x.node
      → IsBlank y.node
      → (pivot ≤ length ys → precedes lower pivot x y ≡ false)
      → Above y ys
      → Above x ys
  unfolding Above precedes
  Above-trans x y [] p q h a = tt
  Above-trans x y (z ∷ zs) p q h (r, f, a) = (
    r,
    λ le. by_kind_trans lower order x.score y.score z.score p q r (h (omega (arith, le))) (f le),
    Above-trans x y zs p q (λ le. h (omega (arith, le))) a,
  )

  Above-sink :
      (y x : Variable S C) (ys : List (Variable S C))
      → IsBlank x.node
      → precedes lower pivot y x ≡ false
      → Above y ys
      → Above y (sink lower pivot x ys)
  unfolding Above sink
  Above-sink y x [] p h a = (p, λ _. h, tt)
  Above-sink y x (z ∷ zs) p h (r, f, a) =
      elim (Bool-cases (less lower pivot (suc (length zs)) (length zs) x z)) [
        | inl e ↦
            rw e (r, λ le. f (less-true lower pivot (length zs) x z e).0, Above-sink y x zs p h a)
        | inr e ↦ rw e (p, (λ _. h), (r, f, a))
      ]

  sink-Ordered :
      (x : Variable S C) (ys : List (Variable S C))
      → IsBlank x.node
      → Ordered ys
      → Ordered (sink lower pivot x ys)
  unfolding Ordered sink Above
  sink-Ordered x [] p o = (p, tt, tt)
  sink-Ordered x (y ∷ ys) p (q, a, o) =
      elim (Bool-cases (less lower pivot (suc (length ys)) (length ys) x y)) [
        | inl e ↦
            let h =
              by_kind-asym lower order x.score y.score p q
                (unfold precedes in (less-true lower pivot (length ys) x y e).1) in
            rw e (q, Above-sink y x ys p (unfold precedes in h) a, sink-Ordered x ys p o)
        | inr e ↦
            let f = less-false (length ys) x y e in
            rw e (p, (q, f, Above-trans x y ys p q f a), (q, a, o))
      ]

  sort_onto-Ordered :
      (sorted xs : List (Variable S C))
      → Ordered sorted
      → All (λ x. IsBlank x.node) xs
      → Ordered (sort_onto lower pivot sorted xs)
  unfolding sort_onto
  sort_onto-Ordered sorted [] o h = o
  sort_onto-Ordered sorted (x ∷ xs) o (p, h) =
      sort_onto-Ordered (sink lower pivot x sorted) xs (sink-Ordered x sorted p o) h

  -- From the index `n` on, and from the pivot on, no variable is less than one in front of it.
  pub InOrder : ℕ → List (Variable S C) → Type 0
  InOrder n [] = Unit
  InOrder n (w ∷ ws) =
      (pivot ≤ n → All (λ z. precedes lower pivot z w ≡ false) ws) × InOrder (suc n) ws

  Covers : List (Variable S C) → List (Variable S C) → Type 0
  Covers [] acc = Unit
  Covers (z ∷ zs) acc =
      (pivot ≤ length zs → All (λ w. precedes lower pivot w z ≡ false) acc) × Covers zs acc

  Covers-nil : (zs : List (Variable S C)) → Covers zs []
  unfolding Covers
  Covers-nil [] = tt
  Covers-nil (z ∷ zs) = (λ _. tt, Covers-nil zs)

  Covers-cons :
      (y : Variable S C) (zs acc : List (Variable S C))
      → Above y zs
      → Covers zs acc
      → Covers zs (y ∷ acc)
  unfolding Covers Above
  Covers-cons y [] acc a c = tt
  Covers-cons y (z ∷ zs) acc (r, f, a) (g, c) = (λ le. (f le, g le), Covers-cons y zs acc a c)

  rev_onto-InOrder :
      (ys acc : List (Variable S C))
      → Ordered ys
      → Covers ys acc
      → InOrder (length ys) acc
      → InOrder 0 (rev_onto ys acc)
  unfolding Ordered Covers InOrder
  rev_onto-InOrder [] acc o c h = h
  rev_onto-InOrder (y ∷ ys) acc (p, a, o) (g, c) h =
      rev_onto-InOrder ys (y ∷ acc) o (Covers-cons y ys acc a c) (g, h)

  stable-InOrder :
      (us : List (Variable S C)) → All (λ u. IsBlank u.node) us → InOrder 0 (stable lower pivot us)
  unfolding stable
  stable-InOrder us h =
      let sorted = sort_onto lower pivot [] us in
      rev_onto-InOrder sorted [] (sort_onto-Ordered [] us (unfold Ordered in tt) h)
        (Covers-nil sorted) (unfold InOrder in tt)

  -- The sort leaves the variables in front of the pivot where they are. Behind it, no variable is less
  -- than one in front of it: variables come in front of blank nodes, and those of a kind by their
  -- scores. All terms of the domain are variables and blank nodes, and no score is NaN.
  pub stable-Arranged :
      (us : List (Variable S C))
      → All (λ u. IsBlank u.node) us
      → InOrder 0 (stable lower pivot us)
        × ((i : ℕ) → i < pivot → nth i (stable lower pivot us) ≡ nth i us)
  stable-Arranged us h = (stable-InOrder us h, λ i lt. nth-stable lower pivot us i lt)
