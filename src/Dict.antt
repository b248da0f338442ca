-- ===== src/Dict.antt =====
-- Go's maps with string keys, as association lists. Go ranges over a map in no set order: a loop over
-- a map is modelled by a loop over the list, whatever the order of its entries.
use forty_six.Base.{
  ◌≡◌, refl, Option, none, some, List, [], ◌∷◌, arith, Bytes, bytes_eq, bytes_eq_iff, Bool-cases,
  inl, inr, subst, if◌then◌else◌,
}

abbrev pub Dict {ℓ} : Type ℓ → Type ℓ
Dict V = List (Bytes × V)

module _ {ℓ} {V : Type ℓ} where
  -- m[k], and whether there is such an entry
  unfoldable pub lookup : Bytes → Dict V → Option V
  lookup k [] = none
  lookup k ((j, v) ∷ m) = if bytes_eq j k then some v else lookup k m

  -- m[k] = v
  unfoldable pub insert : Bytes → V → Dict V → Dict V
  insert k v [] = (k, v) ∷ []
  insert k v ((j, w) ∷ m) = if bytes_eq j k then (k, v) ∷ m else (j, w) ∷ insert k v m

  -- delete(m, k)
  unfoldable pub remove : Bytes → Dict V → Dict V
  remove k [] = []
  remove k ((j, v) ∷ m) = let rest = remove k m in if bytes_eq j k then rest else (j, v) ∷ rest

  pub lookup-remove :
      (k j : Bytes) (m : Dict V)
      → lookup j (remove k m) ≡ (if bytes_eq k j then none else lookup j m)
  unfolding lookup remove
  lookup-remove k j [] = ground arith
  lookup-remove k j ((i, w) ∷ m) =
      ground (arith, bytes_eq_iff k j, bytes_eq_iff i k, bytes_eq_iff i j, lookup-remove k j m)

  pub lookup-insert :
      (k j : Bytes) (v : V) (m : Dict V)
      → lookup j (insert k v m) ≡ (if bytes_eq k j then some v else lookup j m)
  unfolding lookup insert
  lookup-insert k j v [] = refl
  lookup-insert k j v ((i, w) ∷ m) =
      ground (arith, bytes_eq_iff k j, bytes_eq_iff i k, bytes_eq_iff i j, lookup-insert k j v m)

-- No key has two entries.
abbrev pub Distinct {ℓ} : {V : Type ℓ} → Dict V → Type ℓ
Distinct [] = Unit
Distinct ((k, v) ∷ m) = (lookup k m ≡ none) × Distinct m

pub insert-Distinct {ℓ} :
    {V : Type ℓ} (k : Bytes) (v : V) (m : Dict V) → Distinct m → Distinct (insert k v m)
unfolding insert
insert-Distinct k v [] h = (unfold lookup in refl, tt)
insert-Distinct k v ((j, w) ∷ m) (hj, h) = elim (Bool-cases (bytes_eq j k)) [
  | inl e ↦ rw e (subst (λ x. lookup x m ≡ none) ((bytes_eq_iff j k).0 e) hj, h)
  | inr e ↦ rw e (
    ground (arith, lookup-insert k j v m, bytes_eq_iff k j, bytes_eq_iff j k),
    insert-Distinct k v m h,
  )
]
