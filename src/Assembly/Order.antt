-- ===== src/Assembly/Order.antt =====
-- The part of newIterator behind the scores: the order of the variables, with Less of iterator.go, the
-- new numbers of the variables, and the loop that deletes the edges that point backward. A score is a
-- float64, and a set of constraints goes along with its edge: both are parameters.
use forty_six.Base.{
  ℕ, suc, Bool, true, false, List, [], ◌∷◌, Option, none, some, Bytes, length, ltb, if◌then◌else◌,
}
use forty_six.Term.{Term, variable, blank_node}
use forty_six.Assembly.Numbering.{nth}
use forty_six.Iterator.{update}
use forty_six.Dict.{Dict, lookup, insert}

-- What newIterator reads of a variable: its edges are its constraintMap.
pub record Variable {ℓ} (S C : Type ℓ) : Type ℓ where
  pub node : Term
  pub score : S
  pub edges : List (ℕ × C)

-- Less where the terms are not both variables or both blank nodes; none is a comparison of scores.
unfoldable pub by_kind : Term → Term → Option Bool
by_kind (variable v) (blank_node w) = some true
by_kind (blank_node v) (variable w) = some false
by_kind s t = none

abbrev pub or_lower : Option Bool → Bool → Bool
or_lower none b = b
or_lower (some a) b = a

abbrev pub rev_onto {ℓ} : {A : Type ℓ} → List A → List A → List A
rev_onto [] ys = ys
rev_onto (x ∷ xs) ys = rev_onto xs (x ∷ ys)

module _ {ℓ} {S C : Type ℓ} (lower : S → S → Bool) (pivot : ℕ) where
  -- Less behind the pivot
  unfoldable pub precedes : Variable S C → Variable S C → Bool
  precedes x y = or_lower (by_kind x.node y.node) (lower x.score y.score)

  -- Less, on two indices and the variables that are there.
  unfoldable pub less : ℕ → ℕ → Variable S C → Variable S C → Bool
  less a b x y = if ltb a pivot then ltb a b else if ltb b pivot then false else precedes x y

  -- sort.Stable, as its insertion sort does it: the loop that swaps a variable with those in front of it as long as it is less. The
  -- variables in front of it come last first, so that the number of the others is the first one's index.
  unfoldable pub sink : Variable S C → List (Variable S C) → List (Variable S C)
  sink x [] = x ∷ []
  sink x (y ∷ ys) =
      let rest = sink x ys in
      if less (suc (length ys)) (length ys) x y then y ∷ rest else x ∷ y ∷ ys

  unfoldable pub sort_onto : List (Variable S C) → List (Variable S C) → List (Variable S C)
  sort_onto sorted [] = sorted
  sort_onto sorted (x ∷ xs) = sort_onto (sink x sorted) xs

  unfoldable pub stable : List (Variable S C) → List (Variable S C)
  stable xs = rev_onto (sort_onto [] xs) []

module _ {ℓ} {S C : Type ℓ} (text : Term → Bytes) where
  -- `iter.ids[value]`, which is zero where there is none
  abbrev pub known_id : Dict ℕ → Variable S C → ℕ
  known_id ids u = elim (lookup (text u.node) ids) [ none ↦ 0 | some j ↦ j ]

  -- The loop that fills the slice `transformation`, from the index `i` on.
  unfoldable pub renumber : Dict ℕ → ℕ → List (Variable S C) → (ℕ → ℕ) → ℕ → ℕ
  renumber ids i [] new = new
  renumber ids i (u ∷ us) new = renumber ids (suc i) us (update (known_id ids u) i new)

  unfoldable pub transformation : Dict ℕ → List (Variable S C) → ℕ → ℕ
  transformation ids sorted = renumber ids 0 sorted (λ j. 0)

  -- The same loop fills the new map of ids.
  unfoldable pub sorted_ids : ℕ → List (Variable S C) → Dict ℕ → Dict ℕ
  sorted_ids i [] ids = ids
  sorted_ids i (u ∷ us) ids = sorted_ids (suc i) us (insert (text u.node) i ids)

-- The keys of an edge map, relabelled.
abbrev pub relabel {ℓ} : {C : Type ℓ} → (ℕ → ℕ) → List (ℕ × C) → List (ℕ × C)
relabel new [] = []
relabel new ((j, cs) ∷ es) = (new j, cs) ∷ relabel new es

-- The edges of the variable `i` without those that point backward.
unfoldable pub drop_backward {ℓ} : {C : Type ℓ} → ℕ → List (ℕ × C) → List (ℕ × C)
drop_backward i [] = []
drop_backward i ((j, cs) ∷ es) =
    let rest = drop_backward i es in if ltb j i then rest else (j, cs) ∷ rest

abbrev pub targets {ℓ} : {C : Type ℓ} → List (ℕ × C) → List ℕ
targets [] = []
targets ((j, cs) ∷ es) = j ∷ targets es

-- The edges of the variable at an index, behind both loops.
unfoldable pub edges_of {ℓ} : {S C : Type ℓ} → (ℕ → ℕ) → ℕ → Option (Variable S C) → List (ℕ × C)
edges_of new i none = []
edges_of new i (some u) = drop_backward i (relabel new u.edges)

abbrev pub edges_at {ℓ} : {S C : Type ℓ} → (ℕ → ℕ) → List (Variable S C) → ℕ → List (ℕ × C)
edges_at new us i = edges_of new i (nth i us)
