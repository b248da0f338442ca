-- ===== src/Assembly/Edges.antt =====
-- The edges between the variables of a query, behind the sort of newIterator.
use mathlib.Core.List.{Memᴰ}
use mathlib.Core.Option.{some-injective}
use forty_six.Base.{
  Bytes, ℕ, ◌<◌, ◌≤◌, ◌≡◌, ◌≢◌, inl, inr, refl, sym, ap, subst, ◌∙◌, Bool, false, Bool-cases, List,
  [], ◌∷◌, Option, none, some, ltb, ◌==◌, ==_iff, if◌then◌else◌, arith,
}
use forty_six.Term.{Term}
use forty_six.Dict.{Dict, lookup}
use forty_six.Assembly.Numbering.{nth}
use forty_six.Assembly.Dependencies.{IsForward}
use forty_six.Assembly.Order.{
  Variable, stable, transformation, sorted_ids, relabel, drop_backward, targets, edges_of, edges_at,
}
use forty_six.Assembly.Stable.{Within, nth-Memᴰ, Memᴰ-nth, stable-Within}
use forty_six.Assembly.Relabel.{Numbers, known_id-numbered, transformation-finds, lookup-sorted_ids}

-- Every edge leads to another variable.
abbrev pub Linked {ℓ} : {S C : Type ℓ} → List (Variable S C) → Type ℓ
Linked {S} {C} us =
    (i : ℕ) (u : Variable S C)
    → nth i us ≡ some u
    → (j : ℕ) → Memᴰ j (targets u.edges)
    → i ≢ j × ((v : Variable S C) × (nth j us ≡ some v))

drop_backward-Memᴰ {ℓ} :
    {C : Type ℓ} (i j : ℕ) (es : List (ℕ × C))
    → Memᴰ j (targets (drop_backward i es))
    → Memᴰ j (targets es) × (ltb j i ≡ false)
unfolding drop_backward
drop_backward-Memᴰ i j [] m = elim m [ ]
drop_backward-Memᴰ i j ((k, cs) ∷ es) m = elim (Bool-cases (ltb k i)) [
  | inl e ↦
      let (there, le) = drop_backward-Memᴰ i j es (
        subst
          (λ b. Memᴰ j (targets (if b then drop_backward i es else (k, cs) ∷ drop_backward i es))) e
          m) in
      (Memᴰ.tail there, le)
  | inr e ↦
      kept e
        (subst
          (λ b. Memᴰ j (targets (if b then drop_backward i es else (k, cs) ∷ drop_backward i es))) e
          m)
        (drop_backward-Memᴰ i j es)
]
  where
    kept :
        ltb k i ≡ false
        → Memᴰ j (k ∷ targets (drop_backward i es))
        → (Memᴰ j (targets (drop_backward i es)) → Memᴰ j (targets es) × (ltb j i ≡ false))
        → Memᴰ j (k ∷ targets es) × (ltb j i ≡ false)
    kept e (Memᴰ.head is) f = (Memᴰ.head is, rw is e)
    kept e (Memᴰ.tail m) f = let (there, le) = f m in (Memᴰ.tail there, le)

relabel-Memᴰ {ℓ} :
    {C : Type ℓ} (new : ℕ → ℕ) (k : ℕ) (es : List (ℕ × C))
    → Memᴰ k (targets (relabel new es))
    → (j : ℕ) × Memᴰ j (targets es) × (k ≡ new j)
relabel-Memᴰ new k [] m = elim m [ ]
relabel-Memᴰ new k ((j, cs) ∷ es) (Memᴰ.head e) = (j, Memᴰ.head refl, e)
relabel-Memᴰ new k ((j, cs) ∷ es) (Memᴰ.tail m) =
    let (i, there, e) = relabel-Memᴰ new k es m in (i, Memᴰ.tail there, e)

relabelled {ℓ} :
    {C : Type ℓ} (new : ℕ → ℕ) (j : ℕ) (es : List (ℕ × C))
    → Memᴰ j (targets es)
    → Memᴰ (new j) (targets (relabel new es))
relabelled new j [] m = elim m [ ]
relabelled new j ((k, cs) ∷ es) (Memᴰ.head e) = Memᴰ.head (ap new e)
relabelled new j ((k, cs) ∷ es) (Memᴰ.tail m) = Memᴰ.tail (relabelled new j es m)

kept {ℓ} :
    {C : Type ℓ} (i j : ℕ) (es : List (ℕ × C))
    → Memᴰ j (targets es)
    → i ≤ j
    → Memᴰ j (targets (drop_backward i es))
unfolding drop_backward
kept i j [] m le = elim m [ ]
kept i j ((k, cs) ∷ es) (Memᴰ.head e) le =
    let no_less : ltb k i ≡ false = ground (arith, e, le) in rw no_less (Memᴰ.head e)
kept i j ((k, cs) ∷ es) (Memᴰ.tail m) le = elim (Bool-cases (ltb k i)) [
  | inl e ↦ rw e (kept i j es m le)
  | inr e ↦ rw e (Memᴰ.tail (kept i j es m le))
]

module _ {ℓ} {S C : Type ℓ} (lower : S → S → Bool) (text : Term → Bytes) (ids : Dict ℕ) where
  transformation-stable :
      (pivot : ℕ) (us : List (Variable S C)) (j : ℕ) (v : Variable S C)
      → Numbers text ids us
      → nth j us ≡ some v
      → nth (transformation text ids (stable lower pivot us) j) (stable lower pivot us) ≡ some v
  transformation-stable pivot us j v h at =
      let (to, back) = stable-Within lower pivot us in
      transformation-finds text ids (stable lower pivot us) us j v h to back at

  edge-IsForward :
      (us sorted : List (Variable S C)) (new : ℕ → ℕ) (i k : ℕ) (u : Variable S C)
      → Numbers text ids us
      → Linked us
      → ((j : ℕ) (v : Variable S C) → nth j us ≡ some v → nth (new j) sorted ≡ some v)
      → Within sorted us
      → nth i sorted ≡ some u
      → Memᴰ k (targets (drop_backward i (relabel new u.edges)))
      → i < k
  edge-IsForward us sorted new i k u h links finds to at m =
      let (m1, le) = drop_backward-Memᴰ i k (relabel new u.edges) m in
      let (j, m2, is) = relabel-Memᴰ new k u.edges m1 in
      let (i0, old) = Memᴰ-nth us u (to u (nth-Memᴰ i sorted u at)) in
      let (ne, (v, there)) = links i0 u old j m2 in
      elim (Bool-cases (i == k)) [
        | inl e ↦
            let i=k = (==_iff i k).0 e in
            let u=v =
              some-injective u v (sym at ∙ ap (λ n. nth n sorted) (i=k ∙ is) ∙ finds j v there) in
            let at_j = known_id-numbered text ids us j u h (there ∙ ap some (sym u=v)) in
            absurd (ne (sym (known_id-numbered text ids us i0 u h old) ∙ at_j))
        | inr e ↦ ground (arith, le, e)
      ]

  edges_of-IsForward :
      (us sorted : List (Variable S C)) (new : ℕ → ℕ) (i k : ℕ) (o : Option (Variable S C))
      → Numbers text ids us
      → Linked us
      → ((j : ℕ) (v : Variable S C) → nth j us ≡ some v → nth (new j) sorted ≡ some v)
      → Within sorted us
      → nth i sorted ≡ o
      → Memᴰ k (targets (edges_of new i o))
      → i < k
  unfolding edges_of
  edges_of-IsForward us sorted new i k none h links finds to at m = elim m [ ]
  edges_of-IsForward us sorted new i k (some u) h links finds to at m =
      edge-IsForward us sorted new i k u h links finds to at m

  -- Where the map of ids numbers the variables, and every edge leads to another variable, the edges
  -- that are left behind the sort, with their new numbers, all point forward.
  pub edges_at-IsForward :
      (pivot : ℕ) (us : List (Variable S C))
      → Numbers text ids us
      → Linked us
      → let sorted = stable lower pivot us in
        IsForward (λ i. targets (edges_at (transformation text ids sorted) sorted i))
  edges_at-IsForward pivot us h links i k m =
      let sorted = stable lower pivot us in
      edges_of-IsForward us sorted (transformation text ids sorted) i k (nth i sorted) h links
        (λ j v at. transformation-stable pivot us j v h at) ((stable-Within lower pivot us).0) refl
        m

  -- Where the map of ids numbers the variables, both ends of an edge are found behind the sort at
  -- their new numbers, which the new map of ids gives, and the edge is left there, with its new
  -- number, if it does not point backward.
  pub edges_at-Leads :
      (pivot : ℕ) (us : List (Variable S C)) (i j : ℕ) (u v : Variable S C)
      → Numbers text ids us
      → nth i us ≡ some u
      → nth j us ≡ some v
      → Memᴰ j (targets u.edges)
      → let sorted = stable lower pivot us in
        let new = transformation text ids sorted in
        (nth (new i) sorted ≡ some u)
        × (lookup (text u.node) (sorted_ids text 0 sorted []) ≡ some (new i))
        × (nth (new j) sorted ≡ some v)
        × (new i ≤ new j → Memᴰ (new j) (targets (edges_at new sorted (new i))))
  unfolding edges_of
  edges_at-Leads pivot us i j u v h at_i at_j m =
      let there = transformation-stable pivot us i u h at_i in
      let sorted = stable lower pivot us in
      let new = transformation text ids sorted in
      (
        there,
        lookup-sorted_ids text ids sorted us i u h ((stable-Within lower pivot us).0)
            ((stable-Within lower pivot us).1) at_i,
        transformation-stable pivot us j v h at_j,
        λ le. rw there (kept (new i) (new j) (relabel new u.edges) (relabelled new j u.edges m) le),
      )
