-- ===== src/Assembly/Dependencies.antt =====
-- The dependency maps of newIterator. `edges i` are the variables that the constraints of variable i
-- are pushed to; behind the loop that deletes the edges that point backward, they are all behind i.
-- A set of indices is its test.
use mathlib.Core.List.{Memᴰ}
use forty_six.Base.{
  ℕ, zero, suc, ◌≤◌, ◌<◌, ◌≡◌, ◌↔◌, ◌⊎◌, inl, inr, sym, subst, ◌∙◌, Bool, true, false, ◌&&◌, ◌||◌,
  Bool-cases, List, [], ◌∷◌, ◌==◌, ==_iff, ltb, if◌then◌else◌, arith,
}

-- a []map[int]bool
abbrev pub Sets : Type 0
Sets = ℕ → ℕ → Bool

-- The body of the loop over the edges of `i`: j gets i, and all that i has.
unfoldable pub link : ℕ → ℕ → Sets → Sets
link i j ins m k = if m == j then k == i || ins i k || ins j k else ins m k

-- The loop over the edges of `i`.
unfoldable pub link_all : ℕ → List ℕ → Sets → Sets
link_all i [] ins = ins
link_all i (j ∷ js) ins = link_all i js (link i j ins)

-- The loop over the first `n` variables.
unfoldable pub dependencies : ℕ → (ℕ → List ℕ) → Sets
dependencies zero edges = λ m k. false
dependencies (suc n) edges = link_all n (edges n) (dependencies n edges)

-- The loop that inverts the map.
unfoldable pub dependents : ℕ → (ℕ → List ℕ) → Sets
dependents n edges k j = ltb j n && dependencies n edges j k

-- One or more edges lead from `k` to `j`, all of them from one of the first `n` variables.
pub data Leads (edges : ℕ → List ℕ) (n : ℕ) (k : ℕ) : ℕ → Type 0 where
  edge : {j : ℕ} → k < n → Memᴰ j (edges k) → Leads edges n k j
  via : {j : ℕ} (i : ℕ) → i < n → Leads edges n k i → Memᴰ j (edges i) → Leads edges n k j

-- All edges point forward.
abbrev pub IsForward : (ℕ → List ℕ) → Type 0
IsForward edges = (i j : ℕ) → Memᴰ j (edges i) → i < j

unfoldable pub elem : ℕ → List ℕ → Bool
elem j [] = false
elem j (x ∷ xs) = x == j || elem j xs

elem-Memᴰ : (j : ℕ) (xs : List ℕ) → elem j xs ≡ true → Memᴰ j xs
unfolding elem
elem-Memᴰ j [] h = absurd (cc h)
elem-Memᴰ j (x ∷ xs) h = elim (Bool-cases (x == j)) [
  | inl e ↦ Memᴰ.head (sym ((==_iff x j).0 e))
  | inr e ↦ Memᴰ.tail (elem-Memᴰ j xs (ground (arith, h, e)))
]

Memᴰ-elem : (j : ℕ) (xs : List ℕ) → Memᴰ j xs → elem j xs ≡ true
unfolding elem
Memᴰ-elem j [] m = elim m [ ]
Memᴰ-elem j (x ∷ xs) (Memᴰ.head e) = ground (arith, e)
Memᴰ-elem j (x ∷ xs) (Memᴰ.tail m) = ground (arith, Memᴰ-elem j xs m)

-- What the loop over the edges of `i` adds, where i is not one of them.
link_all-elem :
    (i : ℕ) (js : List ℕ) (ins : Sets) (m k : ℕ)
    → elem i js ≡ false
    → link_all i js ins m k ≡ (ins m k || elem m js && (k == i || ins i k))
unfolding link_all elem
link_all-elem i [] ins m k h = ground arith
link_all-elem i (j ∷ js) ins m k h =
    link_all-elem i js (link i j ins) m k (ground (arith, h)) ∙ unfold link in ground (arith, h)

weaken : (edges : ℕ → List ℕ) (n k j : ℕ) → Leads edges n k j → Leads edges (suc n) k j
weaken edges n k j (edge lt m) = edge (omega arith) m
weaken edges n k j (via i lt l m) = via i (omega arith) (weaken edges n k i l) m

-- The way to a variable comes only by those in front of it.
strengthen :
    (edges : ℕ → List ℕ) (n k j : ℕ)
    → IsForward edges
    → j ≤ n
    → Leads edges (suc n) k j
    → Leads edges n k j
strengthen edges n k j fwd le (edge lt m) = let f = fwd k j m in edge (omega arith) m
strengthen edges n k j fwd le (via i lt l m) =
    let f = fwd i j m in via i (omega arith) (strengthen edges n k i fwd (omega arith) l) m

no_loop : (edges : ℕ → List ℕ) (n : ℕ) → IsForward edges → elem n (edges n) ≡ false
no_loop edges n fwd = elim (Bool-cases (elem n (edges n))) [
  | inl e ↦ let f = fwd n n (elem-Memᴰ n (edges n) e) in absurd (omega arith)
  | inr e ↦ e
]

-- The last edge comes from the last variable, or all come from those in front of it.
last_step :
    (edges : ℕ → List ℕ) (n k j : ℕ)
    → IsForward edges
    → Leads edges (suc n) k j
    → Leads edges n k j ⊎ (Memᴰ j (edges n) × ((k ≡ n) ⊎ Leads edges n k n))
last_step edges n k j fwd (edge lt m) = elim (Bool-cases (k == n)) [
  | inl e ↦ let same = (==_iff k n).0 e in inr (subst (λ i. Memᴰ j (edges i)) same m, inl same)
  | inr e ↦ inl (edge (ground (arith, lt, e)) m)
]
last_step edges n k j fwd (via i lt l m) = elim (Bool-cases (i == n)) [
  | inl e ↦
      let same = (==_iff i n).0 e in
      inr (
        subst (λ v. Memᴰ j (edges v)) same m,
        inr (subst (Leads edges n k) same (strengthen edges n k i fwd (ground (arith, e)) l)),
      )
  | inr e ↦ inl (via i (ground (arith, lt, e)) (strengthen edges n k i fwd (omega (arith, lt)) l) m)
]

-- the dependencies of the first `n` variables, at each of the variables
dependencies-Leads :
    (n : ℕ) (edges : ℕ → List ℕ) (m k : ℕ)
    → IsForward edges
    → (dependencies n edges m k ≡ true) ↔ Leads edges n k m
unfolding dependencies
dependencies-Leads zero edges m k fwd = (λ h. absurd (cc h), λ l. nowhere l)
  where
    nowhere : {j : ℕ} → Leads edges 0 k j → dependencies 0 edges j k ≡ true
    nowhere (edge lt mem) = absurd (omega arith)
    nowhere (via i lt l mem) = absurd (omega arith)
dependencies-Leads (suc n) edges m k fwd =
    let ins = dependencies n edges in
    let (to, back) = dependencies-Leads n edges m k fwd in
    let (to', back') = dependencies-Leads n edges n k fwd in
    let added = link_all-elem n (edges n) ins m k (no_loop edges n fwd) in
    (
      λ h.
          let h' = sym added ∙ h in
          elim (Bool-cases (ins m k)) [
            | inl a ↦ weaken edges n k m (to a)
            | inr a ↦
                let mem = elem-Memᴰ m (edges n) (ground (arith, h', a)) in
                elim (Bool-cases (k == n)) [
                  | inl e ↦
                      edge (ground (arith, e))
                        (subst (λ i. Memᴰ m (edges i)) (sym ((==_iff k n).0 e)) mem)
                  | inr e ↦
                      via n (omega arith) (weaken edges n k n (to' (ground (arith, h', a, e)))) mem
                ]
          ],
      λ l. added ∙ elim (last_step edges n k m fwd l) [
        | inl r ↦ ground (arith, back r)
        | inr (mem, inl e) ↦ let f = Memᴰ-elem m (edges n) mem in ground (arith, f, e)
        | inr (mem, inr r) ↦ let f = Memᴰ-elem m (edges n) mem in ground (arith, f, back' r)
      ],
    )

-- Where all edges point forward, the dependencies of a variable are the variables from which edges
-- lead to it, over any number of others, and its dependents are the variables that it leads to.
pub dependents-Leads :
    (n : ℕ) (edges : ℕ → List ℕ) (k j : ℕ)
    → IsForward edges
    → j < n
    → ((dependencies n edges j k ≡ true) ↔ Leads edges n k j)
      × ((dependents n edges k j ≡ true) ↔ Leads edges n k j)
unfolding dependents
dependents-Leads n edges k j fwd lt =
    let (to, back) = dependencies-Leads n edges j k fwd in
    ((to, back), (λ h. to (ground (arith, h)), λ l. let h = back l in ground (arith, h, lt)))
