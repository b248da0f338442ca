-- ===== src/Constraint/Agreement.antt =====
-- What holds between two rounds of the search of constraintSet.Seek, and what a round does to it. The
-- sets of the constraints are `S 0`, `S 1` and so on.
use native.Mathlib.Nat.{mod-eq_of_lt, mod_self}
use forty_six.Base.{
  ℕ, suc, ◌+◌, ◌%◌, ◌≤◌, ◌<◌, ◌≡◌, ◌≢◌, ◌⊎◌, inl, inr, refl, true, [], Bytes, arith,
}
use forty_six.QuadStore.Sort.{bytes_le, bytes_le_refl, bytes_le_trans}
use forty_six.Constraint.Values.{Nearest}

-- the next index of the slice
pub wrap : (i l : ℕ) → i < l → ((suc i ≡ l) × (suc i % l ≡ 0)) ⊎ ((suc i < l) × (suc i % l ≡ suc i))
wrap i l h = elim (split i l h) [
  | inl e ↦ inl (e, rw e (mod_self l))
  | inr lt ↦ inr (lt, mod-eq_of_lt lt)
]
  where
    split : (i l : ℕ) → i < l → (suc i ≡ l) ⊎ (suc i < l)
    split i l h = ground arith

-- The index `j` is among the last `count` ones in front of `i`, round the slice.
abbrev pub Recent : ℕ → ℕ → ℕ → ℕ → Type 0
Recent i count l j = ((j < i) × (i ≤ j + count)) ⊎ ((i ≤ j) × (i + l ≤ j + count))

wrap-lt : (i l : ℕ) → i < l → suc i % l < l
wrap-lt i l h = ground (arith, wrap i l h)

-- One more index is among the last ones after the step: the one that the step leaves.
Recent-wrap :
    (i count l j : ℕ)
    → i < l
    → j < l
    → Recent (suc i % l) (suc count) l j
    → (j ≡ i) ⊎ Recent i count l j
Recent-wrap i count l j h lt = elim (wrap i l h) [
  | inl (e, e') ↦ rw e' (λ r. ground arith)
  | inr (e, e') ↦ rw e' (λ r. ground arith)
]

Recent-first : (i l j : ℕ) → i < l → j < l → Recent (suc i % l) 1 l j → j ≡ i
Recent-first i l j h lt r = ground (arith, Recent-wrap i 0 l j h lt r)

module _ (S : ℕ → Bytes → Type 0) (l : ℕ) where
  abbrev pub Common : Bytes → Type 0
  Common u = (j : ℕ) → j < l → S j u

  -- The last `count` constraints have the value `v`, and no value from `v0` on that all of them have
  -- is below `v`.
  pub record Agrees (v0 : Bytes) (i count : ℕ) (v : Bytes) : Type 0 where
    pub inside : i < l
    pub few : count ≤ l
    pub above : bytes_le v0 v ≡ true
    pub nonempty : 0 < count → v ≢ []
    pub recent : (j : ℕ) → j < l → Recent i count l j → S j v
    pub least : (u : Bytes) → Common u → bytes_le v0 u ≡ true → bytes_le v u ≡ true

  pub begin-Agrees : (v0 : Bytes) → 0 < l → Agrees v0 0 0 v0
  begin-Agrees v0 h = record {
    inside = h;
    few = omega arith;
    above = bytes_le_refl v0;
    nonempty = λ p. absurd (omega arith);
    recent = λ j lt p. absurd (nowhere j lt p);
    least = λ u c le. le;
  }
    where
      nowhere : (j : ℕ) → j < l → Recent 0 0 l j → ⊥
      nowhere j lt p = ground arith

  -- After a whole round the value is the least that all of them have.
  pub end-Nearest :
      (v0 : Bytes) (i count : ℕ) (v : Bytes) → Agrees v0 i count v → l ≤ count → Nearest Common v0 v
  end-Nearest v0 i count v a full = (
    λ ne. (λ j lt. a.recent j lt (everywhere j lt a.inside), a.above),
    λ u c le. (a.nonempty (some_round a.inside), a.least u c le),
  )
    where
      everywhere : (j : ℕ) → j < l → i < l → Recent i count l j
      everywhere j lt lt' = ground arith

      some_round : i < l → 0 < count
      some_round lt = omega arith

  module _ (v0 : Bytes) (i count : ℕ) (v w : Bytes) (a : Agrees v0 i count v) where
    -- A constraint has no value from `v` on, and so there is no common one.
    pub stop-Nearest : Nearest (S i) v w → w ≡ [] → Nearest Common v0 []
    stop-Nearest n e =
        (λ ne. absurd (ne refl), λ u c le. absurd ((n.1 u (c i a.inside) (a.least u c le)).0 e))

    -- The constraint has the value too.
    pub again-Agrees :
        Nearest (S i) v w → w ≢ [] → w ≡ v → count < l → Agrees v0 (suc i % l) (suc count) v
    again-Agrees n ne e lt = record {
      inside = wrap-lt i l a.inside;
      few = omega arith;
      above = a.above;
      nonempty = λ p. rw (← e) ne;
      recent = λ j lt' r. elim (Recent-wrap i count l j a.inside lt' r) [
        | inl same ↦ rw (same, ← e) (n.0 ne).0
        | inr r ↦ a.recent j lt' r
      ];
      least = a.least;
    }

    -- The constraint has a value above `v` only.
    pub forth-Agrees : Nearest (S i) v w → w ≢ [] → Agrees v0 (suc i % l) 1 w
    forth-Agrees n ne = record {
      inside = wrap-lt i l a.inside;
      few = omega (arith, a.inside);
      above = bytes_le_trans v0 v w a.above (n.0 ne).1;
      nonempty = λ p. ne;
      recent = λ j lt r. rw (Recent-first i l j a.inside lt r) (n.0 ne).0;
      least = λ u c le. (n.1 u (c i a.inside) (a.least u c le)).1;
    }
