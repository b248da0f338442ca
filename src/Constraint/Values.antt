-- ===== src/Constraint/Values.antt =====
-- The values of a constraint, as a set: what its Seek and its Next find of it, and that they leave it
-- as it is.
use forty_six.Base.{ℕ, zero, suc, ◌≡◌, ◌≢◌, ◌↔◌, sym, subst, true, List, [], ◌∷◌, ◌++◌, Bytes}
use forty_six.Util.Keys.{tab}
use forty_six.QuadStore.Sort.{bytes_le}
use forty_six.Badger.Cursor.{Cursor, Seeks}
use forty_six.Constraint.{Constraint, seek}
use forty_six.Constraint.Seek.{IsScan, seek-least}

-- `w` is the least id of the set `S` that is not below `v`, or the empty id where there is none.
abbrev pub Nearest : (Bytes → Type 0) → Bytes → Bytes → Type 0
Nearest S v w =
    (w ≢ [] → S w × (bytes_le v w ≡ true))
    × ((u : Bytes) → S u → bytes_le v u ≡ true → (w ≢ []) × (bytes_le w u ≡ true))

module _ (cur : Cursor) (laws : Seeks cur) where
  open laws use {Has, keep-seek}

  -- A value of a constraint is an id for which the iterator has a key.
  abbrev pub HasValue : Constraint cur → Bytes → Type 0
  HasValue c u = Has c.iterator (c.prefix ++ u)

  -- The prefix ends in a tab, and the keys with the prefix go on with one id.
  abbrev pub IsReady : Constraint cur → Type 0
  IsReady c = (pre : Bytes) × (c.prefix ≡ pre ++ tab ∷ []) × IsScan cur laws pre c.iterator

  abbrev pub Ranges : (Bytes → Type 0) → Constraint cur → Type 0
  Ranges S c = IsReady c × ((u : Bytes) → S u ↔ HasValue c u)

  pub seek-Ranges :
      (S : Bytes → Type 0) (v : Bytes) (c : Constraint cur) → Ranges S c → Ranges S (seek cur v c).1
  unfolding seek
  seek-Ranges S v c ((pre, e, scan), same) = (
    (pre, e, λ key has. scan key ((keep-seek _ key c.iterator).1 has)),
    λ u.
        let (to, back) = keep-seek (c.prefix ++ v) (c.prefix ++ u) c.iterator in
        (λ s. to ((same u).0 s), λ h. (same u).1 (back h)),
  )

  pub seek-Nearest :
      (S : Bytes → Type 0) (v : Bytes) (c : Constraint cur)
      → Ranges S c
      → Nearest S v (seek cur v c).0
  seek-Nearest S v c ((pre, e, scan), same) =
      let (finds, least) = seek-least cur laws pre v c e scan in
      let there = λ (u : Bytes). subst (λ p. Has c.iterator (p ++ u)) e in
      let back = λ (u : Bytes). subst (λ p. Has c.iterator (p ++ u)) (sym e) in
      (
        λ ne. let (has, le) = finds ne in ((same _).1 (back _ has), le),
        λ u s le. least u (there u ((same u).0 s)) le,
      )

  -- The constraints of a list, each with its set.
  abbrev pub AllRange : (ℕ → Bytes → Type 0) → List (Constraint cur) → Type 0
  AllRange S [] = Unit
  AllRange S (c ∷ cs) = Ranges (S 0) c × AllRange (λ k. S (suc k)) cs

  -- `u` is a value of the constraint at an index
  abbrev pub HasAt : List (Constraint cur) → ℕ → Bytes → Type 0
  HasAt [] k u = ⊥
  HasAt (c ∷ cs) zero u = HasValue c u
  HasAt (c ∷ cs) (suc k) u = HasAt cs k u
