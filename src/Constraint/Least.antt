-- ===== src/Constraint/Least.antt =====
-- Seek and Next of a constraintSet, on the values of its own constraints.
use mathlib.Core.List.{Memᴰ}
use forty_six.Base.{
  ℕ, zero, suc, ◌*◌, ◌<◌, ◌≡◌, ◌≢◌, refl, sym, ◌∙◌, inl, inr, false, Bool-cases, List, [], ◌∷◌,
  some, Bytes, bytes_eq, bytes_eq_iff, length, lt→ltb, All, arith,
}
use forty_six.QuadStore.Sort.{bytes_le, bytes_le_trans}
use forty_six.Badger.Cursor.{Cursor, Seeks}
use forty_six.Constraint.{Constraint, next}
use forty_six.Constraint.Set.{Constraints, seek_set, next_set}
use forty_six.Constraint.Values.{Nearest, HasValue, IsReady, AllRange, HasAt}
use forty_six.Constraint.Agreement.{Common}
use forty_six.Constraint.Next.{Successor, StandsAt, next-Ranges, next-Successor}
use forty_six.Constraint.Intersect.{Finds, set-Finds}

unequal : (w : Bytes) → w ≢ [] → bytes_eq w [] ≡ false
unfolding bytes_eq
unequal [] ne = absurd (ne refl)
unequal (x ∷ w) ne = refl

module _ (cur : Cursor) (laws : Seeks cur) where
  -- the constraints of a list, each with its own values
  own-AllRange :
      (cs : Constraints cur) → All (IsReady cur laws) cs → AllRange cur laws (HasAt cur laws cs) cs
  own-AllRange [] h = tt
  own-AllRange (c ∷ cs) (h, hs) = ((h, λ u. (λ s. s, λ s. s)), own-AllRange cs hs)

  -- a value that all constraints have
  abbrev pub HasAll : Constraints cur → Bytes → Type 0
  HasAll cs u = All (λ c. HasValue cur laws c u) cs

  All-Common :
      (cs : Constraints cur) (u : Bytes) → HasAll cs u → Common (HasAt cur laws cs) (length cs) u
  All-Common [] u h j lt = absurd (omega arith)
  All-Common (c ∷ cs) u (h, hs) zero lt = h
  All-Common (c ∷ cs) u (h, hs) (suc j) lt = All-Common cs u hs j (omega arith)

  Common-All :
      (cs : Constraints cur) (u : Bytes) → Common (HasAt cur laws cs) (length cs) u → HasAll cs u
  Common-All [] u h = tt
  Common-All (c ∷ cs) u h = (h 0 (omega arith), Common-All cs u (λ j lt. h (suc j) (omega arith)))

  -- The ids are all that any constraint has.
  abbrev pub Knows : List Bytes → Constraints cur → Type 0
  Knows ids cs = All (λ c. (u : Bytes) → HasValue cur laws c u → Memᴰ u ids) cs

  known :
      (ids : List Bytes) (cs : Constraints cur)
      → Knows ids cs
      → (j : ℕ) (u : Bytes) → HasAt cur laws cs j u
      → Memᴰ u ids
  known ids [] k j u h = elim h [ ]
  known ids (c ∷ cs) (k, ks) zero u h = k u h
  known ids (c ∷ cs) (k, ks) (suc j) u h = known ids cs ks j u h

  -- Seek of a set of constraints ends, with the least id not below the one given that all of them have
  -- as a value, or with the empty id where they have none. A fuel above the product of the number of
  -- constraints and one more than the number of their values is enough.
  pub seek_set-Nearest :
      (ids : List Bytes) (fuel : ℕ) (v : Bytes) (c : Constraint cur) (cs : Constraints cur)
      → All (IsReady cur laws) (c ∷ cs)
      → Knows ids (c ∷ cs)
      → suc (length ids) * length (c ∷ cs) < fuel
      → (w : Bytes) × (cs' : Constraints cur) × (seek_set cur fuel v (c ∷ cs) ≡ some (w, cs'))
        × Nearest (HasAll (c ∷ cs)) v w
  unfolding Finds
  seek_set-Nearest ids fuel v c cs ready k enough =
      let all = c ∷ cs in
      let (w, cs', e, _, _, (finds, least)) =
        set-Finds cur laws (HasAt cur laws all) ids (known ids all k) fuel v all (omega arith)
          (own-AllRange all ready) enough in
      (
        w,
        cs',
        e,
        (
          λ ne. let (common, le) = finds ne in (Common-All all w common, le),
          λ u h le. least u (All-Common all u h) le,
        ),
      )

  -- What Next of a set comes to, for the value that the first constraint stands at.
  abbrev Steps : ℕ → Bytes → Constraints cur → Type 0
  Steps fuel v cs =
      (w : Bytes) × (cs' : Constraints cur) × (next_set cur fuel cs ≡ some (w, cs'))
      × Successor (HasAll cs) v w

  -- The first constraint has no further value.
  next-over :
      (fuel : ℕ) (v : Bytes) (c : Constraint cur) (cs : Constraints cur)
      → Successor (HasValue cur laws c) v (next cur c).0
      → (next cur c).0 ≡ []
      → Steps fuel v (c ∷ cs)
  unfolding next_set bytes_eq
  next-over fuel v c cs (_, least) e = (
    (next cur c).0,
    (next cur c).1 ∷ cs,
    rw e refl,
    (λ ne. absurd (ne e), λ u (h, _) gt. absurd ((least u h gt).0 e)),
  )

  -- There is no other constraint.
  next-only :
      (fuel : ℕ) (v : Bytes) (c : Constraint cur)
      → Successor (HasValue cur laws c) v (next cur c).0
      → Steps fuel v (c ∷ [])
  unfolding next_set
  next-only fuel v c (finds, least) = (
    (next cur c).0,
    (next cur c).1 ∷ [],
    elim (Bool-cases (bytes_eq (next cur c).0 [])) [ inl e ↦ rw e refl | inr e ↦ rw e refl ],
    (λ ne. let (h, gt) = finds ne in ((h, tt), gt), λ u (h, _) gt. least u h gt),
  )

  next-sought :
      (ids : List Bytes) (fuel : ℕ) (v : Bytes) (c d : Constraint cur) (cs : Constraints cur)
      → All (IsReady cur laws) (c ∷ d ∷ cs)
      → Knows ids (c ∷ d ∷ cs)
      → suc (length ids) * length (c ∷ d ∷ cs) < fuel
      → Successor (HasValue cur laws c) v (next cur c).0
      → (next cur c).0 ≢ []
      → Steps fuel v (c ∷ d ∷ cs)
  unfolding Finds next_set
  next-sought ids fuel v c d cs (ready, readies) k enough (finds, least) ne =
      let all = c ∷ d ∷ cs in
      let moved = next-Ranges cur laws (HasValue cur laws c) c (ready, λ u. (λ s. s, λ s. s)) in
      let (w, cs', e, _, _, (finds', least')) =
        set-Finds cur laws (HasAt cur laws all) ids (known ids all k) fuel (next cur c).0
          ((next cur c).1 ∷ d ∷ cs) (omega arith) (moved, own-AllRange (d ∷ cs) readies) enough in
      let gt : bytes_le (next cur c).0 v ≡ false = (finds ne).1 in
      (
        w,
        cs',
        rw (unequal (next cur c).0 ne, lt→ltb 1 (length all) (omega arith)) e,
        (
          λ ne'.
              let (common, le) = finds' ne' in
              (Common-All all w common, ground (arith, bytes_le_trans (next cur c).0 w v)),
          λ u h gt. least' u (All-Common all u h) (least u h.0 gt).1,
        ),
      )

  -- Next of a set of constraints, the first of which stands at a value, ends with the least id above
  -- that value that all of them have as a value, or with the empty id where they have none. The fuel
  -- that is enough for Seek is enough.
  pub next_set-Successor :
      (ids : List Bytes) (fuel : ℕ) (v : Bytes) (c : Constraint cur) (cs : Constraints cur)
      → All (IsReady cur laws) (c ∷ cs)
      → Knows ids (c ∷ cs)
      → suc (length ids) * length (c ∷ cs) < fuel
      → StandsAt cur laws c v
      → (w : Bytes) × (cs' : Constraints cur) × (next_set cur fuel (c ∷ cs) ≡ some (w, cs'))
        × Successor (HasAll (c ∷ cs)) v w
  next_set-Successor ids fuel v c [] (ready, _) k enough at =
      next-only fuel v c (next-Successor cur laws v c ready at)
  next_set-Successor ids fuel v c (d ∷ cs) ready k enough at =
      let step = next-Successor cur laws v c ready.0 at in
      elim (Bool-cases (bytes_eq (next cur c).0 [])) [
        | inl e ↦ next-over fuel v c (d ∷ cs) step ((bytes_eq_iff (next cur c).0 []).0 e)
        | inr e ↦
            next-sought ids fuel v c d cs ready k enough step
              (λ e'. cc (sym e ∙ (bytes_eq_iff (next cur c).0 []).1 e'))
      ]
