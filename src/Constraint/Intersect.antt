-- ===== src/Constraint/Intersect.antt =====
-- constraintSet.Seek finds the least value that all constraints have, and ends.
use native.Mathlib.Nat.{mul-le-mul_right, suc-mul}
use mathlib.Core.List.{Memᴰ}
use forty_six.Base.{
  ℕ, zero, suc, ◌+◌, ◌*◌, ◌-◌, ◌%◌, ◌≤◌, ◌<◌, ◌≡◌, ◌≢◌, refl, sym, ap, ◌∙◌, inl, inr, true, false,
  Bool-cases, List, [], ◌∷◌, Option, some, Bytes, bytes_eq, bytes_eq_iff, length, ltb,
  if◌then◌else◌, arith, subst,
}
use forty_six.QuadStore.Sort.{bytes_le, bytes_le_refl, bytes_le_trans, bytes_le_antisym}
use forty_six.Badger.Cursor.{Cursor, Seeks}
use forty_six.Constraint.Set.{
  Constraints, put_back, seek_at, Round, seek_round, seek_case, seek_loop, seek_set,
}
use forty_six.Constraint.Values.{Nearest, AllRange, seek-Ranges, seek-Nearest}
use forty_six.Constraint.Agreement.{
  Agrees, Common, begin-Agrees, end-Nearest, stop-Nearest, again-Agrees, forth-Agrees,
}

-- how many of the ids are above `v`
abbrev above : Bytes → List Bytes → ℕ
above v [] = 0
above v (x ∷ xs) = if bytes_le x v then above v xs else suc (above v xs)

above-le : (v w : Bytes) (xs : List Bytes) → bytes_le v w ≡ true → above w xs ≤ above v xs
above-le v w [] le = omega arith
above-le v w (x ∷ xs) le = ground (arith, above-le v w xs le, bytes_le_trans x v w)

above-lt :
    (v w : Bytes) (xs : List Bytes)
    → bytes_le v w ≡ true
    → bytes_le w v ≡ false
    → bytes_le w w ≡ true
    → Memᴰ w xs
    → above w xs < above v xs
above-lt v w [] le gt self m = elim m [ ]
above-lt v w (x ∷ xs) le gt self (Memᴰ.head e) =
    let less = above-le v w xs le in rw (← e, gt, self) (omega (arith, less))
above-lt v w (x ∷ xs) le gt self (Memᴰ.tail m) =
    ground (arith, above-lt v w xs le gt self m, bytes_le_trans x v w)

above-le-length : (v : Bytes) (xs : List Bytes) → above v xs ≤ length xs
above-le-length v [] = omega arith
above-le-length v (x ∷ xs) = ground (arith, above-le-length v xs)

fewer :
    (a b l count fuel : ℕ)
    → a < b
    → count < l
    → b * l + (l - count) < suc fuel
    → a * l + (l - 1) < fuel
fewer a b l count fuel h lt m =
    let step : suc a * l ≤ b * l = mul-le-mul_right l h in omega (arith, step, suc-mul a l)

module _ (cur : Cursor) (laws : Seeks cur) where
  -- One round's Seek, of the constraint at an index of the slice.
  Sought : (ℕ → Bytes → Type 0) → ℕ → Bytes → Constraints cur → Type 0
  Sought S i v cs =
      (w : Bytes) × (cs' : Constraints cur) × (seek_at cur i v cs ≡ some (w, cs'))
      × AllRange cur laws S cs'
      × (length cs' ≡ length cs)
      × Nearest (S i) v w

  seek_at-Sought :
      (S : ℕ → Bytes → Type 0) (i : ℕ) (v : Bytes) (cs : Constraints cur)
      → AllRange cur laws S cs
      → i < length cs
      → Sought S i v cs
  unfolding Sought seek_at
  seek_at-Sought S i v [] r h = absurd (omega arith)
  seek_at-Sought S zero v (c ∷ cs) (r, rs) h =
      (_, _, refl, (seek-Ranges cur laws (S 0) v c r, rs), refl, seek-Nearest cur laws (S 0) v c r)
  seek_at-Sought S (suc i) v (c ∷ cs) (r, rs) h =
      let (w, cs', e, rs', same, n) = seek_at-Sought (λ k. S (suc k)) i v cs rs (omega arith) in
      (w, c ∷ cs', ap (put_back cur c) e, (r, rs'), ap suc same, n)

  -- What follows a round.
  abbrev run : ℕ → Round cur → Option (Bytes × Constraints cur)
  run fuel (Round.stop r) = r
  run fuel (Round.go i count v cs) = seek_loop cur fuel i count v cs

  round-over :
      (i count : ℕ) (v : Bytes) (cs : Constraints cur)
      → ltb count (length cs) ≡ false
      → seek_round cur i count v cs ≡ Round.stop (some (v, cs))
  unfolding seek_round
  round-over i count v cs e = rw e refl

  round-case :
      (i count : ℕ) (v w : Bytes) (cs cs' : Constraints cur)
      → ltb count (length cs) ≡ true
      → seek_at cur i v cs ≡ some (w, cs')
      → seek_round cur i count v cs ≡ seek_case cur i count v (some (w, cs'))
  unfolding seek_round
  round-case i count v w cs cs' e e' = rw (e, e') refl

  -- What the loop comes to, on `l` constraints.
  unfoldable pub Finds :
      (ℕ → Bytes → Type 0) → ℕ → Bytes → Option (Bytes × Constraints cur) → Type 0
  Finds S l v0 found =
      (r : Bytes) × (cs : Constraints cur) × (found ≡ some (r, cs))
      × AllRange cur laws S cs
      × (length cs ≡ l)
      × Nearest (Common S l) v0 r

  module _ (S : ℕ → Bytes → Type 0) (ids : List Bytes)
      (known : (j : ℕ) (u : Bytes) → S j u → Memᴰ u ids) where
    measure : ℕ → ℕ → Bytes → ℕ
    measure l count v = above v ids * l + (l - count)

    -- The value that a round has found is above the last one.
    closer :
        (i l count fuel : ℕ) (v w : Bytes)
        → Nearest (S i) v w
        → w ≢ []
        → w ≢ v
        → count < l
        → measure l count v < suc fuel
        → measure l 1 w < fuel
    unfolding measure
    closer i l count fuel v w n ne new lt m =
        let (has, le) = n.0 ne in
        let gt : bytes_le w v ≡ false = ground (arith, bytes_le_antisym w v, le, new) in
        fewer (above w ids) (above v ids) l count fuel
          (above-lt v w ids le gt (bytes_le_refl w) (known i w has)) lt m

    Continues : ℕ → ℕ → Bytes → Type 0
    Continues fuel l v0 =
        (i count : ℕ) (v : Bytes) (cs : Constraints cur)
        → length cs ≡ l
        → AllRange cur laws S cs
        → Agrees S l v0 i count v
        → measure l count v < fuel
        → Finds S l v0 (seek_loop cur fuel i count v cs)

    case-Finds :
        (fuel l i count : ℕ) (v0 v w : Bytes) (cs : Constraints cur)
        → Continues fuel l v0
        → length cs ≡ l
        → AllRange cur laws S cs
        → Agrees S l v0 i count v
        → Nearest (S i) v w
        → count < l
        → measure l count v < suc fuel
        → Finds S l v0 (run fuel (seek_case cur i count v (some (w, cs))))
    unfolding Finds seek_case Continues measure
    case-Finds fuel l i count v0 v w cs rest e rs a n lt m = elim (Bool-cases (bytes_eq w [])) [
      | inl h ↦
          let none_left = (bytes_eq_iff w []).0 h in
          rw h ([], cs, refl, rs, e, stop-Nearest S l v0 i count v w a n none_left)
      | inr h ↦
          let ne : w ≢ [] = λ e'. cc (sym h ∙ (bytes_eq_iff w []).1 e') in
          elim (Bool-cases (bytes_eq w v)) [
            | inl h' ↦
                let same = (bytes_eq_iff w v).0 h' in
                rw (h, h', e)
                  (rest (suc i % l) (suc count) v cs e rs
                    (again-Agrees S l v0 i count v w a n ne same lt) (omega arith))
            | inr h' ↦
                let new : w ≢ v = λ e'. cc (sym h' ∙ (bytes_eq_iff w v).1 e') in
                rw (h, h', e)
                  (rest (suc i % l) 1 w cs e rs (forth-Agrees S l v0 i count v w a n ne)
                    (closer i l count fuel v w n ne new lt m))
          ]
    ]

    loop-Finds : (fuel l : ℕ) (v0 : Bytes) → Continues fuel l v0
    unfolding Continues seek_loop Sought Finds
    loop-Finds zero l v0 i count v cs e rs a m = absurd (omega arith)
    loop-Finds (suc fuel) l v0 i count v cs e rs a m = elim (Bool-cases (ltb count (length cs))) [
      | inl more ↦
          let (w, cs', found, rs', same, n) =
            seek_at-Sought S i v cs rs (omega (arith, a.inside, e)) in
          subst (λ r. Finds S l v0 (run fuel r)) (sym (round-case i count v w cs cs' more found))
            (case-Finds fuel l i count v0 v w cs' (loop-Finds fuel l v0) (same ∙ e) rs' a n
              (ground (arith, e)) m)
      | inr over ↦
          subst (λ r. Finds S l v0 (run fuel r)) (sym (round-over i count v cs over))
            (v, cs, refl, rs, e, end-Nearest S l v0 i count v a (ground (arith, e)))
    ]

    -- a fuel that is enough
    pub set-Finds :
        (fuel : ℕ) (v : Bytes) (cs : Constraints cur)
        → 0 < length cs
        → AllRange cur laws S cs
        → suc (length ids) * length cs < fuel
        → Finds S (length cs) v (seek_set cur fuel v cs)
    unfolding seek_set Continues measure
    set-Finds fuel v cs some_left rs enough =
        loop-Finds fuel (length cs) v 0 0 v cs refl rs (begin-Agrees S (length cs) v some_left) (
          omega (
            arith,
            enough,
            suc-mul (length ids) (length cs),
            mul-le-mul_right (length cs) (above-le-length v ids),
          ))
