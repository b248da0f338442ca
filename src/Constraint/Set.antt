-- ===== src/Constraint/Set.antt =====
-- constraintSet of constraint.go: the constraints of one variable, as a slice, with the search for a
-- value that all of them have. A search by Seek mutates the iterators of the constraints, which are in
-- the list that it returns.
use forty_six.Base.{
  ℕ, zero, suc, ◌%◌, not, ◌&&◌, List, [], ◌∷◌, Option, none, some, Bytes, bytes_eq, length, ltb,
  if◌then◌else◌,
}
use forty_six.Badger.Cursor.{Cursor}
use forty_six.Constraint.{Constraint, next, seek}

module _ (cur : Cursor) where
  abbrev pub Constraints : Type 0
  Constraints = List (Constraint cur)

  abbrev pub put_back : Constraint cur → Option (Bytes × Constraints) → Option (Bytes × Constraints)
  put_back c none = none
  put_back c (some (w, cs)) = some (w, c ∷ cs)

  -- `cs[i].Seek(v)`; none is an index panic.
  unfoldable pub seek_at : ℕ → Bytes → Constraints → Option (Bytes × Constraints)
  seek_at i v [] = none
  seek_at zero v (c ∷ cs) = let (w, c') = seek cur v c in some (w, c' ∷ cs)
  seek_at (suc i) v (c ∷ cs) = put_back c (seek_at i v cs)

  -- What a round of the loop of Seek comes to: a result, where none is a panic, or the next `i`,
  -- `count` and `v`.
  pub data Round : Type 0 where
    stop : Option (Bytes × Constraints) → Round
    go : ℕ → ℕ → Bytes → Constraints → Round

  -- The three cases of the loop's body, for the value that `cs[i]` has given.
  unfoldable pub seek_case : ℕ → ℕ → Bytes → Option (Bytes × Constraints) → Round
  seek_case i count v none = stop none
  seek_case i count v (some (w, cs)) =
      let i' = suc i % length cs in
      if bytes_eq w []
      then stop (some ([], cs))
      else if bytes_eq w v
      then go i' (suc count) v cs
      else go i' 1 w cs

  unfoldable pub seek_round : ℕ → ℕ → Bytes → Constraints → Round
  seek_round i count v cs =
      if ltb count (length cs) then seek_case i count v (seek_at i v cs) else stop (some (v, cs))

  -- The loop; there is no result where the fuel runs out.
  unfoldable pub seek_loop : ℕ → ℕ → ℕ → Bytes → Constraints → Option (Bytes × Constraints)
  seek_loop zero i count v cs = none
  seek_loop (suc fuel) i count v cs = elim (seek_round i count v cs) [
    | stop r ↦ r
    | go i' count' v' cs' ↦ seek_loop fuel i' count' v' cs'
  ]

  unfoldable pub seek_set : ℕ → Bytes → Constraints → Option (Bytes × Constraints)
  seek_set fuel v cs = seek_loop fuel 0 0 v cs

  -- constraintSet.Next; none is also the index panic of an empty set.
  unfoldable pub next_set : ℕ → Constraints → Option (Bytes × Constraints)
  next_set fuel [] = none
  next_set fuel (c ∷ cs) =
      let (w, c') = next cur c in
      let sought = seek_set fuel w (c' ∷ cs) in
      if not (bytes_eq w []) && ltb 1 (length (c ∷ cs)) then sought else some (w, c' ∷ cs)
