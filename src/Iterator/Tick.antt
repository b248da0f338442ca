-- ===== src/Iterator/Tick.antt =====
-- tick of query.go. Its loops and its recursion are bounded by one fuel; a call of itself has less.
use forty_six.Base.{
  ℕ, zero, suc, Bool, true, false, List, [], ◌∷◌, Option, none, some, bytes_eq, length, get_or, leb,
  if◌then◌else◌,
}
use forty_six.Iterator.{Graph, Machine, Delta, update, no_delta, keep_first, restore, seek_root}
use forty_six.Iterator.Outcome.{Outcome, out_of_fuel, done, ◌>=>◌, lift}

module _ (g : Graph) where
  -- `tick(k, min, delta)`: ok, and the delta and the iterator as the call leaves them.
  abbrev pub Call : Type 0
  Call = ℕ → ℕ → Delta g → Machine g → Outcome (Bool × Delta g × Machine g)

  abbrev pub is_nil : ℕ → Machine g → Bool
  is_nil k m = bytes_eq (g.value k m.graph) []

  abbrev pub push_to : ℕ → ℕ → ℕ → Machine g → Outcome (Machine g)
  push_to i min max m = lift (g.push i min max m.graph) >=> λ s. done (record m { graph = s })

  abbrev pub restore_to : ℕ → Delta g → ℕ → Machine g → Outcome (Machine g)
  restore_to n cache max m =
      lift (restore g n cache max m.graph) >=> λ s. done (record m { graph = s })

  -- The loop that seeks a value of the variable `k`, for which it ticks in turn.
  unfoldable pub settle : Call → ℕ → ℕ → ℕ → ℕ → Delta g → Machine g → Outcome (Delta g × Machine g)
  settle call zero k min i d m = out_of_fuel
  settle call (suc n) k min i d m =
      let m' = record m { graph = seek_root g k m.graph } in
      let again = call k min d m' >=> λ (more, d', m2). elim more [
        | true ↦ settle call n k min i d' m2
        | false ↦ restore_to k d' i m2 >=> λ m3. done (d', m3)
      ] in
      if is_nil k m' then again else done (d, m')

  -- One round of the loop that pushes what a tick has changed, and keeps its first saved state.
  unfoldable pub keep_pushed :
      ℕ → ℕ → ℕ → Option g.Saved → Delta g → Machine g → Outcome (Delta g × Machine g)
  keep_pushed l min max none next m = done (next, m)
  keep_pushed l min max (some saved) next m =
      push_to l min max m >=> λ m1. done (keep_first g l saved next, m1)

  -- The loop over the next `n` entries of `d`, from the index `l` on.
  unfoldable pub stash : ℕ → ℕ → ℕ → Delta g → Delta g → Machine g → Outcome (Delta g × Machine g)
  stash zero l max d next m = done (next, m)
  stash (suc n) l max d next m =
      keep_pushed l l max (d l) next m >=> λ (next1, m1). stash n (suc l) max d next1 m1

  -- "The crawl" from `j` to `i`, over the dependents of `j`: whether it was completed.
  unfoldable pub crawl :
      Call → ℕ → ℕ → ℕ → List ℕ → Delta g → Machine g → Outcome (Bool × Delta g × Machine g)
  crawl call n min i [] next m = done (true, next, m)
  crawl call n min i (k ∷ ks) next m =
      let next1 = keep_first g k (g.save k m.graph) next in
      let rest = settle call n k min i (no_delta g) m >=> λ (d, m1). elim (is_nil k m1) [
        | true ↦ done (false, next1, m1)
        | false ↦ push_to k k i m1 >=> λ m2.
            stash k 0 i d next1 m2 >=> λ (next2, m3). crawl call n min i ks next2 m3
      ] in
      if leb i k then done (true, next, m) else rest

  -- The loop that hands the changes over to `delta`, and pushes them to the rest of the domain.
  unfoldable pub hand_over :
      ℕ → ℕ → ℕ → Delta g → Delta g → Machine g → Outcome (Delta g × Machine g)
  hand_over zero l i next delta m = done (delta, m)
  hand_over (suc n) l i next delta m = keep_pushed l i g.size (next l) delta m >=> λ (delta1, m1).
      hand_over n (suc l) i next delta1 m1

  abbrev pub mark : ℕ → Bool → Machine g → Machine g
  mark j b m = record m { blacklist = update j b m.blacklist }

  -- The outer loop of tick, over the first `x` dependencies of `i`, backwards. Where none is left, ok
  -- is false: it is what the last call in a crawl that was not completed has returned.
  unfoldable pub walk :
      Call → ℕ → ℕ → ℕ → Delta g → Delta g → ℕ → Machine g → Outcome (Bool × Delta g × Machine g)
  walk call zero i min delta next x m = out_of_fuel
  walk call (suc n) i min delta next zero m = done (false, delta, m)
  walk call (suc n) i min delta next (suc x) m =
      let j = get_or (g.ins i) x 0 in
      let self = g.save j m.graph in
      let moved = record m { graph = g.next j m.graph } in
      let back = record m { graph = g.seek j (g.saved_value self) moved.graph } in
      let stop = restore_to i next i m >=> λ m1. done (false, delta, m1) in
      let skip = walk call n i min delta next x m in
      let fewer = walk call n i min delta next x back in
      let forth = push_to j j i moved >=> λ m1.
      crawl call n min i (g.outs j) next (mark j true m1) >=> λ (complete, next1, m2).
      elim complete [
        | true ↦
            hand_over i 0 i (update j (some self) next1) delta (mark j false m2) >=> λ (delta1, m3).
            done (true, delta1, m3)
        | false ↦ restore_to i next1 i (mark j false m2) >=> λ m3.
            walk call n i min delta next1 (suc x) m3
      ] in
      if leb j min
      then stop
      else if m.blacklist j
      then skip
      else if is_nil j moved
      then fewer
      else forth

  unfoldable pub tick : ℕ → Call
  tick zero i min delta m = out_of_fuel
  tick (suc fuel) i min delta m =
      walk (tick fuel) fuel i min delta (no_delta g) (length (g.ins i)) m
