-- ===== src/Iterator/Advance.antt =====
-- `next` of query.go: the next solution that differs at a variable or in front of it.
use forty_six.Base.{
  ℕ, zero, suc, ◌-◌, true, false, List, [], ◌∷◌, Option, none, some, ◌==◌, if◌then◌else◌,
}
use forty_six.Iterator.{Graph, Machine, Delta, no_delta, keep_first, seek_root}
use forty_six.Iterator.Outcome.{Outcome, out_of_fuel, done, ◌>=>◌}
use forty_six.Iterator.Tick.{Call, is_nil, push_to, restore_to, mark}

module _ (g : Graph) where
  -- The loop that seeks a value of `j`, for which it ticks above `i`.
  unfoldable pub hunt : Call g → ℕ → ℕ → ℕ → Delta g → Machine g → Outcome (Delta g × Machine g)
  hunt call zero j i d m = out_of_fuel
  hunt call (suc n) j i d m =
      let m1 = record m { graph = seek_root g j m.graph } in
      let again = call j i d m1 >=> λ (more, d2, m2). elim more [
        | true ↦ hunt call n j i d2 m2
        | false ↦ done (d2, m2)
      ] in
      if is_nil g j m1 then again else done (d, m1)

  abbrev pub keep_saved : ℕ → Option g.Saved → Delta g → Delta g
  keep_saved k none cache = cache
  keep_saved k (some saved) cache = keep_first g k saved cache

  -- The loop over the next `n` entries of `d`, from the index `k` on.
  unfoldable pub keep_range : ℕ → ℕ → Delta g → Delta g → Delta g
  keep_range zero k d cache = cache
  keep_range (suc n) k d cache = keep_range n (suc k) d (keep_saved k (d k) cache)

  -- The loop over the dependents of `i`, with the cursor that it leaves.
  unfoldable pub spread :
      Call g → ℕ → ℕ → List ℕ → Delta g → Machine g → Outcome (ℕ × Delta g × Machine g)
  spread call n i [] cache m = done (i, cache, m)
  spread call n i (j ∷ js) cache m = hunt call n j i (no_delta g) m >=> λ (d, m1).
      elim (is_nil g j m1) [
        | true ↦ done (j, cache, m1)
        | false ↦ push_to g j j g.size m1 >=> λ m2.
            spread call n i js (keep_range (j - suc i) (suc i) d cache) m2
      ]

  -- `next(i)`, on i + 1, which is zero behind the first variable.
  unfoldable pub advance : Call g → ℕ → ℕ → Delta g → Machine g → Outcome (ℕ × Delta g × Machine g)
  advance call zero c cache m = out_of_fuel
  advance call (suc n) zero cache m = done (g.size, cache, m)
  advance call (suc n) (suc i) cache m =
      let moved = record m { graph = g.next i m.graph } in
      let reset = record m { graph = seek_root g i moved.graph } in
      let lower = push_to g i i g.size reset >=> λ m1. advance call n i cache m1 in
      let forth = push_to g i i g.size moved >=> λ m1.
      spread call n i (g.outs i) cache (mark g i true m1) >=> λ (cursor, cache1, m2).
      elim (cursor == i) [
        | true ↦ done (i, no_delta g, mark g i false m2)
        | false ↦ restore_to g (suc cursor) cache1 g.size (mark g i false m2) >=> λ m3.
            advance call n (suc i) (no_delta g) m3
      ] in
      if is_nil g i moved then lower else forth
