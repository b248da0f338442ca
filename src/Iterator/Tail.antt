-- ===== src/Iterator/Tail.antt =====
-- Where `next` stops.
use forty_six.Base.{
  ℕ, zero, suc, ◌-◌, ◌≤◌, ◌<◌, ◌≡◌, ◌⊎◌, refl, ap, ◌∙◌, true, false, Bool-cases, inl, inr, List, [],
  ◌∷◌, ◌==◌, arith,
}
use forty_six.Iterator.{Graph, Machine, Delta, no_delta, seek_root, update}
use forty_six.Iterator.Outcome.{Outcome, done, Holds, Holds-bind, Holds-elim, Holds-map, Holds-done}
use forty_six.Iterator.Tick.{Call, is_nil, push_to, restore_to, mark, tick}
use forty_six.Iterator.Advance.{hunt, keep_range, spread, advance}
use forty_six.Iterator.Promises.{
  Promise, IsPromising, Same, push_to-Same, restore_to-Same, tick-IsPromising, update_twice,
}

module _ (g : Graph) where
  module _ (call : Call g) (p : IsPromising g call) where
    abbrev Hunts : Machine g → Delta g × Machine g → Type 0
    Hunts m (d, m') = Same g m m'

    hunt-Same : (n j i : ℕ) (d : Delta g) (m : Machine g) → Holds (Hunts m) (hunt g call n j i d m)
    unfolding hunt
    hunt-Same zero j i d m = tt
    hunt-Same (suc n) j i d m =
        let m1 : Machine g = record m { graph = seek_root g j m.graph } in
        elim (Bool-cases (is_nil g j m1)) [
          | inl e ↦ rw e (
              Holds-bind (Promise g d m1) (Hunts m) (call j i d m1) _ (p j i d m1)
                λ (more, d2, m2) (s, kept, _).
                  Holds-elim (Hunts m) more _ _
                    (λ e'.
                      Holds-map (Hunts m2) (Hunts m) (hunt g call n j i d2 m2)
                        (hunt-Same n j i d2 m2) (λ r h. h ∙ s))
                    (λ e'. s))
          | inr e ↦ rw e refl
        ]

    abbrev Spreads : Machine g → ℕ × Delta g × Machine g → Type 0
    Spreads m (cursor, cache, m') = Same g m m'

    spread-Same :
        (n i : ℕ) (js : List ℕ) (cache : Delta g) (m : Machine g)
        → Holds (Spreads m) (spread g call n i js cache m)
    unfolding spread
    spread-Same n i [] cache m = refl
    spread-Same n i (j ∷ js) cache m =
        Holds-bind (Hunts m) (Spreads m) (hunt g call n j i (no_delta g) m) _
          (hunt-Same n j i (no_delta g) m)
          λ (d, m1) s.
            Holds-elim (Spreads m) (is_nil g j m1) _ _ (λ e. s)
              (λ e.
                let cache1 = keep_range g (j - suc i) (suc i) d cache in
                Holds-bind (Same g m1) (Spreads m) (push_to g j j g.size m1) _
                  (push_to-Same g j j g.size m1)
                  λ m2 s2.
                    Holds-map (Spreads m2) (Spreads m) (spread g call n i js cache1 m2)
                      (spread-Same n i js cache1 m2) (λ r h. h ∙ s2 ∙ s))

    -- What `next` leaves, from c on: it has moved the variable `tail`, which is in front of c, and
    -- its cache is empty, or there is no such variable. The cache is empty or as it was.
    Stops : ℕ → Delta g → Machine g → ℕ × Delta g × Machine g → Type 0
    Stops c cache m (tail, cache', m') =
        Same g m m'
        × ((tail ≡ g.size) ⊎ ((tail < c) × (cache' ≡ no_delta g)))
        × ((cache' ≡ cache) ⊎ (cache' ≡ no_delta g))

    Stops-from :
        (c c1 : ℕ) (cache cache1 : Delta g) (m m1 : Machine g)
        (o : Outcome (ℕ × Delta g × Machine g))
        → c1 ≤ c
        → (cache1 ≡ cache) ⊎ (cache1 ≡ no_delta g)
        → Same g m m1
        → Holds (Stops c1 cache1 m1) o
        → Holds (Stops c cache m) o
    unfolding Stops
    Stops-from c c1 cache cache1 m m1 o le given s h =
        Holds-map (Stops c1 cache1 m1) (Stops c cache m) o h
          λ (tail, cache', m') (s', stop, left). (s' ∙ s, wider tail stop, kept left)
      where
        wider :
            (tail : ℕ) {cache : Delta g}
            → (tail ≡ g.size) ⊎ ((tail < c1) × (cache ≡ no_delta g))
            → (tail ≡ g.size) ⊎ ((tail < c) × (cache ≡ no_delta g))
        wider tail (inl e) = inl e
        wider tail (inr (lt, e)) = inr (omega arith, e)

        kept :
            {cache' : Delta g}
            → (cache' ≡ cache1) ⊎ (cache' ≡ no_delta g)
            → (cache' ≡ cache) ⊎ (cache' ≡ no_delta g)
        kept (inr e) = inr e
        kept (inl e) = elim given [ inl e1 ↦ inl (e ∙ e1) | inr e1 ↦ inr (e ∙ e1) ]

    advance-Stops :
        (n c : ℕ) (cache : Delta g) (m : Machine g)
        → ((i : ℕ) → m.blacklist i ≡ false)
        → Holds (Stops c cache m) (advance g call n c cache m)
    unfolding advance Stops
    advance-Stops zero c cache m clear = tt
    advance-Stops (suc n) zero cache m clear = (refl, inl refl, inl refl)
    advance-Stops (suc n) (suc i) cache m clear =
        let moved : Machine g = record m { graph = g.next i m.graph } in
        let reset : Machine g = record m { graph = seek_root g i moved.graph } in
        elim (Bool-cases (is_nil g i moved)) [
          | inl e ↦ rw e (
              Holds-bind (Same g reset) (Stops (suc i) cache m) (push_to g i i g.size reset) _
                (push_to-Same g i i g.size reset)
                λ m1 s.
                  Stops-from (suc i) i cache cache m m1 _ (omega arith) (inl refl) s
                    (advance-Stops n i cache m1 (λ v. ap (λ b. b v) s ∙ clear v)))
          | inr e ↦ rw e (
              Holds-bind (Same g moved) (Stops (suc i) cache m) (push_to g i i g.size moved) _
                (push_to-Same g i i g.size moved)
                λ m1 s1.
                  Holds-bind (Spreads (mark g i true m1)) (Stops (suc i) cache m)
                    (spread g call n i (g.outs i) cache (mark g i true m1)) _
                    (spread-Same n i (g.outs i) cache (mark g i true m1))
                    λ (cursor, cache1, m2) s2.
                      let m3 : Machine g = mark g i false m2 in
                      let s : Same g m m3 =
                        ap (update i false) s2
                        ∙ ap (λ b. update i false (update i true b)) s1
                        ∙ update_twice i m.blacklist (clear i) in
                      Holds-elim (Stops (suc i) cache m) (cursor == i) _ _
                        (λ e'. (s, inr (omega arith, refl), inr refl))
                        (λ e'.
                          Holds-bind (Same g m3) (Stops (suc i) cache m)
                            (restore_to g (suc cursor) cache1 g.size m3) _
                            (restore_to-Same g (suc cursor) cache1 g.size m3)
                            λ m4 s4.
                              Stops-from (suc i) (suc i) cache (no_delta g) m m4 _ (omega arith)
                                (inr refl) (s4 ∙ s)
                                (advance-Stops n (suc i) (no_delta g) m4
                                  (λ v. ap (λ b. b v) (s4 ∙ s) ∙ clear v))))
        ]

  -- From an empty blacklist, `next(i)` ends with the index of a variable that is not behind i, or with
  -- the number of variables. The blacklist is empty again. The cache is empty where a variable has been
  -- moved, and else it is empty or as it was.
  pub advance_tail :
      (fuel n c tail : ℕ) (cache cache1 : Delta g) (m m1 : Machine g)
      → ((i : ℕ) → m.blacklist i ≡ false)
      → advance g (tick g fuel) n c cache m ≡ done (tail, cache1, m1)
      → (m1.blacklist ≡ m.blacklist)
        × ((tail ≡ g.size) ⊎ ((tail < c) × (cache1 ≡ no_delta g)))
        × ((cache1 ≡ cache) ⊎ (cache1 ≡ no_delta g))
  advance_tail fuel n c tail cache cache1 m m1 clear e =
      unfold Stops in
      Holds-done (Stops (tick g fuel) (tick-IsPromising g fuel) c cache m)
        (advance g (tick g fuel) n c cache m)
        (advance-Stops (tick g fuel) (tick-IsPromising g fuel) n c cache m clear) e
