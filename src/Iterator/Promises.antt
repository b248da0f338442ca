-- ===== src/Iterator/Promises.antt =====
-- What the comment on tick promises of the blacklist and of delta.
use forty_six.Base.{
  ℕ, zero, suc, ◌≡◌, refl, sym, ap, ◌∙◌, fun_ext, Bool, true, false, Bool-cases, inl, inr, List, [],
  ◌∷◌, Option, none, some, ◌==◌, ==_iff, length, get_or, leb,
}
use forty_six.Iterator.{Graph, Machine, Delta, update, no_delta, keep_first, restore, seek_root}
use forty_six.Iterator.Outcome.{
  Outcome, done, ◌>=>◌, lift, Holds, Holds-bind, Holds-after, Holds-done, Holds-elim, Holds-map,
}
use forty_six.Iterator.Tick.{
  Call, is_nil, push_to, restore_to, settle, keep_pushed, stash, crawl, hand_over, mark, walk, tick,
}

-- marked and unmarked again
pub update_twice : (j : ℕ) (f : ℕ → Bool) → f j ≡ false → update j false (update j true f) ≡ f
update_twice j f h = fun_ext (λ v. at v)
  where
    at : (v : ℕ) → update j false (update j true f) v ≡ f v
    at v = elim (Bool-cases (j == v)) [
      | inl e ↦ rw e (sym h ∙ ap f ((==_iff j v).0 e))
      | inr e ↦ rw e refl
    ]

module _ (g : Graph) where
  -- the blacklist is the same
  abbrev pub Same : Machine g → Machine g → Type 0
  Same m m' = m'.blacklist ≡ m.blacklist

  -- No entry that is not nil is overwritten.
  abbrev pub Keeps : Delta g → Delta g → Type 0
  Keeps d d' = (l : ℕ) (c : g.Saved) → d l ≡ some c → d' l ≡ some c

  -- The same blacklist, no entry overwritten, and the same delta where ok is false.
  abbrev pub Promise : Delta g → Machine g → Bool × Delta g × Machine g → Type 0
  Promise d m (more, d', m') = (m'.blacklist ≡ m.blacklist) × Keeps d d' × (more ≡ false → d' ≡ d)

  abbrev Grows : Delta g → Machine g → Delta g × Machine g → Type 0
  Grows d m (d', m') = Same m m' × Keeps d d'

  abbrev pub IsPromising : Call g → Type 0
  IsPromising call =
      (k min : ℕ) (d : Delta g) (m : Machine g) → Holds (Promise d m) (call k min d m)

  pub push_to-Same : (i min max : ℕ) (m : Machine g) → Holds (Same m) (push_to g i min max m)
  push_to-Same i min max m =
      Holds-after (Same m) (lift (g.push i min max m.graph)) (λ s. done (record m { graph = s }))
        (λ s. refl)

  pub restore_to-Same :
      (n : ℕ) (cache : Delta g) (max : ℕ) (m : Machine g)
      → Holds (Same m) (restore_to g n cache max m)
  restore_to-Same n cache max m =
      Holds-after (Same m) (lift (restore g n cache max m.graph))
        (λ s. done (record m { graph = s })) (λ s. refl)

  keep_first-Keeps : (l : ℕ) (saved : g.Saved) (d : Delta g) → Keeps d (keep_first g l saved d)
  unfolding keep_first
  keep_first-Keeps l saved d j c h = elim (Bool-cases (l == j)) [
    | inl e ↦ rw (e, ap d ((==_iff l j).0 e) ∙ h) refl
    | inr e ↦ rw e h
  ]

  Keeps-trans : (d1 d2 d3 : Delta g) → Keeps d1 d2 → Keeps d2 d3 → Keeps d1 d3
  Keeps-trans d1 d2 d3 h h' l c e = h' l c (h l c e)

  Grows-trans :
      (d1 d2 : Delta g) (m1 m2 : Machine g) (r : Delta g × Machine g)
      → Grows d1 m1 (d2, m2)
      → Grows d2 m2 r
      → Grows d1 m1 r
  Grows-trans d1 d2 m1 m2 (d3, m3) (s, k) (s', k') = (s' ∙ s, Keeps-trans d1 d2 d3 k k')

  settle-Grows :
      (call : Call g)
      → IsPromising call
      → (n k min i : ℕ) (d : Delta g) (m : Machine g)
      → Holds (Grows d m) (settle g call n k min i d m)
  unfolding settle
  settle-Grows call p zero k min i d m = tt
  settle-Grows call p (suc n) k min i d m =
      let m1 : Machine g = record m { graph = seek_root g k m.graph } in
      elim (Bool-cases (is_nil g k m1)) [
        | inl e ↦ rw e (
            Holds-bind (Promise d m1) (Grows d m) (call k min d m1) _ (p k min d m1)
              λ (more, d2, m2) (s, kept, _).
                Holds-elim (Grows d m) more _ _
                  (λ e'.
                    Holds-map (Grows d2 m2) (Grows d m) (settle g call n k min i d2 m2)
                      (settle-Grows call p n k min i d2 m2)
                      (λ r h. Grows-trans d d2 m m2 r (s, kept) h))
                  (λ e'.
                    Holds-bind (Same m2) (Grows d m) (restore_to g k d2 i m2) _
                      (restore_to-Same k d2 i m2) (λ m3 s'. (s' ∙ s, kept))))
        | inr e ↦ rw e (refl, λ l c h. h)
      ]

  keep_pushed-Grows :
      (l min max : ℕ) (o : Option g.Saved) (d : Delta g) (m : Machine g)
      → Holds (Grows d m) (keep_pushed g l min max o d m)
  unfolding keep_pushed
  keep_pushed-Grows l min max none d m = (refl, λ j c h. h)
  keep_pushed-Grows l min max (some saved) d m =
      Holds-bind (Same m) (Grows d m) (push_to g l min max m) _ (push_to-Same l min max m)
        λ m1 s. (s, keep_first-Keeps l saved d)

  stash-Grows :
      (n l max : ℕ) (d next : Delta g) (m : Machine g)
      → Holds (Grows next m) (stash g n l max d next m)
  unfolding stash
  stash-Grows zero l max d next m = (refl, λ j c h. h)
  stash-Grows (suc n) l max d next m =
      Holds-bind (Grows next m) (Grows next m) (keep_pushed g l l max (d l) next m) _
        (keep_pushed-Grows l l max (d l) next m)
        λ (next1, m1) h.
          Holds-map (Grows next1 m1) (Grows next m) (stash g n (suc l) max d next1 m1)
            (stash-Grows n (suc l) max d next1 m1) (λ r h'. Grows-trans next next1 m m1 r h h')

  hand_over-Grows :
      (n l i : ℕ) (next delta : Delta g) (m : Machine g)
      → Holds (Grows delta m) (hand_over g n l i next delta m)
  unfolding hand_over
  hand_over-Grows zero l i next delta m = (refl, λ j c h. h)
  hand_over-Grows (suc n) l i next delta m =
      Holds-bind (Grows delta m) (Grows delta m) (keep_pushed g l i g.size (next l) delta m) _
        (keep_pushed-Grows l i g.size (next l) delta m)
        λ (delta1, m1) h.
          Holds-map (Grows delta1 m1) (Grows delta m) (hand_over g n (suc l) i next delta1 m1)
            (hand_over-Grows n (suc l) i next delta1 m1)
            (λ r h'. Grows-trans delta delta1 m m1 r h h')

  module _ (call : Call g) (p : IsPromising call) where
    abbrev Stays : Machine g → Bool × Delta g × Machine g → Type 0
    Stays m (complete, next, m') = Same m m'

    crawl-Stays :
        (n min i : ℕ) (ks : List ℕ) (next : Delta g) (m : Machine g)
        → Holds (Stays m) (crawl g call n min i ks next m)
    unfolding crawl
    crawl-Stays n min i [] next m = refl
    crawl-Stays n min i (k ∷ ks) next m = elim (Bool-cases (leb i k)) [
      | inl e ↦ rw e refl
      | inr e ↦ rw e (
          Holds-bind (Grows (no_delta g) m) (Stays m) (settle g call n k min i (no_delta g) m) _
            (settle-Grows call p n k min i (no_delta g) m)
            λ (d, m1) (s, _).
              Holds-elim (Stays m) (is_nil g k m1) _ _ (λ e'. s)
                (λ e'.
                  let next1 = keep_first g k (g.save k m.graph) next in
                  Holds-bind (Same m1) (Stays m) (push_to g k k i m1) _ (push_to-Same k k i m1)
                    λ m2 s2.
                      Holds-bind (Grows next1 m2) (Stays m) (stash g k 0 i d next1 m2) _
                        (stash-Grows k 0 i d next1 m2)
                        λ (next2, m3) (s3, _).
                          Holds-map (Stays m3) (Stays m) (crawl g call n min i ks next2 m3)
                            (crawl-Stays n min i ks next2 m3) (λ r h. h ∙ s3 ∙ s2 ∙ s)))
    ]

    -- What a call of tick promises on from a state with the same blacklist.
    Promise-from :
        (delta : Delta g) (m m1 : Machine g) (call : Outcome (Bool × Delta g × Machine g))
        → Same m m1
        → Holds (Promise delta m1) call
        → Holds (Promise delta m) call
    Promise-from delta m m1 call s h =
        Holds-map (Promise delta m1) (Promise delta m) call h
          (λ r (s', kept, same). (s' ∙ s, kept, same))

    -- what follows a value that the dependency `j` has moved to
    forward :
        (n i j : ℕ) (delta next1 : Delta g) (m m2 : Machine g) (complete : Bool)
        (again : Delta g → Machine g → Outcome (Bool × Delta g × Machine g))
        → Same m m2
        → ((m3 : Machine g) → Holds (Promise delta m3) (again next1 m3))
        → Holds (Promise delta m) (elim complete [
          | true ↦
              hand_over g i 0 i (update j (some (g.save j m.graph)) next1) delta m2
              >=> λ (delta1, m3). done (true, delta1, m3)
          | false ↦ restore_to g i next1 i m2 >=> λ m3. again next1 m3
        ])
    forward n i j delta next1 m m2 complete again s rest =
        let next2 = update j (some (g.save j m.graph)) next1 in
        Holds-elim (Promise delta m) complete _ _
          (λ e.
            Holds-bind (Grows delta m2) (Promise delta m) (hand_over g i 0 i next2 delta m2) _
              (hand_over-Grows i 0 i next2 delta m2)
              λ (delta1, m3) (s3, kept). (s3 ∙ s, kept, λ e'. absurd (cc e')))
          (λ e.
            Holds-bind (Same m2) (Promise delta m) (restore_to g i next1 i m2) _
              (restore_to-Same i next1 i m2) λ m3 s3. Promise-from delta m m3 _ (s3 ∙ s) (rest m3))

    walk-Promise :
        (n i min : ℕ) (delta next : Delta g) (x : ℕ) (m : Machine g)
        → Holds (Promise delta m) (walk g call n i min delta next x m)
    unfolding walk
    walk-Promise zero i min delta next x m = tt
    walk-Promise (suc n) i min delta next zero m = (refl, λ l c h. h, λ e. refl)
    walk-Promise (suc n) i min delta next (suc x) m =
        let j = get_or (g.ins i) x 0 in
        elim (Bool-cases (leb j min)) [
          | inl e ↦ rw e (
              Holds-bind (Same m) (Promise delta m) (restore_to g i next i m) _
                (restore_to-Same i next i m) (λ m1 s. (s, λ l c h. h, λ e'. refl)))
          | inr e ↦ elim (Bool-cases (m.blacklist j)) [
            | inl e1 ↦ rw (e, e1) (walk-Promise n i min delta next x m)
            | inr e1 ↦
                let moved : Machine g = record m { graph = g.next j m.graph } in
                elim (Bool-cases (is_nil g j moved)) [
                  | inl e2 ↦ rw (e, e1, e2) (walk-Promise n i min delta next x _)
                  | inr e2 ↦
                      rw (e, e1, e2)
                        (Holds-bind (Same moved) (Promise delta m) (push_to g j j i moved) _
                          (push_to-Same j j i moved)
                          λ m1 s1.
                            Holds-bind (Stays (mark g j true m1)) (Promise delta m)
                              (crawl g call n min i (g.outs j) next (mark g j true m1)) _
                              (crawl-Stays n min i (g.outs j) next (mark g j true m1))
                              λ (complete, next1, m2) s2.
                                forward n i j delta next1 m (mark g j false m2) complete
                                  (λ next2 m3. walk g call n i min delta next2 (suc x) m3)
                                  (ap (update j false) s2
                                    ∙ ap (λ b. update j false (update j true b)) s1
                                    ∙ update_twice j m.blacklist e1)
                                  (λ m3. walk-Promise n i min delta next1 (suc x) m3))
                ]
          ]
        ]

  pub tick-IsPromising : (fuel : ℕ) → IsPromising (tick g fuel)
  unfolding tick
  tick-IsPromising zero i min delta m = tt
  tick-IsPromising (suc fuel) i min delta m =
      walk-Promise (tick g fuel) (tick-IsPromising fuel) fuel i min delta (no_delta g)
        (length (g.ins i)) m

  -- A tick that returns without an error leaves the blacklist as it has found it. It overwrites no
  -- entry of delta that is not nil, and changes none of them where it returns ok = false.
  pub tick-Promise :
      (fuel i min : ℕ) (delta delta' : Delta g) (m m' : Machine g) (more : Bool)
      → tick g fuel i min delta m ≡ done (more, delta', m')
      → Promise delta m (more, delta', m')
  tick-Promise fuel i min delta delta' m m' more e =
      Holds-done (Promise delta m) (tick g fuel i min delta m) (tick-IsPromising fuel i min delta m)
        e
