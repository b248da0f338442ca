-- ===== src/Iterator/Flags.antt =====
-- When the iterator says that there are no more solutions.
use mathlib.Core.Option.{some-injective}
use forty_six.Base.{
  ℕ, zero, suc, ◌≡◌, refl, sym, ap, subst, ◌∙◌, Bool, true, false, Bool-cases, inl, inr, ◌||◌, List,
  [], Option, none, some, ◌==◌, if◌then◌else◌, Error, arith,
}
use forty_six.Term.{Term}
use forty_six.Iterator.{Graph, Machine, Delta}
use forty_six.Iterator.Outcome.{
  Outcome, out_of_fuel, failed, done, lift, Holds, Holds-bind, Holds-after, Holds-done,
}
use forty_six.Iterator.Tick.{tick}
use forty_six.Iterator.Advance.{advance}
use forty_six.Iterator.Solutions.{
  Words, Iterator, Answer, index, start, answer, next_from, next, word_ids, seek_from, seek,
  get_each, Collected, push_row, collect_row, collect_rows, collect,
}

if_yes {ℓ} : {A : Type ℓ} {b : Bool} {x : A} (y : A) → b ≡ true → (if b then x else y) ≡ x
if_yes y h = rw h refl

if_no {ℓ} : {A : Type ℓ} {b : Bool} (x : A) {y : A} → b ≡ false → (if b then x else y) ≡ y
if_no x h = rw h refl

module _ (g : Graph) (words : Words) where
  -- Next(nil) gives nil from now on.
  abbrev pub IsOver : Iterator g words → Type 0
  IsOver it = (fuel : ℕ) → next g words fuel none it ≡ done (none, it)

  Ends : Answer g words → Type 0
  Ends (row, it) = row ≡ none → IsOver it

  top-IsOver : (it : Iterator g words) → it.top ≡ true → IsOver it
  unfolding next
  top-IsOver it e fuel = rw e refl

  answer-Ends : (it : Iterator g words) (r : ℕ × Delta g × Machine g) → Ends (answer g words it r)
  unfolding answer Ends
  answer-Ends it (tail, cache, m) = elim (Bool-cases (tail == g.size)) [
    | inl e ↦ rw e (λ h. top-IsOver _ refl)
    | inr e ↦ rw e (λ h. absurd (cc h))
  ]

  pivot-IsOver :
      (it : Iterator g words)
      → it.top || it.empty ≡ false
      → it.bot ≡ false
      → (it.pivot == 0) ≡ true
      → IsOver it
  unfolding next start next_from
  pivot-IsOver it e e1 e2 fuel = rw (e, e1, e2) refl

  from-Ends :
      (fuel : ℕ) (it : Iterator g words)
      → it.top || it.empty ≡ false
      → it.bot ≡ false
      → Holds Ends (next_from g words fuel (start g words none it) it)
  unfolding start next_from Ends
  from-Ends fuel it e e1 = elim (Bool-cases (it.pivot == 0)) [
    | inl e2 ↦ rw e2 (λ h. pivot-IsOver it e e1 e2)
    | inr e2 ↦ rw e2 (
        Holds-after Ends (advance g (tick g fuel) fuel it.pivot it.cache it.machine)
          (λ r. done (answer g words it r)) (λ r. answer-Ends it r))
  ]

  next-live :
      (fuel : ℕ) (goal : Option Term) (it : Iterator g words)
      → it.top || it.empty ≡ false
      → it.bot ≡ false
      → next g words fuel goal it ≡ next_from g words fuel (start g words goal it) it
  unfolding next
  next-live fuel goal it e e1 = if_no _ e ∙ if_no _ e1

  next-bot :
      (fuel : ℕ) (goal : Option Term) (it : Iterator g words)
      → it.top || it.empty ≡ false
      → it.bot ≡ true
      → next g words fuel goal it ≡ done (some (index g words it), record it { bot = false })
  unfolding next
  next-bot fuel goal it e e1 = if_no _ e ∙ if_yes _ e1

  next-dead :
      (fuel : ℕ) (goal : Option Term) (it : Iterator g words)
      → it.top || it.empty ≡ true
      → next g words fuel goal it ≡ done (none, it)
  unfolding next
  next-dead fuel goal it e = if_yes _ e

  next-Ends : (fuel : ℕ) (it : Iterator g words) → Holds Ends (next g words fuel none it)
  unfolding Ends
  next-Ends fuel it = elim (Bool-cases (it.top || it.empty)) [
    | inl e ↦
        subst (Holds Ends) (sym (next-dead fuel none it e)) (λ h fuel1. next-dead fuel1 none it e)
    | inr e ↦ elim (Bool-cases it.bot) [
      | inl e1 ↦ subst (Holds Ends) (sym (next-bot fuel none it e e1)) (λ h. absurd (cc h))
      | inr e1 ↦ subst (Holds Ends) (sym (next-live fuel none it e e1)) (from-Ends fuel it e e1)
    ]
  ]

  -- Once Next(nil) has given nil without an error, it gives nil again whenever it is called, and leaves
  -- the iterator as it is.
  pub next-IsOver :
      (fuel : ℕ) (it it1 : Iterator g words)
      → next g words fuel none it ≡ done (none, it1)
      → IsOver it1
  unfolding Ends
  next-IsOver fuel it it1 e = Holds-done Ends (next g words fuel none it) (next-Ends fuel it) e refl

  Rewound : Iterator g words → Iterator g words → Type 0
  Rewound it it1 = (it1.bot ≡ true) × (it1.top || it1.empty ≡ false)

  seek-Rewound :
      (fuel : ℕ) (path : List Term) (it : Iterator g words)
      → it.empty ≡ false
      → Holds (Rewound it) (seek g words fuel path it)
  unfolding seek Rewound
  seek-Rewound fuel path it live = subst (Holds (Rewound it)) (sym (if_no _ live)) (
      Holds-after (Rewound it) (lift (word_ids g words path)) _ λ terms.
        Holds-after (Rewound it) (seek_from g words fuel g.size 0 terms it.cache _)
          (λ (cache, m). done (record it { bot = true; top = false; cache = cache; machine = m }))
          (λ (cache, m). (refl, live)))

  -- After a Seek that returns no error, on an iterator that is not empty, Next gives the current index,
  -- whatever node it is given: also where Seek has found no solution from the path on.
  pub next-seek :
      (fuel fuel1 : ℕ) (path : List Term) (node : Option Term) (it it1 : Iterator g words)
      → it.empty ≡ false
      → seek g words fuel path it ≡ done it1
      → next g words fuel1 node it1 ≡ done (some (index g words it1), record it1 { bot = false })
  unfolding Rewound
  next-seek fuel fuel1 path node it it1 live e =
      let (bot, low) =
        Holds-done (Rewound it) (seek g words fuel path it) (seek-Rewound fuel path it live) e in
      next-bot fuel1 node it1 low bot

  Exhausts : Collected g words → Type 0
  Exhausts (rows, o) = (it : Iterator g words) → o ≡ some it → IsOver it

  row-Exhausts :
      (row : List (Option Term)) (c : Collected g words)
      → Exhausts c
      → Exhausts (push_row g words row c)
  unfolding Exhausts
  row-Exhausts row (rows, o) h = h

  collect_row-Exhausts :
      (r : Outcome (Answer g words)) (rest : Iterator g words → Outcome (Collected g words))
      → Holds Ends r
      → ((it : Iterator g words) → Holds Exhausts (rest it))
      → Holds Exhausts (collect_row g words r rest)
  unfolding Ends Exhausts collect_row
  collect_row-Exhausts out_of_fuel rest h k = tt
  collect_row-Exhausts (failed e) rest h k = λ it e'. absurd (cc e')
  collect_row-Exhausts (done (none, it)) rest h k =
      λ it1 e. subst IsOver (some-injective it it1 e) (h refl)
  collect_row-Exhausts (done (some row, it)) rest h k =
      Holds-bind Exhausts Exhausts (rest it)
        (λ c. done (push_row g words (get_each g words row it) c)) (k it)
        (λ c h'. row-Exhausts (get_each g words row it) c h')

  rows-Exhausts :
      (fuel n : ℕ) (it : Iterator g words) → Holds Exhausts (collect_rows g words fuel n it)
  unfolding collect_rows
  rows-Exhausts fuel zero it = tt
  rows-Exhausts fuel (suc n) it =
      collect_row-Exhausts (next g words fuel none it) (λ it1. collect_rows g words fuel n it1)
        (next-Ends fuel it) (λ it1. rows-Exhausts fuel n it1)

  collect-Exhausts : (fuel : ℕ) (it : Iterator g words) → Holds Exhausts (collect g words fuel it)
  unfolding collect Exhausts
  collect-Exhausts fuel it = elim (Bool-cases it.empty) [
    | inl e ↦ subst (Holds Exhausts) (sym (if_yes _ e)) λ it1 e1.
        subst IsOver (some-injective it it1 e1)
          (λ fuel1. next-dead fuel1 none it (ground (arith, e)))
    | inr e ↦ subst (Holds Exhausts) (sym (if_no _ e)) (rows-Exhausts fuel fuel it)
  ]

  -- Where Collect leaves an iterator, it has read all of its solutions: Next(nil) gives nil from then on.
  collect-IsOver :
      (fuel : ℕ) (it it1 : Iterator g words) (rows : List (List (Option Term)))
      → collect g words fuel it ≡ done (rows, some it1)
      → IsOver it1
  unfolding Exhausts
  collect-IsOver fuel it it1 rows e =
      Holds-done Exhausts (collect g words fuel it) (collect-Exhausts fuel it) e it1 refl

  -- Where the first Next of Collect returns an error, Collect returns no row and no error.
  collect_swallows :
      (fuel : ℕ) (it : Iterator g words) (e : Error)
      → it.empty ≡ false
      → next g words (suc fuel) none it ≡ failed e
      → collect g words (suc fuel) it ≡ done ([], none)
  unfolding collect collect_rows collect_row
  collect_swallows fuel it e live h =
      if_no _ live
      ∙ ap (λ r. collect_row g words r (λ it1. collect_rows g words (suc fuel) fuel it1)) h
