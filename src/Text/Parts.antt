-- ===== src/Text/Parts.antt =====
-- Split and Join undo one another.
use forty_six.Base.{ℕ, ◌≡◌, ◌≢◌, refl, ap, ◌∙◌, List, [], ◌∷◌, ◌++◌, arith, Bytes, All, Lacks}
use forty_six.Text.{push_head, split, join}

module _ (sep : ℕ) where
  -- A separator ends the part in front of it.
  pub split-append :
      (p rest : Bytes) → Lacks sep p → split sep (p ++ sep ∷ rest) ≡ p ∷ split sep rest
  unfolding split
  split-append [] rest h = ground arith
  split-append (c ∷ p) rest (hc, hp) = ground (arith, split-append p rest hp)

  pub split_one : (p : Bytes) → Lacks sep p → split sep p ≡ p ∷ []
  unfolding split
  split_one [] h = refl
  split_one (c ∷ p) (hc, hp) = ground (arith, split_one p hp)

  pub split-join : (ps : List Bytes) → ps ≢ [] → All (Lacks sep) ps → split sep (join sep ps) ≡ ps
  unfolding join
  split-join [] h _ = absurd (h refl)
  split-join (p ∷ []) h (hp, _) = split_one p hp
  split-join (p ∷ q ∷ ps) h (hp, hs) =
      split-append p (join sep (q ∷ ps)) hp ∙ ap (λ r. p ∷ r) (split-join (q ∷ ps) (cc) hs)

  push_head-join : (c : ℕ) (ps : List Bytes) → join sep (push_head c ps) ≡ c ∷ join sep ps
  unfolding join push_head
  push_head-join c [] = refl
  push_head-join c (p ∷ []) = refl
  push_head-join c (p ∷ q ∷ ps) = refl

  split-ne-nil : (s : Bytes) → split sep s ≢ []
  unfolding split
  split-ne-nil [] = cc
  split-ne-nil (c ∷ s) = ground (arith, split-ne-nil s)
