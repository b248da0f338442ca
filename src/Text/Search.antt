-- ===== src/Text/Search.antt =====
-- LastIndexByte: the text behind the last separator.
use forty_six.Base.{ℕ, ◌≡◌, refl, true, [], ◌∷◌, ◌++◌, arith, Bytes, Lacks}
use forty_six.Text.{after_last, has_prefix}

module _ (c : ℕ) where
  pub after_last_none : (s found : Bytes) → Lacks c s → after_last c s found ≡ found
  unfolding after_last
  after_last_none [] found h = refl
  after_last_none (x ∷ s) found (hx, h) = ground (arith, after_last_none s found h)

  pub after_last-append : (s t found : Bytes) → Lacks c t → after_last c (s ++ c ∷ t) found ≡ t
  unfolding after_last
  after_last-append [] t found h = ground (arith, after_last_none t t h)
  after_last-append (x ∷ s) t found h = after_last-append s t _ h

pub has_prefix_self : (a s : Bytes) → has_prefix a (a ++ s) ≡ true
unfolding has_prefix
has_prefix_self [] s = refl
has_prefix_self (x ∷ a) s = ground (arith, has_prefix_self a s)
