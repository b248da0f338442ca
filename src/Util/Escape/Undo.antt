-- ===== src/Util/Escape/Undo.antt =====
-- What unescape makes of an escaped text.
use mathlib.Core.List.{append_inj}
use forty_six.Base.{
  ℕ, ◌≡◌, ◌≢◌, refl, sym, ◌∙◌, ◌⊎◌, inl, inr, [], ◌∷◌, ◌++◌, arith, Bytes, ◌==◌, if◌then◌else◌,
  Lacks,
}
use forty_six.Text.{replace_pair}
use forty_six.Util.Escape.{backslash, newline, return, tab, escape, unescape}
use forty_six.Util.Escape.Table.{escape-spell, escape-append}
use forty_six.Util.Escape.Stages.{
  Unambiguous, undo, undo-append, halve, halve-append, quote-Undoes, newline-Undoes, return-Undoes,
  tab-Undoes, spell_plain,
}

-- unescape undoes escape on every text in which no backslash stands directly in front of an n, an r
-- or a t.
pub unescape-escape : (s : Bytes) → Unambiguous s → unescape (escape s) ≡ s
unescape-escape s h =
    unfold unescape in
    rw
      (
        escape-spell,
        halve,
        undo _ _ _ _ s quote-Undoes h,
        undo _ _ _ _ s newline-Undoes h,
        undo _ _ _ _ s return-Undoes h,
        undo _ _ _ _ s tab-Undoes h,
      )
      (spell_plain s)

module _ (y : ℕ) (new : Bytes) where
  pass :
      (c : ℕ) (rest : Bytes)
      → c ≢ backslash
      → replace_pair backslash y new (c ∷ rest) ≡ c ∷ replace_pair backslash y new rest
  unfolding replace_pair
  pass c [] h = refl
  pass c (d ∷ rest) h = ground arith

confused_newline :
    (rest : Bytes) → unescape (backslash ∷ backslash ∷ b'n' ∷ rest) ≡ newline ∷ unescape rest
unfolding unescape replace_pair
confused_newline rest = rw (
  pass _ _ b'n' _ (omega arith),
  pass _ _ b'n' _ (omega arith),
  pass _ _ newline _ (omega arith),
  pass _ _ newline _ (omega arith),
)

confused_return :
    (rest : Bytes) → unescape (backslash ∷ backslash ∷ b'r' ∷ rest) ≡ return ∷ unescape rest
unfolding unescape replace_pair
confused_return rest = rw (
  pass _ _ b'r' _ (omega arith),
  pass _ _ b'r' _ (omega arith),
  pass _ _ b'r' _ (omega arith),
  pass _ _ return _ (omega arith),
)

confused_tab : (rest : Bytes) → unescape (backslash ∷ backslash ∷ b't' ∷ rest) ≡ tab ∷ unescape rest
unfolding unescape replace_pair
confused_tab rest = rw (
  pass _ _ b't' _ (omega arith),
  pass _ _ b't' _ (omega arith),
  pass _ _ b't' _ (omega arith),
  pass _ _ b't' _ (omega arith),
)

unescape_plain :
    (s rest : Bytes) → Lacks backslash s → unescape (escape s ++ rest) ≡ s ++ unescape rest
unescape_plain s rest h =
    unfold unescape in
    rw (
      escape-spell,
      halve-append,
      undo-append _ _ _ _ s _ quote-Undoes h,
      undo-append _ _ _ _ s _ newline-Undoes h,
      undo-append _ _ _ _ s _ return-Undoes h,
      undo-append _ _ _ _ s _ tab-Undoes h,
      spell_plain,
    )

abbrev pub IsControlLetter : ℕ → Type 0
IsControlLetter x = (x ≡ b'n') ⊎ (x ≡ b'r') ⊎ (x ≡ b't')

-- the control character that the letter is taken for
abbrev pub control : ℕ → ℕ
control x = if x == b'n' then newline else if x == b'r' then return else tab

escape_pair :
    (x : ℕ) → IsControlLetter x → escape (backslash ∷ x ∷ []) ≡ backslash ∷ backslash ∷ x ∷ []
unfolding escape
escape_pair x h = ground arith

confused :
    (x : ℕ) (rest : Bytes)
    → IsControlLetter x
    → unescape (backslash ∷ backslash ∷ x ∷ rest) ≡ control x ∷ unescape rest
confused x rest (inl e) = rw e (confused_newline rest)
confused x rest (inr (inl e)) = rw e (confused_return rest)
confused x rest (inr (inr e)) = rw e (confused_tab rest)

unescape_ambiguous_value :
    (pre : Bytes) (x : ℕ) (post : Bytes)
    → Lacks backslash pre
    → IsControlLetter x
    → unescape (escape (pre ++ backslash ∷ x ∷ post)) ≡ pre ++ control x ∷ unescape (escape post)
unescape_ambiguous_value pre x post h hx = rw (
  escape-append,
  unescape_plain pre _ h,
  escape-append (backslash ∷ x ∷ []) post,
  escape_pair x hx,
  confused x (escape post) hx,
)

control-ne-backslash :
    (x : ℕ) (s t : Bytes) → IsControlLetter x → ◌≢◌ {A = Bytes} (control x ∷ s) (backslash ∷ t)
control-ne-backslash x s t h e = ground arith

-- A backslash in front of an n, an r or a t is lost: behind a text with no other backslash, the pair
-- comes back as a newline, a return or a tab, so the text is not the one that was escaped.
pub unescape_ambiguous :
    (pre : Bytes) (x : ℕ) (post : Bytes)
    → Lacks backslash pre
    → IsControlLetter x
    → (unescape (escape (pre ++ backslash ∷ x ∷ post)) ≡ pre ++ control x ∷ unescape (escape post))
      × (unescape (escape (pre ++ backslash ∷ x ∷ post)) ≢ pre ++ backslash ∷ x ∷ post)
unescape_ambiguous pre x post h hx =
    let value = unescape_ambiguous_value pre x post h hx in
    (value, λ e. control-ne-backslash x _ _ hx (append_inj (sym value ∙ e) refl).1)
