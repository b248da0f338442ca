-- ===== src/Util/Escape/Table.antt =====
-- escape, whose five replacements run one after the other, works byte by byte on one table.
use forty_six.Base.{
  ℕ, ◌≡◌, ◌≢◌, refl, sym, ap, ap₂, ◌∙◌, Bool, true, [], ◌∷◌, ◌++◌, append_assoc, arith, Bytes, ◌==◌,
  if◌then◌else◌, All, All-append,
}
use forty_six.Text.{replace}
use forty_six.Util.Escape.{backslash, quote, newline, return, tab, escape}

-- every byte replaced by a text of its own
unfoldable pub spell : (ℕ → Bytes) → Bytes → Bytes
spell f [] = []
spell f (c ∷ s) = f c ++ spell f s

-- the table, where a quote, a newline, a return or a tab is escaped only if its flag is set
abbrev pub flagged : Bool → Bool → Bool → Bool → ℕ → Bytes
flagged q n r t c =
    if c == quote
    then (if q then backslash ∷ quote ∷ [] else quote ∷ [])
    else if c == newline
    then (if n then backslash ∷ b'n' ∷ [] else newline ∷ [])
    else if c == return
    then (if r then backslash ∷ b'r' ∷ [] else return ∷ [])
    else if c == tab
    then (if t then backslash ∷ b't' ∷ [] else tab ∷ [])
    else c ∷ []

abbrev pub escape_byte : ℕ → Bytes
escape_byte c = if c == backslash then backslash ∷ backslash ∷ [] else flagged true true true true c

replace-append :
    (old : ℕ) (new s t : Bytes) → replace old new (s ++ t) ≡ replace old new s ++ replace old new t
unfolding replace
replace-append old new [] t = refl
replace-append old new (c ∷ s) t =
    ap (λ r. (if c == old then new else c ∷ []) ++ r) (replace-append old new s t)
    ∙ sym (append_assoc (if c == old then new else c ∷ []) (replace old new s) (replace old new t))

pub escape-append : (s t : Bytes) → escape (s ++ t) ≡ escape s ++ escape t
escape-append s t = unfold escape in simp replace-append

escape_one : (c : ℕ) → escape (c ∷ []) ≡ escape_byte c
unfolding escape
escape_one c = ground arith

-- escape is one pass over the table.
pub escape-spell : (s : Bytes) → escape s ≡ spell escape_byte s
unfolding spell
escape-spell [] = unfold escape in refl
escape-spell (c ∷ s) = escape-append (c ∷ []) s ∙ ap₂ ◌++◌ (escape_one c) (escape-spell s)

-- An escaped text can stand in a tab-separated line: no byte of it is a tab, a newline or a return.
abbrev pub IsPrintable : ℕ → Type 0
IsPrintable c = (c ≢ tab) × (c ≢ newline) × (c ≢ return)

escape_byte-IsPrintable : (c : ℕ) → All IsPrintable (escape_byte c)
escape_byte-IsPrintable c = ground arith

spell-All : (s : Bytes) → All IsPrintable (spell escape_byte s)
unfolding spell
spell-All [] = tt
spell-All (c ∷ s) =
    All-append IsPrintable (escape_byte c) (spell escape_byte s) (escape_byte-IsPrintable c)
      (spell-All s)

-- An escaped text has no tab, no newline and no return in it.
pub escape-IsPrintable : (s : Bytes) → All IsPrintable (escape s)
escape-IsPrintable s = rw escape-spell (spell-All s)
