-- ===== src/Util/Escape/Stages.antt =====
-- Each replacement of unescape undoes one kind of escape, where it meets no other pair by accident.
use forty_six.Base.{
  ℕ, ◌≡◌, ◌≢◌, refl, ap, ◌∙◌, true, false, [], ◌∷◌, ◌++◌, append_assoc, arith, Bytes, ◌==◌,
  Bool-cases, inl, inr, ==_iff, Lacks,
}
use forty_six.Text.{replace_pair}
use forty_six.Util.Escape.{backslash, quote, newline, return, tab}
use forty_six.Util.Escape.Table.{spell, flagged, escape_byte}

-- the letters that a backslash turns into a control character
abbrev pub IsLetter : ℕ → Type 0
IsLetter c = (c ≢ b'n') × (c ≢ b'r') × (c ≢ b't')

abbrev pub NoLetter : Bytes → Type 0
NoLetter [] = Unit
NoLetter (c ∷ s) = IsLetter c

-- No backslash stands directly in front of an n, an r or a t.
abbrev pub Unambiguous : Bytes → Type 0
Unambiguous [] = Unit
Unambiguous (c ∷ s) = (c ≡ backslash → NoLetter s) × Unambiguous s

-- One replacement takes the table `f` to the table `g`.
pub record Undoes (y : ℕ) (new : Bytes) (f g : ℕ → Bytes) : Type 0 where
  -- a byte that is no backslash, whatever follows
  pub other :
      (c : ℕ) (rest : Bytes)
      → c ≢ backslash
      → replace_pair backslash y new (f c ++ rest) ≡ g c ++ replace_pair backslash y new rest
  -- a backslash in front of such a byte
  pub before :
      (c : ℕ) (rest : Bytes)
      → IsLetter c
      → replace_pair backslash y new (backslash ∷ (f c ++ rest))
        ≡ backslash ∷ replace_pair backslash y new (f c ++ rest)
  pub from_backslash : f backslash ≡ backslash ∷ []
  pub to_backslash : g backslash ≡ backslash ∷ []

undo_backslash :
    (y : ℕ) (new : Bytes) (f g : ℕ → Bytes) (s : Bytes)
    → Undoes y new f g
    → NoLetter s
    → replace_pair backslash y new (spell f s) ≡ spell g s
    → replace_pair backslash y new (backslash ∷ spell f s) ≡ backslash ∷ spell g s
unfolding spell
undo_backslash y new f g [] u h e = unfold replace_pair in refl
undo_backslash y new f g (c ∷ s) u h e = u.before c (spell f s) h ∙ ap (λ r. backslash ∷ r) e

pub undo :
    (y : ℕ) (new : Bytes) (f g : ℕ → Bytes) (s : Bytes)
    → Undoes y new f g
    → Unambiguous s
    → replace_pair backslash y new (spell f s) ≡ spell g s
unfolding spell
undo y new f g [] u h = unfold replace_pair in refl
undo y new f g (c ∷ s) u (hc, hs) = elim (Bool-cases (c == backslash)) [
  | inl e ↦
      let at : c ≡ backslash = (==_iff c backslash).0 e in
      rw (at, u.from_backslash, u.to_backslash)
        (undo_backslash y new f g s u (hc at) (undo y new f g s u hs))
  | inr e ↦ u.other c (spell f s) (ground arith) ∙ ap (λ r. g c ++ r) (undo y new f g s u hs)
]

-- The quotes, the newlines, the returns and the tabs come back in turn.
pub quote-Undoes :
    Undoes quote (quote ∷ []) (flagged true true true true) (flagged false true true true)
unfolding replace_pair
quote-Undoes = record {
  other = λ c rest h. ground arith;
  before = λ c rest h. ground arith;
  from_backslash = refl;
  to_backslash = refl;
}

pub newline-Undoes :
    Undoes b'n' (newline ∷ []) (flagged false true true true) (flagged false false true true)
unfolding replace_pair
newline-Undoes = record {
  other = λ c rest h. ground arith;
  before = λ c rest h. ground arith;
  from_backslash = refl;
  to_backslash = refl;
}

pub return-Undoes :
    Undoes b'r' (return ∷ []) (flagged false false true true) (flagged false false false true)
unfolding replace_pair
return-Undoes = record {
  other = λ c rest h. ground arith;
  before = λ c rest h. ground arith;
  from_backslash = refl;
  to_backslash = refl;
}

pub tab-Undoes :
    Undoes b't' (tab ∷ []) (flagged false false false true) (flagged false false false false)
unfolding replace_pair
tab-Undoes = record {
  other = λ c rest h. ground arith;
  before = λ c rest h. ground arith;
  from_backslash = refl;
  to_backslash = refl;
}

halve_byte :
    (c : ℕ) (rest : Bytes)
    → replace_pair backslash backslash (backslash ∷ []) (escape_byte c ++ rest)
      ≡ flagged true true true true c ++ replace_pair backslash backslash (backslash ∷ []) rest
unfolding replace_pair
halve_byte c rest = ground arith

-- The first replacement halves the doubled backslashes, in every text.
pub halve :
    (s : Bytes)
    → replace_pair backslash backslash (backslash ∷ []) (spell escape_byte s)
      ≡ spell (flagged true true true true) s
unfolding spell
halve [] = unfold replace_pair in refl
halve (c ∷ s) =
    halve_byte c (spell escape_byte s) ∙ ap (λ r. flagged true true true true c ++ r) (halve s)

pub spell_plain : (s : Bytes) → spell (flagged false false false false) s ≡ s
unfolding spell
spell_plain [] = refl
spell_plain (c ∷ s) = ground (arith, spell_plain s)

-- In front of any rest, a text without a backslash passes each replacement by itself.
pub undo-append :
    (y : ℕ) (new : Bytes) (f g : ℕ → Bytes) (s rest : Bytes)
    → Undoes y new f g
    → Lacks backslash s
    → replace_pair backslash y new (spell f s ++ rest)
      ≡ spell g s ++ replace_pair backslash y new rest
unfolding spell
undo-append y new f g [] rest u h = refl
undo-append y new f g (c ∷ s) rest u (hc, hs) =
    rw (append_assoc (f c) (spell f s) rest, append_assoc (g c) (spell g s))
      (u.other c (spell f s ++ rest) hc ∙ ap (λ r. g c ++ r) (undo-append y new f g s rest u hs))

pub halve-append :
    (s rest : Bytes)
    → replace_pair backslash backslash (backslash ∷ []) (spell escape_byte s ++ rest)
      ≡ spell (flagged true true true true) s
        ++ replace_pair backslash backslash (backslash ∷ []) rest
unfolding spell
halve-append [] rest = refl
halve-append (c ∷ s) rest =
    rw
      (
        append_assoc (escape_byte c) (spell escape_byte s) rest,
        append_assoc (flagged true true true true c) (spell (flagged true true true true) s),
      )
      (halve_byte c (spell escape_byte s ++ rest)
        ∙ ap (λ r. flagged true true true true c ++ r) (halve-append s rest))
