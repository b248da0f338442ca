-- ===== src/Text.antt =====
-- What the program uses of Go's package strings, on byte strings: Split, Join, HasPrefix, Index of a
-- single byte and of a text, LastIndexByte, TrimSuffix, and Replace of one byte or of a pair.
pub mod Parts
pub mod Search
use forty_six.Base.{
  ℕ, suc, ◌+◌, Bool, true, false, ◌&&◌, Option, none, some, List, [], ◌∷◌, ◌++◌, Bytes, ◌==◌,
  if◌then◌else◌,
}

push_head : ℕ → List Bytes → List Bytes
push_head c [] = (c ∷ []) ∷ []
push_head c (p ∷ ps) = (c ∷ p) ∷ ps

-- strings.Split(s, sep) for a separator of one byte: always at least one part.
unfoldable pub split : ℕ → Bytes → List Bytes
unfolding push_head
split sep [] = [] ∷ []
split sep (c ∷ s) = let rest = split sep s in if c == sep then [] ∷ rest else push_head c rest

-- strings.Join(parts, sep).
unfoldable pub join : ℕ → List Bytes → Bytes
join sep [] = []
join sep (p ∷ []) = p
join sep (p ∷ q ∷ ps) = p ++ sep ∷ join sep (q ∷ ps)

-- strings.HasPrefix(s, prefix).
unfoldable pub has_prefix : Bytes → Bytes → Bool
has_prefix [] s = true
has_prefix (x ∷ p) [] = false
has_prefix (x ∷ p) (y ∷ s) = x == y && has_prefix p s

pub bump : Option ℕ → Option ℕ
bump none = none
bump (some i) = some (suc i)

-- strings.IndexByte(s, c): `none` is Go's -1.
unfoldable pub index_byte : ℕ → Bytes → Option ℕ
unfolding bump
index_byte c [] = none
index_byte c (x ∷ s) = let rest = bump (index_byte c s) in if x == c then some 0 else rest

-- strings.Index(s, text).
unfoldable pub index : Bytes → Bytes → Option ℕ
unfolding has_prefix bump
index text [] = if has_prefix text [] then some 0 else none
index text (x ∷ s) =
    let rest = bump (index text s) in if has_prefix text (x ∷ s) then some 0 else rest

-- The text behind the last `c`, and the whole text where there is none.
unfoldable pub after_last : ℕ → Bytes → Bytes → Bytes
after_last c [] found = found
after_last c (x ∷ s) found = after_last c s (if x == c then s else found)

-- strings.Replace(s, old, new, -1) for an `old` of one byte.
unfoldable pub replace : ℕ → Bytes → Bytes → Bytes
replace old new [] = []
replace old new (x ∷ s) = (if x == old then new else x ∷ []) ++ replace old new s

-- strings.Replace(s, old, new, -1) for an `old` of two bytes: from the left, without overlap.
unfoldable pub replace_pair : ℕ → ℕ → Bytes → Bytes → Bytes
replace_pair a b new [] = []
replace_pair a b new (x ∷ []) = x ∷ []
replace_pair a b new (x ∷ y ∷ s) =
    let hit = new ++ replace_pair a b new s in
    let miss = x ∷ replace_pair a b new (y ∷ s) in if x == a && y == b then hit else miss
