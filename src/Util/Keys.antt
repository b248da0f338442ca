-- ===== src/Util/Keys.antt =====
-- assembleKey of util.go, and the prefixes of constants.go.
pub mod Layout
pub mod Scan
use forty_six.Base.{
  ℕ, suc, ◌+◌, Bool, true, false, List, [], ◌∷◌, ◌++◌, Bytes, length, get_or, ltb, if◌then◌else◌,
}

abbrev pub tab : ℕ
tab = b'\t'

-- constants.go: the first byte of each kind of key.
abbrev pub dataset_prefix : ℕ
dataset_prefix = b':'

abbrev pub value_to_id_prefix : ℕ
value_to_id_prefix = b'>'

abbrev pub id_to_value_prefix : ℕ
id_to_value_prefix = b'<'

abbrev pub unary_prefix : ℕ
unary_prefix = b'u'

abbrev pub ternary_prefixes : List ℕ
ternary_prefixes = b'a' ∷ b'b' ∷ b'c' ∷ []

abbrev pub binary_prefixes : List ℕ
binary_prefixes = b'i' ∷ b'j' ∷ b'k' ∷ b'l' ∷ b'm' ∷ b'n' ∷ []

-- TernaryPrefixes[p] and BinaryPrefixes[p]; an index past the end, which Go refuses, reads as 0.
abbrev pub ternary_prefix : ℕ → ℕ
ternary_prefix p = get_or ternary_prefixes p 0

abbrev pub binary_prefix : ℕ → ℕ
binary_prefix p = get_or binary_prefixes p 0

-- The first loop of assembleKey: the room for the terms, each behind one more byte.
pub room : List Bytes → ℕ
room [] = 0
room (t ∷ ts) = 1 + length t + room ts

-- The second loop, from index `i` of a key of `l` bytes.
write_terms : ℕ → ℕ → List Bytes → Bytes
write_terms l i [] = []
write_terms l i (t ∷ ts) =
    let j = i + length t in
    let more = t ++ tab ∷ write_terms l (j + 1) ts in
    let done = t ++ write_terms l j ts in if ltb j l then more else done

-- assembleKey. Every caller passes at least one term: with no term and no tail Go's key is empty,
-- and `key[0] = prefix` would panic.
unfoldable pub assemble_key : ℕ → Bool → List Bytes → Bytes
unfolding room write_terms
assemble_key prefix tail terms = prefix ∷ write_terms (room terms + (if tail then 1 else 0)) 1 terms
