-- ===== src/Util/Ids/Decode.antt =====
-- An id can be read back from its text, and the text has only characters of the base64 alphabet.
use mathlib.Core.Option
use mathlib.Core.Option.{some-injective}
use native.Mathlib.Decide.{dec_lt}
use forty_six.Base.{
  ℕ, ◌+◌, ◌-◌, ◌*◌, ◌/◌, ◌%◌, ◌^◌, ◌<◌, ◌≤◌, ◌≡◌, ◌≢◌, ◌↔◌, sym, ap, subst, ◌∙◌, ◌⊎◌, append-nil,
  drop, All-append, [], ◌∷◌, ◌++◌, none, some, Bytes, All, arith, leb, ◌==◌, if◌then◌else◌, lt→ltb,
  le→ltb,
}
use forty_six.Util.Ids.{
  max_6_byte, max_8_byte, base64_digit, encode_group, base64_encode, put_uint32, put_uint64,
  strip_padding, from_uint64,
}

-- the six bits that a character stands for
unfoldable pub base64_value : ℕ → ℕ
base64_value c =
    if leb b'a' c
    then c - b'a' + 26
    else if leb b'A' c
    then c - b'A'
    else if leb b'0' c
    then c - b'0' + 52
    else if c == b'+'
    then 62
    else 63

-- the number that a base64 text spells, behind the number read so far
unfoldable pub read_base64 : ℕ → Bytes → ℕ
unfolding base64_value
read_base64 n [] = n
read_base64 n (c ∷ s) = read_base64 (n * 64 + base64_value c) s

base64_value-base64_digit : (d : ℕ) → d < 64 → base64_value (base64_digit d) ≡ d
unfolding base64_value base64_digit
base64_value-base64_digit d h = ground arith

base64_digit-ne-padding : (d : ℕ) → base64_digit d ≢ b'='
unfolding base64_digit
base64_digit-ne-padding d h = ground arith

read-encode_group :
    (n a b c : ℕ) (s : Bytes)
    → a < 256
    → b < 256
    → c < 256
    → read_base64 n (encode_group a b c ++ s)
      ≡ read_base64 (n * 16777216 + (a * 65536 + b * 256 + c)) s
unfolding encode_group read_base64
read-encode_group n a b c s ha hb hc =
    let v = a * 65536 + b * 256 + c in
    rw
      (
        base64_value-base64_digit (v / 262144 % 64) (omega arith),
        base64_value-base64_digit (v / 4096 % 64) (omega arith),
        base64_value-base64_digit (v / 64 % 64) (omega arith),
        base64_value-base64_digit (v % 64) (omega arith),
      )
      (ap (λ m. read_base64 m s) (omega arith))

strip_padding_four : (a b c : ℕ) → strip_padding (encode_group a b c) ≡ encode_group a b c
unfolding strip_padding encode_group
strip_padding_four a b c =
    let v = a * 65536 + b * 256 + c in
    ground (arith, base64_digit-ne-padding (v / 64 % 64), base64_digit-ne-padding (v % 64))

strip_padding_eight :
    (a b c d e f : ℕ)
    → strip_padding (encode_group a b c ++ encode_group d e f)
      ≡ encode_group a b c ++ encode_group d e f
unfolding strip_padding encode_group
strip_padding_eight a b c d e f =
    let v = d * 65536 + e * 256 + f in
    ground (arith, base64_digit-ne-padding (v / 64 % 64), base64_digit-ne-padding (v % 64))

encode_short :
    (id : ℕ)
    → strip_padding (base64_encode (drop 1 (put_uint32 id)))
      ≡ encode_group (id / 2 ^ 16 % 256) (id / 2 ^ 8 % 256) (id % 256)
unfolding base64_encode put_uint32
encode_short id = rw append-nil (strip_padding_four _ _ _)

encode_long :
    (id : ℕ)
    → let hi = id / 2 ^ 32 in
      let lo = id % 2 ^ 32 in
      strip_padding (base64_encode (drop 2 (put_uint64 id)))
      ≡ encode_group (hi / 2 ^ 8 % 256) (hi % 256) (lo / 2 ^ 24 % 256)
        ++ encode_group (lo / 2 ^ 16 % 256) (lo / 2 ^ 8 % 256) (lo % 256)
unfolding base64_encode put_uint64
encode_long id = rw append-nil (strip_padding_eight _ _ _ _ _ _)

-- The text of an id below 2^24, and of any other below 2^48.
from_uint64_short :
    (id : ℕ)
    → id < max_6_byte
    → from_uint64 id ≡ some (strip_padding (base64_encode (drop 1 (put_uint32 id))))
unfolding from_uint64
from_uint64_short id h = let e : id % 2 ^ 32 ≡ id = omega arith in rw (lt→ltb id max_6_byte h, e)

from_uint64_long :
    (id : ℕ)
    → max_6_byte ≤ id
    → id < max_8_byte
    → from_uint64 id ≡ some (strip_padding (base64_encode (drop 2 (put_uint64 id))))
unfolding from_uint64
from_uint64_long id l h = rw (le→ltb id max_6_byte l, lt→ltb id max_8_byte h)

read_group :
    (n a b c : ℕ)
    → a < 256
    → b < 256
    → c < 256
    → read_base64 n (encode_group a b c) ≡ n * 16777216 + (a * 65536 + b * 256 + c)
unfolding read_base64
read_group n a b c ha hb hc = rw append-nil at (read-encode_group n a b c [] ha hb hc)

read_short :
    (id : ℕ)
    → id < max_6_byte
    → read_base64 0 (strip_padding (base64_encode (drop 1 (put_uint32 id)))) ≡ id
read_short id h =
    rw (encode_short id)
      (read_group 0 _ _ _ (omega arith) (omega arith) (omega arith) ∙ omega arith)

read_long :
    (id : ℕ)
    → id < max_8_byte
    → read_base64 0 (strip_padding (base64_encode (drop 2 (put_uint64 id)))) ≡ id
read_long id h = rw (encode_long id) (
    read-encode_group 0 _ _ _ _ (omega arith) (omega arith) (omega arith)
    ∙ read_group _ _ _ _ (omega arith) (omega arith) (omega arith)
    ∙ omega arith)

-- Every id below 2^48 has a text, from which the number is read back.
pub read-from_uint64 :
    (id : ℕ) → id < max_8_byte → Option.map (read_base64 0) (from_uint64 id) ≡ some id
read-from_uint64 id h = elim (dec_lt id max_6_byte) [
  | yes p ↦ rw (from_uint64_short id p) (ap some (read_short id p))
  | no p ↦ rw (from_uint64_long id (omega arith) h) (ap some (read_long id h))
]

has_text : (id : ℕ) → from_uint64 id ≡ none → max_8_byte ≤ id
has_text id e = elim (dec_lt id max_8_byte) [
  | yes p ↦ absurd (cc (ap (Option.map (read_base64 0)) e, read-from_uint64 id p))
  | no p ↦ omega arith
]

-- Exactly the ids from 2^48 on end in the index panic.
pub from_uint64-none : (id : ℕ) → (from_uint64 id ≡ none) ↔ (max_8_byte ≤ id)
unfolding from_uint64
from_uint64-none id =
    (has_text id, λ h. rw (le→ltb id max_6_byte (omega arith), le→ltb id max_8_byte h))

-- a letter, a digit, + or /
abbrev pub IsBase64 : ℕ → Type 0
IsBase64 c =
    ((b'A' ≤ c) × (c ≤ b'Z'))
    ⊎ ((b'a' ≤ c) × (c ≤ b'z'))
    ⊎ ((b'0' ≤ c) × (c ≤ b'9'))
    ⊎ (c ≡ b'+')
    ⊎ (c ≡ b'/')

base64_digit-IsBase64 : (d : ℕ) → d < 64 → IsBase64 (base64_digit d)
unfolding base64_digit
base64_digit-IsBase64 d h = ground arith

encode_group-IsBase64 : (a b c : ℕ) → All IsBase64 (encode_group a b c)
unfolding encode_group
encode_group-IsBase64 a b c =
    let v = a * 65536 + b * 256 + c in
    (
      base64_digit-IsBase64 (v / 262144 % 64) (omega arith),
      (
        base64_digit-IsBase64 (v / 4096 % 64) (omega arith),
        (
          base64_digit-IsBase64 (v / 64 % 64) (omega arith),
          (base64_digit-IsBase64 (v % 64) (omega arith), tt),
        ),
      ),
    )

-- The text of an id has only characters of the base64 alphabet, so none of the tab, newline, hash,
-- question mark and quote that separate the parts of terms and index entries.
pub from_uint64-IsBase64 : (id : ℕ) {text : Bytes} → from_uint64 id ≡ some text → All IsBase64 text
from_uint64-IsBase64 id {text} h = elim (dec_lt id max_6_byte) [
  | yes p ↦
      subst (All IsBase64) (some-injective _ _ (sym (from_uint64_short id p) ∙ h))
        (rw (encode_short id) (encode_group-IsBase64 _ _ _))
  | no p ↦ elim (dec_lt id max_8_byte) [
    | yes q ↦
        subst (All IsBase64) (some-injective _ _ (sym (from_uint64_long id (omega arith) q) ∙ h)) (
          rw (encode_long id) (
            All-append IsBase64 (encode_group _ _ _) (encode_group _ _ _)
              (encode_group-IsBase64 _ _ _) (encode_group-IsBase64 _ _ _)))
    | no q ↦ absurd (cc ((from_uint64-none id).1 (omega arith), h))
  ]
]
