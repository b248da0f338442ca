-- ===== src/Util/Ids.antt =====
-- fromUint64 of util.go: the base64 text of a number, in four characters or in eight.
pub mod Decode
use forty_six.Base.{
  ℕ, ◌+◌, ◌-◌, ◌*◌, ◌/◌, ◌%◌, ◌^◌, List, [], ◌∷◌, ◌++◌, Option, none, some, Bytes, length, take,
  drop, get_or, ltb, ◌==◌, if◌then◌else◌,
}

abbrev pub max_6_byte : ℕ
max_6_byte = 16777216

abbrev pub max_8_byte : ℕ
max_8_byte = 281474976710656

-- base64.StdEncoding: the character for six bits.
base64_digit : ℕ → ℕ
base64_digit d =
    if ltb d 26
    then d + b'A'
    else if ltb d 52
    then d - 26 + b'a'
    else if ltb d 62
    then d - 52 + b'0'
    else if d == 62
    then b'+'
    else b'/'

encode_group : ℕ → ℕ → ℕ → Bytes
encode_group a b c =
    let v = a * 65536 + b * 256 + c in
    base64_digit (v / 262144 % 64)
    ∷ base64_digit (v / 4096 % 64)
    ∷ base64_digit (v / 64 % 64)
    ∷ base64_digit (v % 64)
    ∷ []

-- base64.StdEncoding.Encode of whole groups of three bytes, which is all that fromUint64 encodes. A
-- group that is cut short is left out.
base64_encode : Bytes → Bytes
base64_encode (a ∷ b ∷ c ∷ rest) = encode_group a b c ++ base64_encode rest
base64_encode _ = []

-- binary.BigEndian.PutUint32 and PutUint64 into a fresh buffer.
unfoldable pub put_uint32 : ℕ → Bytes
put_uint32 n = n / 2 ^ 24 % 256 ∷ n / 2 ^ 16 % 256 ∷ n / 2 ^ 8 % 256 ∷ n % 256 ∷ []

put_uint64 : ℕ → Bytes
unfolding put_uint32
put_uint64 n = put_uint32 (n / 2 ^ 32) ++ put_uint32 (n % 2 ^ 32)

-- The padding test at the end, on a text of at least two characters.
strip_padding : Bytes → Bytes
strip_padding res =
    let l = length res in
    if get_or res (l - 2) 0 == b'='
    then take (l - 2) res
    else if get_or res (l - 1) 0 == b'='
    then take (l - 1) res
    else res

-- `none` is the index panic of `res[l-2]` on the empty buffer, at an id that takes more than six
-- bytes. uint32(id) keeps the low 32 bits.
unfoldable pub from_uint64 : ℕ → Option Bytes
unfolding base64_digit encode_group base64_encode put_uint32 put_uint64 strip_padding
from_uint64 id =
    if ltb id max_6_byte
    then some (strip_padding (base64_encode (drop 1 (put_uint32 (id % 2 ^ 32)))))
    else if ltb id max_8_byte
    then some (strip_padding (base64_encode (drop 2 (put_uint64 id))))
    else none
