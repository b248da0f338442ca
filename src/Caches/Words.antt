-- ===== src/Caches/Words.antt =====
-- binary.BigEndian.PutUint32 and Uint32, and the six counts of a unary entry.
use forty_six.Base.{
  ℕ, ◌+◌, ◌*◌, ◌^◌, ◌<◌, ◌≡◌, ◌≢◌, refl, ap, ap₂, List, [], ◌∷◌, ◌++◌, arith, Bytes, length, All,
  Result, ok, err, key_not_found, unexpected_value, ◌==◌, if◌then◌else◌,
}
use forty_six.Util.Ids.{put_uint32}

abbrev pub uint32 : ℕ → ℕ → ℕ → ℕ → ℕ
uint32 a b c d = a * 2 ^ 24 + b * 2 ^ 16 + c * 2 ^ 8 + d

-- The counts of the loop `result[i] = binary.BigEndian.Uint32(val[i*4 : (i+1)*4])`, over a value of
-- whole words.
unfoldable pub get_words : Bytes → List ℕ
get_words (a ∷ b ∷ c ∷ d ∷ rest) = uint32 a b c d ∷ get_words rest
get_words _ = []

unfoldable pub put_words : List ℕ → Bytes
put_words [] = []
put_words (n ∷ ns) = put_uint32 n ++ put_words ns

abbrev pub IsWord : ℕ → Type 0
IsWord n = n < 2 ^ 32

get-put_words : (ns : List ℕ) → All IsWord ns → get_words (put_words ns) ≡ ns
unfolding get_words put_words put_uint32
get-put_words [] h = refl
get-put_words (n ∷ ns) (hn, h) = ap₂ ◌∷◌ (omega arith) (get-put_words ns h)

length-put_words : (ns : List ℕ) → length (put_words ns) ≡ length ns * 4
unfolding put_words put_uint32
length-put_words [] = refl
length-put_words (n ∷ ns) = omega (arith, length-put_words ns)

-- The length test and the loop of getUnaryIndex and getIndex.
unfoldable pub decode_index : Bytes → Result (List ℕ)
decode_index val = if length val == 24 then ok (get_words val) else err unexpected_value

-- The length test and the read of a binary entry's count.
unfoldable pub decode_count : Bytes → Result ℕ
decode_count (a ∷ b ∷ c ∷ d ∷ []) = ok (uint32 a b c d)
decode_count _ = err unexpected_value

-- Six counts of 32 bits are read back from the value that Commit writes.
pub decode_index-put_words :
    (ns : List ℕ) → length ns ≡ 6 → All IsWord ns → decode_index (put_words ns) ≡ ok ns
unfolding decode_index
decode_index-put_words ns l h = ground (arith, length-put_words ns, get-put_words ns h)

-- A count of 32 bits is read back from the value that Commit writes.
pub decode_count-put_uint32 : (n : ℕ) → n < 2 ^ 32 → decode_count (put_uint32 n) ≡ ok n
unfolding decode_count put_uint32
decode_count-put_uint32 n h = ap ok (omega arith)

-- A value of the wrong length is another error than a missing key.
pub decode_index-ne-missing : (val : Bytes) → decode_index val ≢ err key_not_found
unfolding decode_index
decode_index-ne-missing val = ground arith

pub decode_count-ne-missing : (val : Bytes) → decode_count val ≢ err key_not_found
unfolding decode_count
decode_count-ne-missing (a ∷ b ∷ c ∷ d ∷ []) = cc
decode_count-ne-missing _ = cc
