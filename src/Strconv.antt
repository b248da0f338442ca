-- ===== src/Strconv.antt =====
-- What the program uses of Go's package strconv: FormatUint and ParseUint at base 32 and 64 bits.
pub mod RoundTrip
use forty_six.Base.{
  ℕ, zero, suc, ◌+◌, ◌-◌, ◌*◌, ◌/◌, ◌%◌, ◌^◌, ◌&&◌, List, [], ◌∷◌, Option, none, some, Bytes, ltb,
  leb, if◌then◌else◌, Result, ok, err, ◌>>=◌, parse_uint_failed,
}

digit : ℕ → ℕ
digit d = if ltb d 10 then d + b'0' else d - 10 + b'a'

-- formatBits: the digits from the last one on. 64 bits have at most thirteen digits of five bits.
format_loop : ℕ → ℕ → Bytes → Bytes
unfolding digit
format_loop zero n out = out
format_loop (suc fuel) n out =
    let more = format_loop fuel (n / 32) (digit (n % 32) ∷ out) in
    if ltb n 32 then digit n ∷ out else more

unfoldable pub format_uint : ℕ → Bytes
unfolding format_loop
format_uint n = format_loop 13 n []

-- Go tests the letters on `c | 0x20`, which is the small letter of a capital one.
digit_value : ℕ → Option ℕ
digit_value c =
    if leb b'0' c && leb c b'9'
    then some (c - b'0')
    else if leb b'a' c && leb c b'z'
    then some (c - b'a' + 10)
    else if leb b'A' c && leb c b'Z'
    then some (c - b'A' + 10)
    else none

-- n * 32 + d, unless the digit is none of the base or the number does not fit 64 bits. `cutoff` is
-- maxUint64 / 32 + 1, and the sum wraps around below `n`.
push_digit : ℕ → Option ℕ → Result ℕ
push_digit n none = err parse_uint_failed
push_digit n (some d) =
    if leb 32 d
    then err parse_uint_failed
    else if leb ((2 ^ 64 - 1) / 32 + 1) n
    then err parse_uint_failed
    else let n' = (n * 32) % 2 ^ 64 in
      let n'' = (n' + d) % 2 ^ 64 in if ltb n'' n' then err parse_uint_failed else ok n''

parse_loop : ℕ → Bytes → Result ℕ
parse_loop n [] = ok n
parse_loop n (c ∷ s) = do m ← push_digit n (digit_value c); parse_loop m s

unfoldable pub parse_uint : Bytes → Result ℕ
unfolding parse_loop digit_value push_digit
parse_uint [] = err parse_uint_failed
parse_uint (c ∷ s) = parse_loop 0 (c ∷ s)
