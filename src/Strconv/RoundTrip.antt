-- ===== src/Strconv/RoundTrip.antt =====
-- ParseUint reads back what FormatUint writes.
use native.Mathlib.Nat.{pow-suc}
use forty_six.Base.{
  ℕ, zero, suc, ◌+◌, ◌*◌, ◌/◌, ◌%◌, ◌^◌, ◌<◌, ◌≡◌, ◌≢◌, ◌∙◌, ap, refl, Bool-cases, inl, inr, ◌∷◌,
  [], Bytes, ltb, ltb→lt, some, ok, arith, All,
}
use forty_six.Strconv.{
  digit, format_loop, format_uint, digit_value, push_digit, parse_loop, parse_uint,
}

digit_value-digit : (d : ℕ) → d < 32 → digit_value (digit d) ≡ some d
unfolding digit_value digit
digit_value-digit d h = ground arith

push-digit : (n d : ℕ) → d < 32 → n * 32 + d < 2 ^ 64 → push_digit n (some d) ≡ ok (n * 32 + d)
unfolding push_digit
push-digit n d h k = ground arith

parse-digit :
    (n d : ℕ) (s : Bytes)
    → d < 32
    → n * 32 + d < 2 ^ 64
    → parse_loop n (digit d ∷ s) ≡ parse_loop (n * 32 + d) s
unfolding parse_loop
parse-digit n d s h k = rw (digit_value-digit d h, push-digit n d h k)

-- The digits written for `n` take a parser that has read nothing to `n`.
parse-format_loop :
    (fuel n : ℕ) (out : Bytes)
    → n < 32 ^ fuel
    → n < 2 ^ 64
    → parse_loop 0 (format_loop fuel n out) ≡ parse_loop n out
unfolding format_loop
parse-format_loop zero n out h k = let e : n ≡ 0 = omega arith in rw e
parse-format_loop (suc fuel) n out h k = elim (Bool-cases (ltb n 32)) [
  | inl e ↦
      rw e (
        parse-digit 0 n out (ltb→lt n 32 e) (omega arith)
        ∙ ap (λ m. parse_loop m out) (omega arith))
  | inr e ↦ rw e (
      parse-format_loop fuel (n / 32) (digit (n % 32) ∷ out) (omega (arith, pow-suc 32 fuel))
        (omega arith)
      ∙ parse-digit (n / 32) (n % 32) out (omega arith) (omega arith)
      ∙ ap (λ m. parse_loop m out) (omega arith))
]

format_loop-ne-nil : (fuel n c : ℕ) (out : Bytes) → format_loop fuel n (c ∷ out) ≢ []
unfolding format_loop
format_loop-ne-nil zero n c out = cc
format_loop-ne-nil (suc fuel) n c out =
    ground (arith, format_loop-ne-nil fuel (n / 32) (digit (n % 32)) (c ∷ out))

format_loop-suc-ne-nil : (fuel n : ℕ) → format_loop (suc fuel) n [] ≢ []
unfolding format_loop
format_loop-suc-ne-nil fuel n = ground (arith, format_loop-ne-nil fuel (n / 32) (digit (n % 32)) [])

format_uint-loop : (n : ℕ) → format_uint n ≡ format_loop 13 n []
unfolding format_uint
format_uint-loop n = refl

format_uint-ne-nil : (n : ℕ) → format_uint n ≢ []
format_uint-ne-nil n = rw format_uint-loop (format_loop-suc-ne-nil 12 n)

parse_uint-loop : (s : Bytes) → s ≢ [] → parse_uint s ≡ parse_loop 0 s
unfolding parse_uint
parse_uint-loop [] h = absurd (h refl)
parse_uint-loop (c ∷ s) h = refl

-- ParseUint at base 32 reads back what FormatUint writes, for every uint64.
pub parse-format : (n : ℕ) → n < 2 ^ 64 → parse_uint (format_uint n) ≡ ok n
parse-format n h =
    parse_uint-loop (format_uint n) (format_uint-ne-nil n)
    ∙ rw format_uint-loop (parse-format_loop 13 n [] (omega arith) h ∙ (unfold parse_loop in refl))

abbrev pub IsPlain : ℕ → Type 0
IsPlain c = (c ≢ b'\t') × (c ≢ b'\n')

digit-IsPlain : (d : ℕ) → IsPlain (digit d)
unfolding digit
digit-IsPlain d = ground arith

format_loop-IsPlain :
    (fuel n : ℕ) (out : Bytes) → All IsPlain out → All IsPlain (format_loop fuel n out)
unfolding format_loop
format_loop-IsPlain zero n out h = h
format_loop-IsPlain (suc fuel) n out h = elim (Bool-cases (ltb n 32)) [
  | inl e ↦ rw e (digit-IsPlain n, h)
  | inr e ↦
      rw e (format_loop-IsPlain fuel (n / 32) (digit (n % 32) ∷ out) (digit-IsPlain (n % 32), h))
]

-- A formatted number has no tab and no newline in it.
pub format_uint-IsPlain : (n : ℕ) → All IsPlain (format_uint n)
format_uint-IsPlain n = rw format_uint-loop (format_loop-IsPlain 13 n [] tt)
