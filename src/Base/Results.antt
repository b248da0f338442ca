-- ===== src/Base/Results.antt =====
-- Go's `(value, error)` results. The named errors are those that the program tells apart.
use Prim.Native.Nat.{ℕ}
use mathlib.Core.Path.{◌≡◌, refl}

-- `panic` is a run-time panic, which ends the call like an error that nobody handles, and `fault` any
-- other error of a callee.
pub data Error : Type 0 where
  key_not_found txn_too_big not_found invalid_term tag_scheme parse_quads parse_uint_failed
        unexpected_value panic end_of_solutions invalid_domain invalid_index empty_interset
        all_blank :
      Error
  fault : ℕ → Error

-- what a call returns
pub data Result {ℓ} (T : Type ℓ) : Type ℓ where
  err : Error → Result T
  ok : T → Result T

-- `if err != nil { return err }`, and the rest of the caller
abbrev pub ◌>>=◌ {ℓ κ} : {T : Type ℓ} {U : Type κ} → Result T → (T → Result U) → Result U
err e >>= rest = err e
ok t >>= rest = rest t

infixl 5 ◌>>=◌
pub >>=-eq-ok {ℓ κ} :
    {T : Type ℓ} {U : Type κ} (call : Result T) (rest : T → Result U) {u : U}
    → (call >>= rest) ≡ ok u
    → (t : T) × (call ≡ ok t) × (rest t ≡ ok u)
>>=-eq-ok (err e) rest h = cc
>>=-eq-ok (ok t) rest h = (t, refl, h)

pub ok-injective {ℓ} : {T : Type ℓ} (t u : T) → ok t ≡ ok u → t ≡ u
ok-injective t u h = cc
