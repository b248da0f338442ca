-- ===== src/Iterator/Outcome.antt =====
-- What a search comes to: no result for want of fuel, an error, or a result.
use forty_six.Base.{◌≡◌, refl, subst, Bool, true, false, Error, Result, ok, err}

pub data Outcome {ℓ} (A : Type ℓ) : Type ℓ where
  out_of_fuel : Outcome A
  failed : Error → Outcome A
  done : A → Outcome A

abbrev pub ◌>=>◌ {ℓ κ} : {A : Type ℓ} {B : Type κ} → Outcome A → (A → Outcome B) → Outcome B
out_of_fuel >=> f = out_of_fuel
failed e >=> f = failed e
done a >=> f = f a

infixl 5 ◌>=>◌
-- A call that has no loop without a bound.
abbrev pub lift {ℓ} : {A : Type ℓ} → Result A → Outcome A
lift (err e) = failed e
lift (ok a) = done a

-- What holds of the result, if there is one.
abbrev pub Holds {ℓ κ} : {A : Type ℓ} → (A → Type κ) → Outcome A → Type κ
Holds P out_of_fuel = Unit
Holds P (failed e) = Unit
Holds P (done a) = P a

pub Holds-bind {ℓ κ μ ν} :
    {A : Type ℓ} {B : Type κ} (P : A → Type μ) (Q : B → Type ν) (call : Outcome A)
    (rest : A → Outcome B)
    → Holds P call
    → ((a : A) → P a → Holds Q (rest a))
    → Holds Q (call >=> rest)
Holds-bind P Q out_of_fuel rest h k = tt
Holds-bind P Q (failed e) rest h k = tt
Holds-bind P Q (done a) rest h k = k a h

-- nothing is asked of the first call
pub Holds-after {ℓ κ ν} :
    {A : Type ℓ} {B : Type κ} (Q : B → Type ν) (call : Outcome A) (rest : A → Outcome B)
    → ((a : A) → Holds Q (rest a))
    → Holds Q (call >=> rest)
Holds-after Q out_of_fuel rest k = tt
Holds-after Q (failed e) rest k = tt
Holds-after Q (done a) rest k = k a

done-injective {ℓ} : {A : Type ℓ} (a b : A) → done a ≡ done b → a ≡ b
done-injective a b e = cc e

pub Holds-done {ℓ κ} :
    {A : Type ℓ} (P : A → Type κ) (call : Outcome A) {a : A} → Holds P call → call ≡ done a → P a
Holds-done P out_of_fuel h e = absurd (cc e)
Holds-done P (failed x) h e = absurd (cc e)
Holds-done P (done b) h e = subst P (done-injective b _ e) h

-- A test on a result that is bound before it.
pub Holds-elim {ℓ κ} :
    {A : Type ℓ} (P : A → Type κ) (b : Bool) (x y : Outcome A)
    → (b ≡ true → Holds P x)
    → (b ≡ false → Holds P y)
    → Holds P (elim b [ true ↦ x | false ↦ y ])
Holds-elim P true x y h k = h refl
Holds-elim P false x y h k = k refl

pub Holds-map {ℓ κ μ} :
    {A : Type ℓ} (P : A → Type κ) (Q : A → Type μ) (call : Outcome A)
    → Holds P call
    → ((a : A) → P a → Q a)
    → Holds Q call
Holds-map P Q out_of_fuel h k = tt
Holds-map P Q (failed e) h k = tt
Holds-map P Q (done a) h k = k a h
