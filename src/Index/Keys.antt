-- ===== src/Index/Keys.antt =====
-- Index keys of different kinds differ, and a ternary key determines its triple.
use forty_six.Base.{
  ℕ, zero, suc, ◌<◌, ◌≡◌, ◌≢◌, ◌∙◌, refl, sym, Bool, true, false, ◌&&◌, [], ◌∷◌, arith, Bytes,
  bytes_eq, bytes_eq_iff, bytes_eq_self, All, Lacks,
}
use forty_six.Util.Keys.{tab, assemble_key}
use forty_six.Util.Keys.Layout.{assemble_key-injective}
use forty_six.Util.Triples.{Triple, permute}
use forty_six.Caches.Binary.{binary_key}
use forty_six.Caches.Unary.{unary_key}
use forty_six.Index.{ternary_key}

-- The ids of a triple have no tab in them.
pub record IsPlainTriple (x : Triple Bytes) : Type 0 where
  pub subject : Lacks tab x.subject
  pub predicate : Lacks tab x.predicate
  pub object : Lacks tab x.object

unfoldable pub triple_eq : Triple Bytes → Triple Bytes → Bool
triple_eq x y =
    bytes_eq x.subject y.subject && bytes_eq x.predicate y.predicate && bytes_eq x.object y.object

pub triple_eq_self : (x : Triple Bytes) → triple_eq x x ≡ true
unfolding triple_eq
triple_eq_self x =
    ground (arith, bytes_eq_self x.subject, bytes_eq_self x.predicate, bytes_eq_self x.object)

module _ (x y : Triple Bytes) where
  pub ternary-ne-binary :
      (p q : ℕ) (a c : Bytes) → p < 3 → bytes_eq (ternary_key p x) (binary_key q a c) ≡ false
  unfolding bytes_eq assemble_key
  ternary-ne-binary zero q a c h = ground arith
  ternary-ne-binary (suc zero) q a c h = ground arith
  ternary-ne-binary (suc (suc zero)) q a c h = ground arith
  ternary-ne-binary (suc (suc (suc p))) q a c h = absurd (omega arith)

  pub ternary-ne-unary :
      (p : ℕ) (a : Bytes) → p < 3 → bytes_eq (ternary_key p x) (unary_key a) ≡ false
  unfolding bytes_eq assemble_key
  ternary-ne-unary zero a h = ground arith
  ternary-ne-unary (suc zero) a h = ground arith
  ternary-ne-unary (suc (suc zero)) a h = ground arith
  ternary-ne-unary (suc (suc (suc p))) a h = absurd (omega arith)

  pub ternary-ne-ternary :
      (p q : ℕ) → p < 3 → q < 3 → p ≢ q → bytes_eq (ternary_key p x) (ternary_key q y) ≡ false
  unfolding bytes_eq assemble_key
  ternary-ne-ternary zero zero hp hq h = absurd (h refl)
  ternary-ne-ternary zero (suc zero) hp hq h = ground arith
  ternary-ne-ternary zero (suc (suc zero)) hp hq h = ground arith
  ternary-ne-ternary (suc zero) zero hp hq h = ground arith
  ternary-ne-ternary (suc zero) (suc zero) hp hq h = absurd (h refl)
  ternary-ne-ternary (suc zero) (suc (suc zero)) hp hq h = ground arith
  ternary-ne-ternary (suc (suc zero)) zero hp hq h = ground arith
  ternary-ne-ternary (suc (suc zero)) (suc zero) hp hq h = ground arith
  ternary-ne-ternary (suc (suc zero)) (suc (suc zero)) hp hq h = absurd (h refl)
  ternary-ne-ternary (suc (suc (suc p))) q hp hq h = absurd (omega arith)
  ternary-ne-ternary p (suc (suc (suc q))) hp hq h = absurd (omega arith)

Bool-ext : (a b : Bool) → (a ≡ true → b ≡ true) → (b ≡ true → a ≡ true) → a ≡ b
Bool-ext true b f g = sym (f refl)
Bool-ext false true f g = g refl
Bool-ext false false f g = refl

key-eq :
    (p : ℕ) (a c d a' c' d' : Bytes)
    → All (Lacks tab) (a ∷ c ∷ d ∷ [])
    → All (Lacks tab) (a' ∷ c' ∷ d' ∷ [])
    → bytes_eq (assemble_key p false (a ∷ c ∷ d ∷ [])) (assemble_key p false (a' ∷ c' ∷ d' ∷ []))
      ≡ (bytes_eq a a' && bytes_eq c c' && bytes_eq d d')
key-eq p a c d a' c' d' h h' =
    Bool-ext _ _
      (λ e. ground (
        arith,
        assemble_key-injective p p a a' (c ∷ d ∷ []) (c' ∷ d' ∷ []) h h' ((bytes_eq_iff _ _).0 e),
        bytes_eq_self a,
        bytes_eq_self c,
        bytes_eq_self d,
      ))
      (λ e. ground (
        arith,
        bytes_eq_iff a a',
        bytes_eq_iff c c',
        bytes_eq_iff d d',
        bytes_eq_self (assemble_key p false (a ∷ c ∷ d ∷ [])),
        e,
      ))

-- Of triples without tabs, the keys of one ternary index are equal exactly if the triples are.
pub ternary_key-eq :
    (p : ℕ) (x y : Triple Bytes)
    → p < 3
    → IsPlainTriple x
    → IsPlainTriple y
    → bytes_eq (ternary_key p x) (ternary_key p y) ≡ triple_eq x y
unfolding triple_eq permute
ternary_key-eq zero x y h hx hy =
    key-eq _ _ _ _ _ _ _ (hx.subject, (hx.predicate, (hx.object, tt)))
      (hy.subject, (hy.predicate, (hy.object, tt)))
ternary_key-eq (suc zero) x y h hx hy =
    key-eq _ _ _ _ _ _ _ (hx.predicate, (hx.object, (hx.subject, tt)))
      (hy.predicate, (hy.object, (hy.subject, tt)))
    ∙ ground arith
ternary_key-eq (suc (suc zero)) x y h hx hy =
    key-eq _ _ _ _ _ _ _ (hx.object, (hx.subject, (hx.predicate, tt)))
      (hy.object, (hy.subject, (hy.predicate, tt)))
    ∙ ground arith
ternary_key-eq (suc (suc (suc p))) x y h hx hy = absurd (omega arith)
