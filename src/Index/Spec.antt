-- ===== src/Index/Spec.antt =====
-- What the index of a list of triples holds.
use forty_six.Base.{
  ℕ, ◌+◌, ◌*◌, ◌<◌, ◌≤◌, ◌≡◌, Bool, true, false, ◌||◌, List, [], ◌∷◌, Bytes, arith, bytes_eq_iff,
  length, if◌then◌else◌, key_not_found, Result, ok, err,
}
use forty_six.Util.Triples.{Triple}
use forty_six.Badger.{Database}
use forty_six.Caches.Binary.{binary_key}
use forty_six.Caches.Binary.View.{count}
use forty_six.Index.{ternary_key, Session}
use forty_six.Index.Keys.{IsPlainTriple, triple_eq}
use forty_six.Index.Step.{hits, hits_le}

-- whether there is an entry
abbrev pub found : Result Bytes → Result Bool
found (ok val) = ok true
found (err key_not_found) = ok false
found (err e) = err e

unfoldable pub contains : Triple Bytes → List (Triple Bytes) → Bool
contains y [] = false
contains y (x ∷ ts) = triple_eq x y || contains y ts

-- the triples with one more, which may be there
abbrev pub add : Triple Bytes → List (Triple Bytes) → List (Triple Bytes)
add x ts = if contains x ts then ts else x ∷ ts

-- how many of the six pairs of each triple have the binary key
unfoldable pub touched : List (Triple Bytes) → Bytes → ℕ
touched [] k = 0
touched (x ∷ ts) k = hits 0 x k + hits 1 x k + hits 2 x k + touched ts k

pub touched_le : (ts : List (Triple Bytes)) (k : Bytes) → touched ts k ≤ 6 * length ts
unfolding touched
touched_le [] k = omega arith
touched_le (x ∷ ts) k = omega (arith, hits_le 0 x k, hits_le 1 x k, hits_le 2 x k, touched_le ts k)

pub triple_eq_sound : (x y : Triple Bytes) → triple_eq x y ≡ true → x ≡ y
unfolding triple_eq
triple_eq_sound x y h = ground (
  arith,
  bytes_eq_iff x.subject y.subject,
  bytes_eq_iff x.predicate y.predicate,
  bytes_eq_iff x.object y.object,
)

-- No triple comes twice.
abbrev pub Once : List (Triple Bytes) → Type 0
Once [] = Unit
Once (x ∷ ts) = (contains x ts ≡ false) × Once ts

-- the triples without one
unfoldable pub discard : Triple Bytes → List (Triple Bytes) → List (Triple Bytes)
discard x [] = []
discard x (y ∷ ts) = let rest = discard x ts in if triple_eq y x then ts else y ∷ rest

-- The three ternary indices have entries for the triples and for no other, and each binary count is
-- the number of the triples' pairs that have its key. No triple comes twice.
pub record Holds (b : Database) (ts : List (Triple Bytes)) (s : Session b) : Type 0 where
  pub once : Once ts
  pub entries :
      (p : ℕ) (y : Triple Bytes)
      → p < 3
      → IsPlainTriple y
      → found (b.get s.txn (ternary_key p y)) ≡ ok (contains y ts)
  pub pairs :
      (q : ℕ) (a c : Bytes)
      → count b s.binary s.txn (binary_key q a c) ≡ ok (touched ts (binary_key q a c))
