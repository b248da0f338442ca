-- ===== src/Caches/Unary/View.antt =====
-- The counts that a unary cache stands for, over the entries of its transaction.
use forty_six.Base.{
  ℕ, List, Option, none, some, Bytes, bytes_eq, if◌then◌else◌, arith, ◌≡◌, key_not_found, Result,
  ok, err, ◌>>=◌, >>=-eq-ok, bytes_eq_iff,
}
use forty_six.Badger.{Database}
use forty_six.Dict.{lookup, insert, lookup-insert}
use forty_six.Caches.Words.{decode_index, decode_index-ne-missing}
use forty_six.Caches.Unary.{
  UnaryCache, zeros, adjust, increment_word, decrement_word, unary_key, or_zeros, get_index,
  increment, decrement,
}

-- A missing entry stands for zeros.
abbrev pub stored : Result Bytes → Result (List ℕ)
stored (ok val) = decode_index val
stored (err key_not_found) = ok zeros
stored (err e) = err e

abbrev pub shadow : Option (List ℕ) → Result (List ℕ) → Result (List ℕ)
shadow (some index) r = ok index
shadow none r = r

abbrev pub map_ok {ℓ κ} : {A : Type ℓ} {B : Type κ} → (A → B) → Result A → Result B
map_ok f (ok a) = ok (f a)
map_ok f (err e) = err e

module _ (b : Database) where
  -- the six counts of `a`: those in the cache or else those of the database
  unfoldable pub counts : UnaryCache → b.Txn → Bytes → Result (List ℕ)
  counts uc t a = shadow (lookup a uc) (stored (b.get t (unary_key a)))

  loaded :
      (a a' : Bytes) (uc uc' : UnaryCache) (index : List ℕ) (t : b.Txn)
      → or_zeros uc (get_index b uc a t) ≡ ok (index, uc')
      → (counts uc t a ≡ ok index) × (counts uc' t a' ≡ counts uc t a')
  unfolding get_index counts
  loaded a a' uc uc' index t h = grind (arith, lookup-insert, bytes_eq_iff, decode_index-ne-missing)

  pub counts-insert :
      (a a' : Bytes) (index : List ℕ) (uc : UnaryCache) (t : b.Txn)
      → counts (insert a index uc) t a' ≡ (if bytes_eq a a' then ok index else counts uc t a')
  unfolding counts
  counts-insert a a' index uc t = ground (arith, lookup-insert a a' index uc)

  adjusted :
      (f : ℕ → ℕ) (p : ℕ) (a a' : Bytes) (uc uc' : UnaryCache) (t : b.Txn)
      → (do (index, uc') ← or_zeros uc (get_index b uc a t); ok (insert a (adjust p f index) uc'))
        ≡ ok uc'
      → counts uc' t a'
        ≡ (if bytes_eq a a' then map_ok (adjust p f) (counts uc t a) else counts uc t a')
  adjusted f p a a' uc uc' t h =
      let (r, e, k) = >>=-eq-ok (or_zeros uc (get_index b uc a t)) _ h in
      ground (arith, loaded a a' uc r.1 r.0 t e, counts-insert a a' (adjust p f r.0) r.1 t, k)

  -- Increment that returns no error adds one to the count of `p` of its id, modulo 2^32, and changes
  -- no count of another id.
  pub counts-increment :
      (p : ℕ) (a a' : Bytes) (uc uc' : UnaryCache) (t : b.Txn)
      → increment b p a uc t ≡ ok uc'
      → counts uc' t a' ≡ (
          if bytes_eq a a'
          then map_ok (adjust p increment_word) (counts uc t a)
          else counts uc t a')
  unfolding increment
  counts-increment = adjusted increment_word

  -- Decrement that returns no error takes one off the count of `p` of its id if it is not zero, and
  -- changes no count of another id.
  pub counts-decrement :
      (p : ℕ) (a a' : Bytes) (uc uc' : UnaryCache) (t : b.Txn)
      → decrement b p a uc t ≡ ok uc'
      → counts uc' t a' ≡ (
          if bytes_eq a a'
          then map_ok (adjust p decrement_word) (counts uc t a)
          else counts uc t a')
  unfolding decrement
  counts-decrement = adjusted decrement_word
