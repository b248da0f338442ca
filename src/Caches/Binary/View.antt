-- ===== src/Caches/Binary/View.antt =====
-- The counts that a binary cache stands for, over the entries of its transaction.
use forty_six.Base.{
  ℕ, ◌<◌, ◌^◌, ◌≡◌, ◌≢◌, refl, Option, none, some, Bool, true, false, Bytes, bytes_eq,
  if◌then◌else◌, arith, [], ◌∷◌, length, ◌==◌, key_not_found, Result, ok, err, bytes_eq_iff,
}
use forty_six.Badger.{Database}
use forty_six.Dict.{lookup, lookup-insert}
use forty_six.Caches.Words.{decode_count, decode_count-ne-missing}
use forty_six.Caches.Unary
use forty_six.Caches.Unary.{UnaryCache, increment_word, decrement_word}
use forty_six.Caches.Unary.View.{map_ok}
use forty_six.Caches.Binary.{BinaryCache, binary_key, delta, get, read_count}

-- A missing entry stands for a count of zero.
abbrev pub stored : Result Bytes → Result ℕ
stored (ok val) = decode_count val
stored (err key_not_found) = ok 0
stored (err e) = err e

abbrev pub shadow : Option ℕ → Result ℕ → Result ℕ
shadow (some n) r = ok n
shadow none r = r

abbrev pub adjust_word : Bool → ℕ → ℕ
adjust_word true n = increment_word n
adjust_word false n = decrement_word n

module _ (b : Database) where
  -- the count at a key: that of the cache or else that of the database
  unfoldable pub count : BinaryCache → b.Txn → Bytes → Result ℕ
  count bc t s = shadow (lookup s bc) (stored (b.get t s))

  -- A delta that returns no error adds one to the count of its key modulo 2^32, or takes one off it
  -- if it is not zero, and changes the count of no other key.
  pub count-delta :
      (p : ℕ) (a c s : Bytes) (inc : Bool) (bc bc' : BinaryCache) (uc uc' : UnaryCache) (t : b.Txn)
      → delta b p a c inc bc uc t ≡ ok (bc', uc')
      → count bc' t s ≡ (
          if bytes_eq (binary_key p a c) s
          then map_ok (adjust_word inc) (count bc t (binary_key p a c))
          else count bc t s)
  unfolding delta count
  count-delta p a c s true bc bc' uc uc' t h =
      grind (arith, lookup-insert, bytes_eq_iff, decode_count-ne-missing)
  count-delta p a c s false bc bc' uc uc' t h =
      grind (arith, lookup-insert, bytes_eq_iff, decode_count-ne-missing)

  -- what happens to the unary counts when a count of `n` changes
  abbrev pub crossing : ℕ → Bytes → Bool → ℕ → UnaryCache → b.Txn → Result UnaryCache
  crossing p a true n uc t = if n == 0 then Unary.increment b p a uc t else ok uc
  crossing p a false n uc t = if n == 1 then Unary.decrement b p a uc t else ok uc

  -- A delta changes the unary counts exactly if it takes the count of its key from zero to one, by an
  -- Increment of the permutation and the first id, or from one to zero, by a Decrement of them. The
  -- count is a uint32, and no entry of the database holds a zero, as Commit deletes such entries.
  pub delta-crossing :
      (p : ℕ) (a c : Bytes) (inc : Bool) (n : ℕ) (bc bc' : BinaryCache) (uc uc' : UnaryCache)
      (t : b.Txn)
      → n < 2 ^ 32
      → ((val : Bytes) → b.get t (binary_key p a c) ≡ ok val → decode_count val ≢ ok 0)
      → count bc t (binary_key p a c) ≡ ok n
      → delta b p a c inc bc uc t ≡ ok (bc', uc')
      → crossing p a inc n uc t ≡ ok uc'
  unfolding delta count
  delta-crossing p a c true n bc bc' uc uc' t hn nonzero hc h =
      grind (arith, decode_count-ne-missing)
  delta-crossing p a c false n bc bc' uc uc' t hn nonzero hc h =
      grind (arith, decode_count-ne-missing)

  read_count-decode_count : (val : Bytes) → length val ≡ 4 → read_count val ≡ decode_count val
  unfolding read_count decode_count
  read_count-decode_count (x ∷ y ∷ z ∷ w ∷ []) h = refl
  read_count-decode_count [] h = absurd (omega arith)
  read_count-decode_count (x ∷ []) h = absurd (omega arith)
  read_count-decode_count (x ∷ y ∷ []) h = absurd (omega arith)
  read_count-decode_count (x ∷ y ∷ z ∷ []) h = absurd (omega arith)
  read_count-decode_count (x ∷ y ∷ z ∷ w ∷ v ∷ rest) h = absurd (omega arith)

  -- A Get that returns no error returns the count of its key and changes no count, where the entry of
  -- the key, if there is one, is of four bytes.
  pub count-get :
      (p : ℕ) (a c s : Bytes) (n : ℕ) (bc bc' : BinaryCache) (t : b.Txn)
      → ((val : Bytes) → b.get t (binary_key p a c) ≡ ok val → length val ≡ 4)
      → get b p a c bc t ≡ ok (n, bc')
      → (count bc t (binary_key p a c) ≡ ok n) × (count bc' t s ≡ count bc t s)
  unfolding get count
  count-get p a c s n bc bc' t four h =
      grind (arith, lookup-insert, bytes_eq_iff, read_count-decode_count)
