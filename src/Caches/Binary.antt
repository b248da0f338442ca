-- ===== src/Caches/Binary.antt =====
-- binaryCache of caches.go, less its Commit.
pub mod View
use forty_six.Base.{
  ℕ, panic, ◌+◌, ◌-◌, ◌%◌, ◌^◌, List, [], ◌∷◌, Option, none, some, Bool, true, false, Bytes, ltb,
  ◌==◌, if◌then◌else◌, Error, key_not_found, Result, ok, err, ◌>>=◌,
}
use forty_six.Util.Keys.{binary_prefix, assemble_key}
use forty_six.Badger.{Database}
use forty_six.Dict.{Dict, lookup, insert}
use forty_six.Caches.Words.{uint32, decode_count}
use forty_six.Caches.Unary
use forty_six.Caches.Unary.{UnaryCache, increment_word}

-- map[string]uint32, by index key.
abbrev pub BinaryCache : Type 0
BinaryCache = Dict ℕ

abbrev pub binary_key : ℕ → Bytes → Bytes → Bytes
binary_key p a c = assemble_key (binary_prefix p) false (a ∷ c ∷ [])

-- Get reads four bytes of a value of any length; a slice expression panics on a shorter one.
unfoldable pub read_count : Bytes → Result ℕ
read_count (x ∷ y ∷ z ∷ w ∷ rest) = ok (uint32 x y z w)
read_count _ = err panic

module _ (b : Database) where
  -- delta at a key with a cached count: `true` is an increment.
  unfoldable pub delta_cached :
      ℕ
      → Bytes
      → Bytes
      → Bool
      → ℕ
      → BinaryCache
      → UnaryCache
      → b.Txn
      → Result (BinaryCache × UnaryCache)
  delta_cached p a s true n bc uc t =
      let n' = increment_word n in
      let bc' = insert s n' bc in
      if n' == 1 then (do uc' ← Unary.increment b p a uc t; ok (bc', uc')) else ok (bc', uc)
  delta_cached p a s false n bc uc t =
      let bc' = insert s (n - 1) bc in
      if ltb 0 n
      then (if n - 1 == 0
          then (do uc' ← Unary.decrement b p a uc t; ok (bc', uc'))
          else ok (bc', uc))
      else ok (bc, uc)

  -- delta at a key whose count `n` has just been read from the database.
  unfoldable pub delta_loaded :
      ℕ
      → Bytes
      → Bytes
      → Bool
      → ℕ
      → BinaryCache
      → UnaryCache
      → b.Txn
      → Result (BinaryCache × UnaryCache)
  delta_loaded p a s true n bc uc t = ok (insert s (increment_word n) bc, uc)
  delta_loaded p a s false n bc uc t =
      if n == 1
      then (do uc' ← Unary.decrement b p a uc t; ok (insert s 0 bc, uc'))
      else if ltb 0 n
      then ok (insert s (n - 1) bc, uc)
      else ok (insert s n bc, uc)

  -- delta at a key without a cached count, on the result of txn.Get.
  unfoldable pub delta_stored :
      ℕ
      → Bytes
      → Bytes
      → Bool
      → Result Bytes
      → BinaryCache
      → UnaryCache
      → b.Txn
      → Result (BinaryCache × UnaryCache)
  unfolding delta_loaded
  delta_stored p a s inc (ok val) bc uc t = do
    n ← decode_count val
    delta_loaded p a s inc n bc uc t
  delta_stored p a s true (err key_not_found) bc uc t = do
    uc' ← Unary.increment b p a uc t
    ok (insert s 1 bc, uc')
  delta_stored p a s inc (err e) bc uc t = err e

  unfoldable pub delta_entry :
      ℕ
      → Bytes
      → Bytes
      → Bool
      → Option ℕ
      → BinaryCache
      → UnaryCache
      → b.Txn
      → Result (BinaryCache × UnaryCache)
  unfolding delta_cached delta_stored
  delta_entry p a s inc (some n) bc uc t = delta_cached p a s inc n bc uc t
  delta_entry p a s inc none bc uc t = delta_stored p a s inc (b.get t s) bc uc t

  unfoldable pub delta :
      ℕ
      → Bytes
      → Bytes
      → Bool
      → BinaryCache
      → UnaryCache
      → b.Txn
      → Result (BinaryCache × UnaryCache)
  unfolding delta_entry
  delta p a c inc bc uc t = let s = binary_key p a c in delta_entry p a s inc (lookup s bc) bc uc t

  abbrev pub increment :
      ℕ → Bytes → Bytes → BinaryCache → UnaryCache → b.Txn → Result (BinaryCache × UnaryCache)
  increment p a c bc uc t = delta p a c true bc uc t

  abbrev pub decrement :
      ℕ → Bytes → Bytes → BinaryCache → UnaryCache → b.Txn → Result (BinaryCache × UnaryCache)
  decrement p a c bc uc t = delta p a c false bc uc t

  get_stored : Bytes → Result Bytes → BinaryCache → Result (ℕ × BinaryCache)
  unfolding read_count
  get_stored s (ok val) bc = do n ← read_count val; ok (n, insert s n bc)
  get_stored s (err key_not_found) bc = ok (0, bc)
  get_stored s (err e) bc = err e

  get_entry : Bytes → Option ℕ → BinaryCache → b.Txn → Result (ℕ × BinaryCache)
  unfolding get_stored
  get_entry s (some n) bc t = ok (n, bc)
  get_entry s none bc t = get_stored s (b.get t s) bc

  unfoldable pub get : ℕ → Bytes → Bytes → BinaryCache → b.Txn → Result (ℕ × BinaryCache)
  unfolding get_entry
  get p a c bc t = let s = binary_key p a c in get_entry s (lookup s bc) bc t
