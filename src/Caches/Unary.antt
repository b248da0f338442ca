-- ===== src/Caches/Unary.antt =====
-- unaryCache of caches.go, less its Commit.
pub mod View
use forty_six.Base.{
  ℕ, zero, suc, ◌+◌, ◌-◌, ◌%◌, ◌^◌, List, [], ◌∷◌, Option, none, some, Bytes, false, get_or, ltb,
  if◌then◌else◌, Error, key_not_found, Result, ok, err, ◌>>=◌,
}
use forty_six.Util.Keys.{unary_prefix, assemble_key}
use forty_six.Badger.{Database}
use forty_six.Dict.{Dict, lookup, insert}
use forty_six.Caches.Words.{decode_index}

-- map[ID]*[6]uint32. The pointers of two entries are never the same array.
abbrev pub UnaryCache : Type 0
UnaryCache = Dict (List ℕ)

abbrev pub zeros : List ℕ
zeros = 0 ∷ 0 ∷ 0 ∷ 0 ∷ 0 ∷ 0 ∷ []

-- `index[p] = f(index[p])`
abbrev pub adjust : ℕ → (ℕ → ℕ) → List ℕ → List ℕ
adjust p f [] = []
adjust zero f (n ∷ ns) = f n ∷ ns
adjust (suc p) f (n ∷ ns) = n ∷ adjust p f ns

-- `++` on a uint32
abbrev pub increment_word : ℕ → ℕ
increment_word n = (n + 1) % 2 ^ 32

-- `if n > 0 { n-- }`
abbrev pub decrement_word : ℕ → ℕ
decrement_word n = if ltb 0 n then n - 1 else n

abbrev pub unary_key : Bytes → Bytes
unary_key a = assemble_key unary_prefix false (a ∷ [])

-- A new array of counts where the key was not found.
abbrev pub or_zeros : UnaryCache → Result (List ℕ × UnaryCache) → Result (List ℕ × UnaryCache)
or_zeros uc (ok r) = ok r
or_zeros uc (err key_not_found) = ok (zeros, uc)
or_zeros uc (err e) = err e

module _ (b : Database) where
  -- The part of getIndex behind the look at the cache.
  abbrev pub load_index : UnaryCache → Bytes → b.Txn → Result (List ℕ × UnaryCache)
  load_index uc a t = do
    val ← b.get t (unary_key a)
    index ← decode_index val
    ok (index, insert a index uc)

  abbrev pub cached_index :
      Option (List ℕ) → UnaryCache → Bytes → b.Txn → Result (List ℕ × UnaryCache)
  cached_index (some index) uc a t = ok (index, uc)
  cached_index none uc a t = load_index uc a t

  -- A failed getIndex may leave an entry of zeros in the cache; every caller then gives the cache up.
  unfoldable pub get_index : UnaryCache → Bytes → b.Txn → Result (List ℕ × UnaryCache)
  get_index uc a t = cached_index (lookup a uc) uc a t

  -- Get returns the count with the cache that getIndex may have filled.
  get_count : ℕ → UnaryCache → Result (List ℕ × UnaryCache) → Result (ℕ × UnaryCache)
  get_count p uc (ok (index, uc')) = ok (get_or index p 0, uc')
  get_count p uc (err key_not_found) = ok (0, uc)
  get_count p uc (err e) = err e

  unfoldable pub get : ℕ → Bytes → UnaryCache → b.Txn → Result (ℕ × UnaryCache)
  unfolding get_count
  get p a uc t = get_count p uc (get_index uc a t)

  unfoldable pub increment : ℕ → Bytes → UnaryCache → b.Txn → Result UnaryCache
  increment p a uc t = do
    (index, uc') ← or_zeros uc (get_index uc a t)
    ok (insert a (adjust p increment_word index) uc')

  unfoldable pub decrement : ℕ → Bytes → UnaryCache → b.Txn → Result UnaryCache
  decrement p a uc t = do
    (index, uc') ← or_zeros uc (get_index uc a t)
    ok (insert a (adjust p decrement_word index) uc')
