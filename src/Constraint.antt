-- ===== src/Constraint.antt =====
-- constraint.go: a constraint of a query, as far as it iterates over the values of a variable. Its
-- quad, its index and its neighbours are not modelled.
pub mod Seek
pub mod Set
pub mod Values
pub mod Agreement
pub mod Intersect
pub mod Next
pub mod Least
use forty_six.Base.{
  ℕ, ◌+◌, ◌%◌, ◌≡◌, ◌≢◌, Bool, true, false, ◌&&◌, List, [], ◌∷◌, ◌++◌, Option, none, some, Bytes,
  drop, if◌then◌else◌, Error, Result, ok, err, ◌>>=◌,
}
use forty_six.Text.{has_prefix, after_last}
use forty_six.Util.Keys.{tab}
use forty_six.Util.Triples.{Triple, at}
use forty_six.Badger.{Database}
use forty_six.Badger.Cursor.{Cursor}
use forty_six.Caches.Unary
use forty_six.Caches.Unary.{UnaryCache}
use forty_six.Caches.Binary
use forty_six.Caches.Binary.{BinaryCache}

-- The text behind the last tab of a key, and behind its first byte where there is no tab.
abbrev pub key_value : Bytes → Bytes
key_value key = after_last tab key (drop 1 key)

-- ValidForPrefix and the value of the item, or the empty id.
unfoldable pub item_value : Bytes → Option Bytes → Bytes
item_value prefix none = []
item_value prefix (some key) = if has_prefix prefix key then key_value key else []

pub record Constraint (cur : Cursor) : Type 0 where
  pub place : ℕ
  pub prefix : Bytes
  pub iterator : cur.Iter
  pub terms : Triple Bytes

-- getCount on the terms at the two other places, of which the empty id is a variable's.
unfoldable pub count_terms :
    (b : Database)
    → ℕ
    → ℕ
    → Bytes
    → Bytes
    → UnaryCache
    → BinaryCache
    → b.Txn
    → Result (ℕ × UnaryCache × BinaryCache)
count_terms b j k [] [] uc bc t = ok (48329, uc, bc)
count_terms b j k [] (x ∷ w) uc bc t = do (n, uc) ← Unary.get b k (x ∷ w) uc t; ok (n, uc, bc)
count_terms b j k (x ∷ v) [] uc bc t = do (n, uc) ← Unary.get b (j + 3) (x ∷ v) uc t; ok (n, uc, bc)
count_terms b j k (x ∷ v) (y ∷ w) uc bc t = do
  (n, bc) ← Binary.get b j (x ∷ v) (y ∷ w) bc t
  ok (n, uc, bc)

module _ (cur : Cursor) where
  unfoldable pub value : Constraint cur → Bytes
  value c = item_value c.prefix (cur.item c.iterator)

  unfoldable pub next : Constraint cur → Bytes × Constraint cur
  next c = let c' = record c { iterator = cur.next c.iterator } in (value c', c')

  unfoldable pub seek : Bytes → Constraint cur → Bytes × Constraint cur
  seek v c = let c' = record c { iterator = cur.seek (c.prefix ++ v) c.iterator } in (value c', c')

  unfoldable pub get_count :
      (b : Database)
      → Constraint cur
      → UnaryCache
      → BinaryCache
      → b.Txn
      → Result (ℕ × UnaryCache × BinaryCache)
  get_count b c uc bc t =
      let j = (c.place + 1) % 3 in
      let k = (c.place + 2) % 3 in count_terms b j k (at c.terms j) (at c.terms k) uc bc t
