-- ===== src/Badger/Cursor.antt =====
-- badger's iterators, as an interface.
use forty_six.Base.{◌≡◌, ◌↔◌, true, false, Option, some, Bytes}
use forty_six.QuadStore.Sort.{bytes_le}

-- badger.Iterator: the key that it stands at, if it is valid.
pub record Cursor : Type 1 where
  pub Iter : Type 0
  pub item : Iter → Option Bytes
  pub next : Iter → Iter
  pub seek : Bytes → Iter → Iter

-- What badger documents of Seek and Next: the smallest key that is not below the one given, and the
-- smallest key above the one it stands at, of the keys that the iterator ranges over. Neither changes
-- which keys these are.
pub record Seeks (cur : Cursor) : Type 1 where
  pub Has : cur.Iter → Bytes → Type 0
  pub item-seek :
      (key j : Bytes) (it : cur.Iter)
      → cur.item (cur.seek key it) ≡ some j
      → Has it j × (bytes_le key j ≡ true)
  pub least :
      (key u : Bytes) (it : cur.Iter)
      → Has it u
      → bytes_le key u ≡ true
      → (j : Bytes) × (cur.item (cur.seek key it) ≡ some j) × (bytes_le j u ≡ true)
  pub keep-seek : (key u : Bytes) (it : cur.Iter) → Has it u ↔ Has (cur.seek key it) u
  pub item-next :
      (k j : Bytes) (it : cur.Iter)
      → Has it k
      → cur.item it ≡ some k
      → cur.item (cur.next it) ≡ some j
      → Has it j × (bytes_le j k ≡ false)
  pub least-next :
      (k u : Bytes) (it : cur.Iter)
      → Has it k
      → cur.item it ≡ some k
      → Has it u
      → bytes_le u k ≡ false
      → (j : Bytes) × (cur.item (cur.next it) ≡ some j) × (bytes_le j u ≡ true)
  pub keep-next : (u : Bytes) (it : cur.Iter) → Has it u ↔ Has (cur.next it) u
