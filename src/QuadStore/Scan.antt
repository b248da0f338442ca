-- ===== src/QuadStore/Scan.antt =====
-- badgerList of store.go: the ids of the datasets in the database, from an id on. The iterator ranges
-- over the keys with the prefix of the datasets.
use mathlib.Core.Option.{some-injective}
use forty_six.Base.{
  append-nil, ◌≡◌, ◌∙◌, refl, sym, ap, subst, true, false, [], ◌∷◌, Option, none, some, Bytes, drop,
}
use forty_six.Text.{join}
use forty_six.Util.Keys.{dataset_prefix}
use forty_six.Util.Keys.Layout.{assemble_key-join}
use forty_six.Badger.Cursor.{Cursor, Seeks}
use forty_six.QuadStore.Sort.{bytes_le}
use forty_six.QuadStore.Encoding.{dataset_key}

module _ (cur : Cursor) where
  -- List
  unfoldable pub list_from : Bytes → cur.Iter → cur.Iter
  list_from id it = cur.seek (dataset_key id) it

  at_item : cur.Iter → Option Bytes → Option Bytes × cur.Iter
  at_item it none = (none, it)
  at_item it (some key) = (some (drop 1 key), cur.next it)

  -- Next
  unfoldable pub next_id : cur.Iter → Option Bytes × cur.Iter
  unfolding at_item
  next_id it = at_item it (cur.item it)

dataset_key-cons : (id : Bytes) → dataset_key id ≡ dataset_prefix ∷ id
unfolding join
dataset_key-cons id =
    assemble_key-join dataset_prefix false id [] ∙ ap (λ r. dataset_prefix ∷ r) (append-nil id)

-- the order of the keys is that of the ids
dataset_key-le : (x y : Bytes) → bytes_le (dataset_key x) (dataset_key y) ≡ bytes_le x y
unfolding bytes_le
dataset_key-le x y = rw (dataset_key-cons x, dataset_key-cons y) refl

module _ (cur : Cursor) (laws : Seeks cur) where
  open laws use {Has}

  -- The iterator ranges over keys of datasets.
  abbrev pub IsDatasets : cur.Iter → Type 0
  IsDatasets it = (key : Bytes) → Has it key → (id : Bytes) × (key ≡ dataset_key id)

  -- the id that the first Next gives
  abbrev pub first : Bytes → cur.Iter → Option Bytes
  first id it = (next_id cur (list_from cur id it)).0

  first-key :
      (id j : Bytes) (it : cur.Iter)
      → cur.item (cur.seek (dataset_key id) it) ≡ some (dataset_key j)
      → first id it ≡ some j
  unfolding next_id list_from
  first-key id j it e =
      ap (λ (r : Option Bytes). (at_item cur (cur.seek (dataset_key id) it) r).0) e
      ∙ ap (λ (k : Bytes). some (drop 1 k)) (dataset_key-cons j)

  listed :
      (id j : Bytes) (it : cur.Iter) (r : Option Bytes)
      → IsDatasets it
      → cur.item (cur.seek (dataset_key id) it) ≡ r
      → (at_item cur (cur.seek (dataset_key id) it) r).0 ≡ some j
      → Has it (dataset_key j) × (bytes_le id j ≡ true)
  unfolding at_item
  listed id j it none scan e h = absurd (cc h)
  listed id j it (some key) scan e h =
      let (there, above) = laws.item-seek (dataset_key id) key it e in
      let (i, same) = scan key there in
      let at : dataset_key i ≡ dataset_key j =
        ap dataset_key
          (ap (λ (k : Bytes). drop 1 k) (sym (same ∙ dataset_key-cons i)) ∙ some-injective _ _ h) in
      (
        subst (Has it) (same ∙ at) there,
        sym (dataset_key-le id j) ∙ ap (bytes_le (dataset_key id)) (sym (same ∙ at)) ∙ above,
      )

  -- The first id that Next gives, if it gives one, is that of a dataset and is not below the id that
  -- List was called with; if there is any such dataset, Next gives an id, and the least.
  pub next_id-least :
      (id : Bytes) (it : cur.Iter)
      → IsDatasets it
      → ((j : Bytes) → first id it ≡ some j → Has it (dataset_key j) × (bytes_le id j ≡ true))
        × ((u : Bytes)
            → Has it (dataset_key u)
            → bytes_le id u ≡ true
            → (j : Bytes) × (first id it ≡ some j) × (bytes_le j u ≡ true))
  unfolding next_id list_from
  next_id-least id it scan = (
    λ j h. listed id j it _ scan refl h,
    λ u has le.
        let (key, e, below) =
          laws.least (dataset_key id) (dataset_key u) it has (dataset_key-le id u ∙ le) in
        let (there, above) = laws.item-seek (dataset_key id) key it e in
        let (j, same) = scan key there in
        (
          j,
          first-key id j it (e ∙ ap some same),
          sym (dataset_key-le j u) ∙ ap (λ k. bytes_le k (dataset_key u)) (sym same) ∙ below,
        ),
  )
