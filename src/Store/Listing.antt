-- ===== src/Store/Listing.antt =====
-- list.go: the nodes of the datasets in the database, over the badger store's list of ids.
use mathlib.Core.Option.{some-injective}
use forty_six.Base.{◌≡◌, ◌∙◌, ap, true, false, [], Option, none, some, Bytes, Result, ok, err}
use forty_six.Term.{Term, default_graph}
use forty_six.Badger.Cursor.{Cursor, Seeks}
use forty_six.QuadStore.Sort.{bytes_le}
use forty_six.QuadStore.Encoding.{dataset_key}
use forty_six.QuadStore.Scan.{list_from, next_id, IsDatasets, next_id-least}
use forty_six.Store.{DictionaryScheme}

module _ (dict : DictionaryScheme) (cur : Cursor) where
  pub record Listing : Type 0 where
    pub dictionary : dict.Open
    pub idlist : cur.Iter

  -- `node, _ = GetTerm(...)`: where it fails, the node is nil.
  unfoldable pub resolved : cur.Iter → dict.Open → Result (Term × dict.Open) → Option Term × Listing
  resolved it d (ok (node, d')) = (some node, record { dictionary = d'; idlist = it })
  resolved it d (err e) = (none, record { dictionary = d; idlist = it })

  unfoldable pub next_of : Option Bytes × cur.Iter → dict.Open → Option Term × Listing
  next_of (none, it) d = (none, record { dictionary = d; idlist = it })
  next_of (some id, it) d = resolved it d (dict.get_term id default_graph d)

  unfoldable pub next_node : Listing → Option Term × Listing
  next_node l = next_of (next_id cur l.idlist) l.dictionary

  -- List: a nil node is the default graph. An id that cannot be found is empty.
  abbrev pub node_or_default : Option Term → Term
  node_or_default none = default_graph
  node_or_default (some node) = node

  unfoldable pub listing_from : cur.Iter → dict.Open → Result (Bytes × dict.Open) → Listing
  listing_from it d (ok (id, d')) = record { dictionary = d'; idlist = list_from cur id it }
  listing_from it d (err e) = record { dictionary = d; idlist = list_from cur [] it }

  unfoldable pub list_store : Option Term → dict.Factory → cur.Iter → Listing
  list_store node factory it =
      let d = dict.open_with false factory in
      listing_from it d (dict.get_id (node_or_default node) default_graph d)

module _ (dict : DictionaryScheme) (cur : Cursor) (laws : Seeks cur) where
  open laws use {Has}

  next_of-some :
      (p : Option Bytes × cur.Iter) (j : Bytes) (d d' : dict.Open) (node : Term)
      → p.0 ≡ some j
      → dict.get_term j default_graph d ≡ ok (node, d')
      → (next_of dict cur p d).0 ≡ some node
  unfolding next_of resolved
  next_of-some (none, it) j d d' node e h = absurd (cc e)
  next_of-some (some i, it) j d d' node e h =
      let found = ap (λ k. dict.get_term k default_graph d) (some-injective i j e) ∙ h in
      ap (λ r. (resolved dict cur it d r).0) found

  -- The dictionary has a term for the id of each dataset.
  abbrev pub Resolves : dict.Open → cur.Iter → Type 0
  Resolves d it =
      (j : Bytes)
      → Has it (dataset_key j)
      → (node : Term) × ((d' : dict.Open) × (dict.get_term j default_graph d ≡ ok (node, d')))

  -- Where there is a dataset whose id is not below the one that List starts from, and the dictionary
  -- has a term for the id of each dataset, the first Next gives the node of the least such id.
  next_node-least :
      (id u : Bytes) (it : cur.Iter) (d : dict.Open)
      → IsDatasets cur laws it
      → Resolves d it
      → Has it (dataset_key u)
      → bytes_le id u ≡ true
      → (j : Bytes) × (bytes_le id j ≡ true)
        × (bytes_le j u ≡ true)
        × ((node : Term) × ((d' : dict.Open) × (dict.get_term j default_graph d ≡ ok (node, d')))
            × ((next_node dict cur (record { dictionary = d; idlist = list_from cur id it })).0
                ≡ some node))
  unfolding next_node
  next_node-least id u it d scan resolves has le =
      let (sound, least) = next_id-least cur laws id it scan in
      let (j, e, below) = least u has le in
      let (there, above) = sound j e in
      let (node, (d', h)) = resolves j there in
      (
        j,
        above,
        below,
        (node, (d', h), next_of-some (next_id cur (list_from cur id it)) j d d' node e h),
      )
