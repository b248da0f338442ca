-- ===== src/Store.antt =====
-- Store.Set of set.go, Store.Delete of delete.go and Store.Get of get.go, over interfaces of the
-- dictionary and of the quad store.
pub mod RoundTrip
pub mod Listing
use forty_six.Base.{
  ℕ, suc, ◌+◌, ◌%◌, ◌^◌, Bool, true, false, List, [], ◌∷◌, Option, none, some, Bytes, if◌then◌else◌,
  Error, not_found, tag_scheme, Result, ok, err, ◌>>=◌,
}
use forty_six.Statement.{Statement}
use forty_six.Term.{Term, default_graph}
use forty_six.Tags.{accepts, nil_test}
use forty_six.Badger.{Database}
use forty_six.QuadStore.{Quad}
use forty_six.Index.{Session, triple_of, add_triple, delete_quads, write_back, fresh}

-- DictionaryFactory and Dictionary. `Factory` is what stays when a dictionary is committed.
pub record DictionaryScheme : Type 1 where
  pub Factory : Type 0
  pub Open : Type 0
  pub open_with : Bool → Factory → Open
  pub get_id : Term → Term → Open → Result (Bytes × Open)
  pub get_term : Bytes → Term → Open → Result (Term × Open)
  pub commit : Open → Factory

-- QuadStore, less its List.
pub record QuadStoreScheme : Type 1 where
  pub Store : Type 0
  pub get : Bytes → Store → Result (List Quad)
  pub set : Bytes → List Quad → Store → Result Store
  pub delete : Bytes → Store → Result Store

-- emptyStore: no dataset is kept.
abbrev pub empty_store : QuadStoreScheme
empty_store = record {
  Store = Unit;
  get = λ id m. ok [];
  set = λ id quads m. ok m;
  delete = λ id m. ok m;
}

-- Config: a nil field stands for a default.
pub record Config : Type 1 where
  pub tag_test : Option (Bytes → Bool)
  pub dictionary : Option DictionaryScheme
  pub quad_store : Option QuadStoreScheme

abbrev or_else {ℓ} : {A : Type ℓ} → Option A → A → Option A
or_else none d = some d
or_else (some a) d = some a

-- The defaults of NewStore; `strings` is the stringDictionary.
abbrev pub new_store : DictionaryScheme → Config → Config
new_store strings c = record {
  tag_test = or_else c.tag_test nil_test;
  dictionary = or_else c.dictionary strings;
  quad_store = or_else c.quad_store empty_store;
}

-- a quad of go-rdfjs
pub record RdfQuad : Type 0 where
  pub subject : Term
  pub predicate : Term
  pub object : Term
  pub graph : Term

-- A dataset that is not found is one with nothing to delete, like a nil slice.
abbrev pub old_quads : Result (List Quad) → Result (List Quad)
old_quads (ok quads) = ok quads
old_quads (err not_found) = ok []
old_quads (err e) = err e

module _ (b : Database) (dict : DictionaryScheme) (store : QuadStoreScheme) where
  open dict use {Factory, Open, open_with, get_id, get_term}

  -- `dictionary.Commit` runs at the end of every call, also of one that fails: here the state that a
  -- failed call leaves is given up.
  pub record State : Type 0 where
    pub db : b.Db
    pub dictionary : Factory
    pub quads : store.Store

  -- The loop over the four terms of a quad.
  unfoldable pub quad_ids : Term → RdfQuad → Open → Result (Quad × Open)
  quad_ids node quad d = do
    (s, d) ← get_id quad.subject node d
    (p, d) ← get_id quad.predicate node d
    (o, d) ← get_id quad.object node d
    (g, d) ← get_id quad.graph node d
    ok (record { subject = s; predicate = p; object = o; graph = g }, d)

  abbrev pub source : Bytes → ℕ → Quad → Statement
  source origin i quad = record { base = origin; index = i % 2 ^ 64; graph = quad.graph }

  -- The loop over the dataset, from the quad with the index `i` on.
  unfoldable pub add_quads :
      Term → Bytes → ℕ → List RdfQuad → Open → Session b → Result (List Quad × Open × Session b)
  add_quads node origin i [] d s = ok ([], d, s)
  add_quads node origin i (quad ∷ dataset) d s = do
    (ids, d) ← quad_ids node quad d
    s ← add_triple b (triple_of ids) (source origin i ids) s
    (quads, d, s) ← add_quads node origin (suc i) dataset d s
    ok (ids ∷ quads, d, s)

  -- Set behind its guard.
  unfoldable pub put : Term → List RdfQuad → State → Result State
  put node dataset st = do
    (origin, d) ← get_id node default_graph (open_with true st.dictionary)
    old ← old_quads (store.get origin st.quads)
    t ← delete_quads b origin old (b.begin st.db)
    (quads, d, s) ← add_quads node origin 0 dataset d (fresh b t)
    t ← write_back b s
    db ← b.commit t
    st' ← store.set origin quads st.quads
    ok (record { db = db; dictionary = dict.commit d; quads = st' })

  unfoldable pub set : (Bytes → Bool) → Term → List RdfQuad → State → Result State
  set test node dataset st = if accepts test node then put node dataset st else err tag_scheme

  unfoldable pub delete : Term → State → Result State
  delete node st = do
    (origin, d) ← get_id node default_graph (open_with false st.dictionary)
    quads ← store.get origin st.quads
    t ← delete_quads b origin quads (b.begin st.db)
    db ← b.commit t
    st' ← store.delete origin st.quads
    ok (record { db = db; dictionary = dict.commit d; quads = st' })

  unfoldable pub read_quads : Term → List Quad → Open → Result (List RdfQuad)
  read_quads node [] d = ok []
  read_quads node (quad ∷ quads) d = do
    (s, d) ← get_term quad.subject node d
    (p, d) ← get_term quad.predicate node d
    (o, d) ← get_term quad.object node d
    (g, d) ← get_term quad.graph node d
    rest ← read_quads node quads d
    ok (record { subject = s; predicate = p; object = o; graph = g } ∷ rest)

  unfoldable pub get : Term → State → Result (List RdfQuad)
  get node st = do
    (id, d) ← get_id node default_graph (open_with false st.dictionary)
    quads ← store.get id st.quads
    read_quads node quads d
