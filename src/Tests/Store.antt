-- ===== src/Tests/Store.antt =====
-- Store.Set, Store.Get and Store.Delete on a concrete store: the concrete database, a stringDictionary
-- and a memoryStore.
use forty_six.Base.{
  ap, sym, ◌∙◌, ◌≡◌, refl, Bool, true, List, [], ◌∷◌, Bytes, codes, not_found, Result, ok, err,
  ok-injective, ◌>>=◌, bytes_eq, bytes_eq_self, All,
}
use forty_six.Text.{has_prefix, index_byte}
use forty_six.Tags.{accepts}
use forty_six.Util.Triples.{permute}
use forty_six.Util.Keys.{assemble_key}
use forty_six.Term.{Term, named_node, blank_node, default_graph}
use forty_six.Strconv.{format_uint}
use forty_six.Statement.{to_string}
use forty_six.Badger.{set_safe}
use forty_six.Dict.{lookup, insert, remove}
use forty_six.Caches.Unary
use forty_six.Caches.Binary.{delta}
use forty_six.Caches.Commit.{
  commit_binary, commit_unary, commit_loop, commit_count, commit_index, all_zero,
}
use forty_six.QuadStore.{Quad}
use forty_six.QuadStore.Sort.{search_strings}
use forty_six.QuadStore.Memory
use forty_six.QuadStore.Memory.{MemoryStore}
use forty_six.QuadStore.Memory.Listing.{get-set, get-delete_memory}
use forty_six.Index.{
  add_triple, add_permutation, add_entry, add_missing, delete_quads, remove_quads, write_back,
}
use forty_six.Dictionary.Strings
use forty_six.Dictionary.Strings.{ComesBack, get_term-get_id_string}
use forty_six.Store
use forty_six.Store.{
  DictionaryScheme, QuadStoreScheme, RdfQuad, State, quad_ids, add_quads, put, set,
}
use forty_six.Store.RoundTrip.{Remembers, IsGoodQuad, get-set_store}
use forty_six.Tests.Disk.{disk, blank}
use forty_six.Tests.Dictionary.{angle_syntax}

-- a dictionary without a state
abbrev words : DictionaryScheme
words = record {
  Factory = Unit;
  Open = Unit;
  open_with = λ update d. tt;
  get_id = λ t o d. ok (Strings.get_id angle_syntax t o, d);
  get_term = λ id o d. (do t ← Strings.get_term angle_syntax id o; ok (t, d));
  commit = λ d. tt;
}

abbrev IsGood : Term → Term → Type 0
IsGood t o = ComesBack angle_syntax o t

abbrev KnowsWord : Unit {0} → Bytes → Term → Term → Type 0
KnowsWord d id t o = (Strings.get_id angle_syntax t o ≡ id) × IsGood t o

read_word :
    (t o : Term) (id : Bytes) (d : Unit {0})
    → Strings.get_id angle_syntax t o ≡ id
    → IsGood t o
    → words.get_term id o d ≡ ok (t, d)
read_word t o id d e good = rw (sym e, get_term-get_id_string angle_syntax t o good) refl

words-Remembers : Remembers words IsGood
words-Remembers = record {
  Knows = KnowsWord;
  learns = λ t o d d' id good h. (ap (λ r. r.0) (ok-injective _ _ h), good);
  keeps = λ t o u v d d' id j h k. k;
  reads = λ t o d id k. (d, read_word t o id d k.0 k.1, λ j u v k. k);
  gives = λ t o d id k. (d, ap (λ i. ok (i, d)) k.0, λ j u v k. k);
  reopens = λ t o d id k. k;
}

abbrev memory : QuadStoreScheme
memory = record {
  Store = MemoryStore;
  get = Memory.get;
  set = λ id quads m. ok (Memory.set id quads m);
  delete = Memory.delete;
}

memory_returns :
    (id : Bytes) (quads : List Quad) (m m' : MemoryStore)
    → memory.set id quads m ≡ ok m'
    → memory.get id m' ≡ ok quads
memory_returns id quads m m' h =
    ap (Memory.get id) (sym (ok-injective _ m' h))
    ∙ get-set id id quads m
    ∙ rw (bytes_eq_self id) refl

abbrev node : Term
node = named_node (codes "x")

abbrev dataset : List RdfQuad
dataset =
    record {
      subject = blank_node (codes "b0");
      predicate = named_node (codes "p");
      object = blank_node (codes "b1");
      graph = default_graph;
    }
    ∷ []

abbrev Here : Type 0
Here = State disk words memory

abbrev before : Here
before = record { db = blank; dictionary = tt; quads = Memory.empty }

abbrev state_of : Result Here → Here
state_of (ok s) = s
state_of (err e) = before

abbrev accept : Bytes → Bool
accept uri = true

abbrev after : Here
after = state_of (set disk words memory accept node dataset before)

sets : set disk words memory accept node dataset before ≡ ok after
unfolding set accepts index_byte put Strings.get_id Strings.named_id Memory.get delete_quads
    remove_quads write_back commit_binary commit_unary commit_loop commit_count commit_index
    all_zero add_quads quad_ids add_triple add_permutation add_entry add_missing permute delta
    Unary.increment Unary.get_index lookup insert set_safe to_string bytes_eq assemble_key
    format_uint
sets = refl

dataset-IsGoodQuad : All (IsGoodQuad IsGood node) dataset
unfolding has_prefix
dataset-IsGoodQuad = (
  record {
    subject = (λ e. cc, tt);
    predicate = (refl, refl, refl);
    object = (λ e. cc, tt);
    graph = tt;
  },
  tt,
)

get-set_store_example : Store.get disk words memory node after ≡ ok dataset
get-set_store_example =
    get-set_store disk words memory IsGood words-Remembers memory_returns accept node dataset before
      after refl dataset-IsGoodQuad sets

-- a store with the empty dataset of the node
abbrev with_empty : Here
with_empty = record before {
  quads = record { datasets = (codes "<x>", []) ∷ []; values = codes "<x>" ∷ [] };
}

abbrev without : Here
without = record before { quads = Memory.empty }

deletes : Store.delete disk words memory node with_empty ≡ ok without
unfolding Store.delete Strings.get_id Strings.named_id Memory.get Memory.delete delete_quads
    remove_quads write_back commit_binary commit_unary commit_loop lookup remove bytes_eq
    search_strings
deletes = refl

memory_removes :
    (id : Bytes) (m m' : MemoryStore)
    → memory.delete id m ≡ ok m'
    → memory.get id m' ≡ err not_found
memory_removes = get-delete_memory
