-- ===== src/Api/Rpc/Queries.antt =====
-- Query of styx.go and Close of iterator.go, as far as they begin and end transactions: the store as the
-- server's engine. A dictionary's transaction, which Close ends too, is its own and is left out.
use mathlib.Core.Option.{some-injective}
use forty_six.Base.{
  ◌≡◌, ◌≢◌, refl, sym, ap, ◌∙◌, Bool, true, false, List, ◌∷◌, Option, none, some, Error,
  key_not_found, empty_interset, Result,
}
use forty_six.Term.{Term}
use forty_six.Store.{RdfQuad}
use forty_six.Api.Rpc.{
  Decoders, Engine, Request, Handler, Value, query, result, find_method, handle, serve, disconnect,
}
use forty_six.Api.Rpc.Transactions.{Owns, never_closed}

-- badger's read transactions, with which of them are open.
pub record Transactions : Type 1 where
  pub Db : Type 0
  pub Txn : Type 0
  -- db.NewTransaction(false)
  pub begin : Db → Txn × Db
  pub discard : Txn → Db → Db
  pub is_open : Txn → Db → Bool

-- What badger documents: a new transaction is none of those that are open, and neither it nor a Discard
-- ends another one.
pub record Apart (txns : Transactions) : Type 0 where
  pub begin-fresh : (w : txns.Db) (t : txns.Txn) → txns.is_open t w ≡ true → (txns.begin w).0 ≢ t
  pub begin-keeps :
      (w : txns.Db) (t : txns.Txn)
      → txns.is_open t w ≡ true
      → txns.is_open t (txns.begin w).1 ≡ true
  pub discard-keeps :
      (w : txns.Db) (t u : txns.Txn)
      → u ≢ t
      → txns.is_open t w ≡ true
      → txns.is_open t (txns.discard u w) ≡ true

-- newIterator and the methods of an iterator, which read by its transaction and neither begin nor end
-- one. An iterator is known by its transaction; `memory` is what all of them have in memory. newIterator
-- gives a nil iterator, or an iterator, and an error.
pub record Search (txns : Transactions) : Type 1 where
  pub Memory : Type 0
  pub new_iterator :
      List RdfQuad → List Term → List Term → txns.Txn → Memory → Bool × Option Error × Memory
  -- iter.top = true
  pub set_top : txns.Txn → Memory → Memory
  pub domain : txns.Txn → Memory → List Term
  pub next : txns.Txn → Option Term → Memory → Result (Option (List Term)) × Memory
  pub seek : txns.Txn → List Term → Memory → Option Error × Memory
  pub prov : txns.Txn → Memory → Result (List (List Term))

module _ (txns : Transactions) (search : Search txns) where
  open txns use {Db, Txn, begin, discard, is_open}
  open search use {Memory, new_iterator, set_top}

  pub record World : Type 0 where
    pub db : Db
    pub memory : Memory

  abbrev pub Answer : Type 0
  Answer = Option Txn × Option Error × World

  abbrev pub pointer : Bool → Txn → Option Txn
  pointer true t = some t
  pointer false t = none

  -- Close, which does nothing on a nil iterator.
  unfoldable pub close_iterator : Option Txn → World → World
  close_iterator none w = w
  close_iterator (some t) w = record w { db = discard t w.db }

  -- iter.top = true; newIterator gives no nil iterator with the two errors.
  abbrev pub mark_top : Option Txn → World → World
  mark_top none w = w
  mark_top (some t) w = record w { memory = set_top t w.memory }

  -- The tests of newIterator's error.
  unfoldable pub forgive : Option Txn → Option Error → World → Answer
  forgive it none w = (it, none, w)
  forgive it (some key_not_found) w = (it, none, mark_top it (close_iterator it w))
  forgive it (some empty_interset) w = (it, none, mark_top it (close_iterator it w))
  forgive it (some e) w = (it, some e, close_iterator it w)

  -- Query
  unfoldable pub query_store : List RdfQuad → List Term → List Term → World → Answer
  query_store pattern domain index w =
      let (t, db) = begin w.db in
      let (made, e, memory) = new_iterator pattern domain index t w.memory in
      forgive (pointer made t) e (record { db = db; memory = memory })

  -- The store as the engine of the server.
  abbrev pub store_engine : Engine
  store_engine = record {
    Heap = World;
    Iterator = Txn;
    query = query_store;
    domain = λ t w. search.domain t w.memory;
    next = λ t node w. let (r, s) = search.next t node w.memory in (r, record w { memory = s });
    seek = λ t index w. let (e, s) = search.seek t index w.memory in (e, record w { memory = s });
    prov = λ t w. search.prov t w.memory;
    close = λ t w. close_iterator (some t) w;
  }

  module _ (apart : Apart txns) where
    open apart use {begin-fresh, begin-keeps, discard-keeps}

    pointer-some : (made : Bool) (t new : Txn) → pointer made t ≡ some new → t ≡ new
    pointer-some true t new e = some-injective t new e
    pointer-some false t new e = absurd (cc e)

    forgive-iterator : (it : Option Txn) (e : Option Error) (w : World) → (forgive it e w).0 ≡ it
    unfolding forgive
    forgive-iterator it none w = refl
    forgive-iterator it (some key_not_found) w = refl
    forgive-iterator it (some empty_interset) w = refl
    forgive-iterator it (some _) w = refl

    closed-keeps :
        (made : Bool) (t u : Txn) (w : World)
        → u ≢ t
        → is_open t w.db ≡ true
        → is_open t (close_iterator (pointer made u) w).db ≡ true
    unfolding close_iterator
    closed-keeps true t u w ne live = discard-keeps w.db t u ne live
    closed-keeps false t u w ne live = live

    marked : (made : Bool) (u : Txn) (w : World) → (mark_top (pointer made u) w).db ≡ w.db
    marked true u w = refl
    marked false u w = refl

    forgive-keeps :
        (made : Bool) (t u : Txn) (e : Option Error) (w : World)
        → u ≢ t
        → is_open t w.db ≡ true
        → is_open t (forgive (pointer made u) e w).2.db ≡ true
    unfolding forgive
    forgive-keeps made t u none w ne live = live
    forgive-keeps made t u (some key_not_found) w ne live =
        ap (is_open t) (marked made u _) ∙ closed-keeps made t u w ne live
    forgive-keeps made t u (some empty_interset) w ne live =
        ap (is_open t) (marked made u _) ∙ closed-keeps made t u w ne live
    forgive-keeps made t u (some _) w ne live = closed-keeps made t u w ne live

    -- The store's queries and iterators own their transactions as the server's connections need it.
    store_engine-Owns : (dec : Decoders) → Owns dec store_engine (λ t w. is_open t w.db)
    unfolding query_store close_iterator
    store_engine-Owns dec = record {
      query-fresh = λ quads domain index w w' it new e h live same.
          begin-fresh w.db it live
            (pointer-some _ _ new (sym (forgive-iterator _ _ _) ∙ ap (λ r. r.0) h) ∙ same);
      query-keeps = λ quads domain index w it live.
          forgive-keeps _ it (begin w.db).0 _ _ (begin-fresh w.db it live)
            (begin-keeps w.db it live);
      next-keeps = λ t node w it live. live;
      seek-keeps = λ t index w it live. live;
      close-keeps = λ t it w ne live. discard-keeps w.db it t ne live;
    }

    -- An iterator whose transaction is open when a further query gives a result, as that of the query
    -- before, is never closed by the connection: its transaction is open behind any further requests
    -- and the end of the connection. What badger documents of its transactions holds.
    pub query_leaks :
        (dec : Decoders) (r : Request dec store_engine) (rs : List (Request dec store_engine))
        (h : Handler dec store_engine) (t : Txn) (v : Value)
        → is_open t h.heap.db ≡ true
        → find_method r.method ≡ some query
        → (handle dec store_engine r h).0 ≡ result v
        → is_open t (disconnect dec store_engine (serve dec store_engine (r ∷ rs) h).1).heap.db
          ≡ true
    query_leaks dec r rs h t v live q e =
        never_closed dec store_engine (λ t w. is_open t w.db) (store_engine-Owns dec) t r rs h v
          live q e
