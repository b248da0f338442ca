-- ===== src/Api/Rpc.antt =====
-- api/rpc.go: the requests of one websocket connection. The state of a connection is its handler, which
-- holds the iterator of the last query.
pub mod Protocol
pub mod Session
pub mod Transactions
pub mod Queries
use forty_six.Base.{
  ℕ, zero, suc, Bool, true, false, List, [], ◌∷◌, Option, none, some, Bytes, bytes_eq, codes,
  length, ltb, if◌then◌else◌, Error, Result, err, ok,
}
use forty_six.Term.{Term, blank_node, variable}
use forty_six.Store.{RdfQuad}

-- The decoders of encoding/json and go-rdfjs, on messages that are parsed as far as they are asked for.
-- A query with a JSON null for a quad, on which Query panics, is left out.
pub record Decoders : Type 1 where
  pub Raw : Type 0
  pub params : Raw → Result (List Raw)
  pub quads : Raw → Result (List RdfQuad)
  pub terms : Raw → Result (List Term)
  pub term : Raw → Result Term

-- The store's Query, and the methods of an iterator, which is a pointer into a heap. A nil slice of
-- terms is told from an empty one only in what Next returns.
pub record Engine : Type 1 where
  pub Heap : Type 0
  pub Iterator : Type 0
  pub query : List RdfQuad → List Term → List Term → Heap → Option Iterator × Option Error × Heap
  pub domain : Iterator → Heap → List Term
  pub next : Iterator → Option Term → Heap → Result (Option (List Term)) × Heap
  pub seek : Iterator → List Term → Heap → Option Error × Heap
  pub prov : Iterator → Heap → Result (List (List Term))
  pub close : Iterator → Heap → Heap

-- The codes of jsonrpc2 that the handlers use.
pub data Code : Type 0 where
  method_not_found invalid_params invalid_request internal_error : Code

pub data Value : Type 0 where
  nil : Value
  terms : Option (List Term) → Value
  sources : List (List Term) → Value

-- What a method returns: a result with the code zero, or a code with the error that goes with it. The
-- nil iterator's Domain panics.
pub data Reply : Type 0 where
  result : Value → Reply
  refused : Code → Option Error → Reply
  crashed : Reply

pub data Method : Type 0 where
  query next seek prov close : Method

-- `methods`
unfoldable pub find_method : Bytes → Option Method
find_method name =
    if bytes_eq name (codes "query")
    then some query
    else if bytes_eq name (codes "next")
    then some next
    else if bytes_eq name (codes "seek")
    then some seek
    else if bytes_eq name (codes "prov")
    then some prov
    else if bytes_eq name (codes "close")
    then some close
    else none

-- The kinds of a term that Next takes.
abbrev pub is_variable : Term → Bool
is_variable (blank_node v) = true
is_variable (variable v) = true
is_variable _ = false

module _ (dec : Decoders) (eng : Engine) where
  -- rpcHandler, and the heap that its store and its iterator point into.
  pub record Handler : Type 0 where
    pub iter : Option eng.Iterator
    pub heap : eng.Heap

  abbrev pub Called : Type 0
  Called = Reply × Handler

  -- `if len(params) > n { ... UnmarshalTerms(params[n]) }`
  unfoldable pub terms_at : ℕ → List dec.Raw → Result (List Term)
  terms_at n [] = ok []
  terms_at zero (p ∷ params) = dec.terms p
  terms_at (suc n) (p ∷ params) = terms_at n params

  unfoldable pub opened : Option eng.Iterator × Option Error × eng.Heap → Called
  opened (it, some e, w) = (refused internal_error (some e), record { iter = it; heap = w })
  opened (some it, none, w) =
      (result (terms (some (eng.domain it w))), record { iter = some it; heap = w })
  opened (none, none, w) = (crashed, record { iter = none; heap = w })

  unfoldable pub query_index : List RdfQuad → List Term → Result (List Term) → Handler → Called
  query_index quads domain (err e) h = (refused invalid_params (some e), h)
  query_index quads domain (ok index) h = opened (eng.query quads domain index h.heap)

  unfoldable pub query_domain : List RdfQuad → Result (List Term) → List dec.Raw → Handler → Called
  query_domain quads (err e) params h = (refused invalid_params (some e), h)
  query_domain quads (ok domain) params h = query_index quads domain (terms_at 2 params) h

  unfoldable pub query_quads : Result (List RdfQuad) → List dec.Raw → Handler → Called
  query_quads (err e) params h = (refused invalid_params (some e), h)
  query_quads (ok []) params h = (refused invalid_params none, h)
  query_quads (ok (q ∷ quads)) params h = query_domain (q ∷ quads) (terms_at 1 params) params h

  -- callQuery
  unfoldable pub call_query : List dec.Raw → Handler → Called
  call_query [] h = (refused invalid_params none, h)
  call_query (p ∷ params) h =
      if ltb 3 (length (p ∷ params))
      then (refused invalid_params none, h)
      else query_quads (dec.quads p) (p ∷ params) h

  -- callClose, on the handler's iterator
  unfoldable pub call_close : Option eng.Iterator → List dec.Raw → Handler → Called
  call_close none params h = (refused invalid_request none, h)
  call_close (some it) (p ∷ params) h = (refused invalid_params none, h)
  call_close (some it) [] h = (result nil, record { iter = none; heap = eng.close it h.heap })

  unfoldable pub next_result : Result (Option (List Term)) × eng.Heap → Handler → Called
  next_result (err e, w) h = (refused internal_error (some e), record h { heap = w })
  next_result (ok delta, w) h = (result (terms delta), record h { heap = w })

  unfoldable pub next_term : eng.Iterator → Result Term → Handler → Called
  next_term it (err e) h = (refused invalid_params none, h)
  next_term it (ok t) h =
      if is_variable t
      then next_result (eng.next it (some t) h.heap) h
      else (refused invalid_params none, h)

  -- callNext
  unfoldable pub call_next : Option eng.Iterator → List dec.Raw → Handler → Called
  call_next none params h = (refused invalid_request none, h)
  call_next (some it) [] h = next_result (eng.next it none h.heap) h
  call_next (some it) (p ∷ []) h = next_term it (dec.term p) h
  call_next (some it) (p ∷ q ∷ params) h = (refused invalid_params none, h)

  unfoldable pub seek_result : Option Error × eng.Heap → Handler → Called
  seek_result (some e, w) h = (refused internal_error (some e), record h { heap = w })
  seek_result (none, w) h = (result nil, record h { heap = w })

  unfoldable pub seek_index : eng.Iterator → Result (List Term) → Handler → Called
  seek_index it (err e) h = (refused invalid_params (some e), h)
  seek_index it (ok index) h = seek_result (eng.seek it index h.heap) h

  -- callSeek
  unfoldable pub call_seek : Option eng.Iterator → List dec.Raw → Handler → Called
  call_seek none params h = (refused invalid_request none, h)
  call_seek (some it) (p ∷ q ∷ params) h = (refused invalid_params none, h)
  call_seek (some it) params h = seek_index it (terms_at 0 params) h

  unfoldable pub prov_result : Result (List (List Term)) → Handler → Called
  prov_result (err e) h = (refused internal_error (some e), h)
  prov_result (ok m) h = (result (sources m), h)

  -- callProv
  unfoldable pub call_prov : Option eng.Iterator → List dec.Raw → Handler → Called
  call_prov none params h = (refused invalid_request none, h)
  call_prov (some it) (p ∷ params) h = (refused invalid_params none, h)
  call_prov (some it) [] h = prov_result (eng.prov it h.heap) h

  unfoldable pub call : Method → List dec.Raw → Handler → Called
  call query params h = call_query params h
  call next params h = call_next h.iter params h
  call seek params h = call_seek h.iter params h
  call prov params h = call_prov h.iter params h
  call close params h = call_close h.iter params h

  -- jsonrpc2.Request
  pub record Request : Type 0 where
    pub method : Bytes
    pub params : Option dec.Raw

  unfoldable pub decode_params : Option dec.Raw → Result (List dec.Raw)
  decode_params none = ok []
  decode_params (some raw) = dec.params raw

  unfoldable pub call_decoded : Method → Result (List dec.Raw) → Handler → Called
  call_decoded m (err e) h = (refused invalid_params (some e), h)
  call_decoded m (ok params) h = call m params h

  unfoldable pub call_found : Option Method → Option dec.Raw → Handler → Called
  call_found none params h = (refused method_not_found none, h)
  call_found (some m) params h = call_decoded m (decode_params params) h

  -- Handle, with the reply that it sends
  unfoldable pub handle : Request → Handler → Called
  handle r h = call_found (find_method r.method) r.params h

  unfoldable pub close_iter : Option eng.Iterator → Handler → Handler
  close_iter none h = h
  close_iter (some it) h = record { iter = none; heap = eng.close it h.heap }

  -- The end of handleRPC, when the connection is gone.
  unfoldable pub disconnect : Handler → Handler
  disconnect h = close_iter h.iter h

  -- The requests of a connection, one after another, with the replies.
  unfoldable pub serve : List Request → Handler → List Reply × Handler
  serve [] h = ([], h)
  serve (r ∷ rs) h =
      let (reply, h) = handle r h in let (replies, h) = serve rs h in (reply ∷ replies, h)
