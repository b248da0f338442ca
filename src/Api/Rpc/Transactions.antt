-- ===== src/Api/Rpc/Transactions.antt =====
-- What a connection does to the transactions of its iterators.
use forty_six.Base.{
  ◌≡◌, ◌≢◌, ◌⊎◌, refl, subst, sym, ap, ◌∙◌, true, Bool, Bool-cases, inl, inr, List, [], ◌∷◌, Option,
  none, some, length, ltb, Error, Result, err, ok,
}
use mathlib.Core.Option.{some-injective}
use forty_six.Term.{Term}
use forty_six.Store.{RdfQuad}
use forty_six.Api.Rpc.{
  Decoders, Engine, Value, Method, Reply, Handler, Request, query, next, seek, prov, close, result,
  find_method, is_variable, terms_at, opened, query_index, query_domain, query_quads, call_query,
  call_close, next_result, next_term, call_next, seek_result, seek_index, call_seek, prov_result,
  call_prov, call, decode_params, call_decoded, call_found, handle, close_iter, disconnect, serve,
}

module _ (dec : Decoders) (eng : Engine) where
  -- Each iterator has a transaction of its own, which only its Close, or the Query that makes it, ends:
  -- Query makes a new iterator, and ends no transaction that is open; Close, Next and Seek end none of
  -- another iterator.
  pub record Owns (is_open : eng.Iterator → eng.Heap → Bool) : Type 0 where
    pub query-fresh :
        (quads : List RdfQuad) (domain index : List Term) (w w' : eng.Heap) (it new : eng.Iterator)
        (e : Option Error)
        → eng.query quads domain index w ≡ (some new, e, w')
        → is_open it w ≡ true
        → new ≢ it
    pub query-keeps :
        (quads : List RdfQuad) (domain index : List Term) (w : eng.Heap) (it : eng.Iterator)
        → is_open it w ≡ true
        → is_open it (eng.query quads domain index w).2 ≡ true
    pub next-keeps :
        (it' : eng.Iterator) (node : Option Term) (w : eng.Heap) (it : eng.Iterator)
        → is_open it w ≡ true
        → is_open it (eng.next it' node w).1 ≡ true
    pub seek-keeps :
        (it' : eng.Iterator) (index : List Term) (w : eng.Heap) (it : eng.Iterator)
        → is_open it w ≡ true
        → is_open it (eng.seek it' index w).1 ≡ true
    pub close-keeps :
        (it' it : eng.Iterator) (w : eng.Heap)
        → it' ≢ it
        → is_open it w ≡ true
        → is_open it (eng.close it' w) ≡ true

  module _ (is_open : eng.Iterator → eng.Heap → Bool) (owns : Owns is_open)
      (it : eng.Iterator) where
    open owns use {query-fresh, query-keeps, next-keeps, seek-keeps, close-keeps}

    -- The iterator is open, and the handler has it no more.
    abbrev Lost : Handler dec eng → Type 0
    Lost h = (is_open it h.heap ≡ true) × (h.iter ≢ some it)

    opened-Lost :
        (r : Option eng.Iterator × Option Error × eng.Heap)
        → is_open it r.2 ≡ true
        → ((new : eng.Iterator) → r.0 ≡ some new → new ≢ it)
        → Lost (opened dec eng r).1
    unfolding opened
    opened-Lost (none, some e, w) h f = (h, λ k. cc k)
    opened-Lost (some new, some e, w) h f = (h, λ k. f new refl (some-injective new it k))
    opened-Lost (some new, none, w) h f = (h, λ k. f new refl (some-injective new it k))
    opened-Lost (none, none, w) h f = (h, λ k. cc k)

    module _ (h : Handler dec eng) where
      -- A call of query leaves the iterator open without the handler, or it is refused and leaves the
      -- handler as it was.
      Asks : Reply × Handler dec eng → Type 0
      Asks (reply, h') = Lost h' ⊎ ((h' ≡ h) × ((v : Value) → reply ≢ result v))

      module _ (live : is_open it h.heap ≡ true) where
        index-Asks :
            (quads : List RdfQuad) (domain : List Term) (index : Result (List Term))
            → Asks (query_index dec eng quads domain index h)
        unfolding Asks query_index
        index-Asks quads domain (err e) = inr (refl, λ v k. cc k)
        index-Asks quads domain (ok index) = inl (
            opened-Lost (eng.query quads domain index h.heap)
              (query-keeps quads domain index h.heap it live)
              (λ new e.
                query-fresh quads domain index h.heap _ it new _
                  (ap
                    (λ o. (
                      o,
                      (eng.query quads domain index h.heap).1,
                      (eng.query quads domain index h.heap).2,
                    ))
                    e)
                  live))

        domain-Asks :
            (quads : List RdfQuad) (domain : Result (List Term)) (params : List dec.Raw)
            → Asks (query_domain dec eng quads domain params h)
        unfolding Asks query_domain
        domain-Asks quads (err e) params = inr (refl, λ v k. cc k)
        domain-Asks quads (ok domain) params = index-Asks quads domain (terms_at dec eng 2 params)

        quads-Asks :
            (quads : Result (List RdfQuad)) (params : List dec.Raw)
            → Asks (query_quads dec eng quads params h)
        unfolding Asks query_quads
        quads-Asks (err e) params = inr (refl, λ v k. cc k)
        quads-Asks (ok []) params = inr (refl, λ v k. cc k)
        quads-Asks (ok (q ∷ quads)) params =
            domain-Asks (q ∷ quads) (terms_at dec eng 1 params) params

        query-Asks : (params : List dec.Raw) → Asks (call_query dec eng params h)
        unfolding Asks call_query
        query-Asks [] = inr (refl, λ v k. cc k)
        query-Asks (p ∷ params) = elim (Bool-cases (ltb 3 (length (p ∷ params)))) [
          | inl e ↦ rw e (inr (refl, λ v k. cc k))
          | inr e ↦ rw e (quads-Asks (dec.quads p) (p ∷ params))
        ]

        decoded-Asks : (params : Result (List dec.Raw)) → Asks (call_decoded dec eng query params h)
        unfolding Asks call_decoded call
        decoded-Asks (err e) = inr (refl, λ v k. cc k)
        decoded-Asks (ok params) = query-Asks params

        handle-Asks :
            (r : Request dec eng) → find_method r.method ≡ some query → Asks (handle dec eng r h)
        unfolding handle call_found
        handle-Asks r e = rw e (decoded-Asks (decode_params dec eng r.params))

      -- A call of any method on a handler that has lost the iterator.
      module _ (lost : Lost h) where
        result-Lost : (w : eng.Heap) → is_open it w ≡ true → Lost (record h { heap = w })
        result-Lost w k = (k, lost.1)

        next_result-Lost :
            (r : Result (Option (List Term)) × eng.Heap)
            → is_open it r.1 ≡ true
            → Lost (next_result dec eng r h).1
        unfolding next_result
        next_result-Lost (err e, w) k = result-Lost w k
        next_result-Lost (ok d, w) k = result-Lost w k

        next_term-Lost : (i : eng.Iterator) (t : Result Term) → Lost (next_term dec eng i t h).1
        unfolding next_term
        next_term-Lost i (err e) = lost
        next_term-Lost i (ok t) = elim (Bool-cases (is_variable t)) [
          | inl e ↦ rw e (
              next_result-Lost (eng.next i (some t) h.heap)
                (next-keeps i (some t) h.heap it lost.0))
          | inr e ↦ rw e lost
        ]

        next-Lost :
            (i : Option eng.Iterator) (params : List dec.Raw)
            → Lost (call_next dec eng i params h).1
        unfolding call_next
        next-Lost none params = lost
        next-Lost (some i) [] =
            next_result-Lost (eng.next i none h.heap) (next-keeps i none h.heap it lost.0)
        next-Lost (some i) (p ∷ []) = next_term-Lost i (dec.term p)
        next-Lost (some i) (p ∷ q ∷ params) = lost

        seek_result-Lost :
            (r : Option Error × eng.Heap) → is_open it r.1 ≡ true → Lost (seek_result dec eng r h).1
        unfolding seek_result
        seek_result-Lost (some e, w) k = result-Lost w k
        seek_result-Lost (none, w) k = result-Lost w k

        seek_index-Lost :
            (i : eng.Iterator) (index : Result (List Term)) → Lost (seek_index dec eng i index h).1
        unfolding seek_index
        seek_index-Lost i (err e) = lost
        seek_index-Lost i (ok index) =
            seek_result-Lost (eng.seek i index h.heap) (seek-keeps i index h.heap it lost.0)

        seek-Lost :
            (i : Option eng.Iterator) (params : List dec.Raw)
            → Lost (call_seek dec eng i params h).1
        unfolding call_seek
        seek-Lost none params = lost
        seek-Lost (some i) [] = seek_index-Lost i _
        seek-Lost (some i) (p ∷ []) = seek_index-Lost i _
        seek-Lost (some i) (p ∷ q ∷ params) = lost

        prov_result-Lost : (r : Result (List (List Term))) → Lost (prov_result dec eng r h).1
        unfolding prov_result
        prov_result-Lost (err e) = lost
        prov_result-Lost (ok m) = lost

        prov-Lost :
            (i : Option eng.Iterator) (params : List dec.Raw)
            → Lost (call_prov dec eng i params h).1
        unfolding call_prov
        prov-Lost none params = lost
        prov-Lost (some i) [] = prov_result-Lost _
        prov-Lost (some i) (p ∷ params) = lost

        close-Lost :
            (i : Option eng.Iterator) (params : List dec.Raw)
            → h.iter ≡ i
            → Lost (call_close dec eng i params h).1
        unfolding call_close
        close-Lost none params e = lost
        close-Lost (some i) (p ∷ params) e = lost
        close-Lost (some i) [] e =
            (close-keeps i it h.heap (λ k. lost.1 (e ∙ ap some k)) lost.0, λ k. cc k)

        asked-Lost : (c : Reply × Handler dec eng) → Asks c → Lost c.1
        unfolding Asks
        asked-Lost (reply, h') (inl l) = l
        asked-Lost (reply, h') (inr (e, _)) = subst Lost (sym e) lost

        call-Lost : (m : Method) (params : List dec.Raw) → Lost (call dec eng m params h).1
        unfolding call
        call-Lost query params = asked-Lost _ (query-Asks lost.0 params)
        call-Lost next params = next-Lost h.iter params
        call-Lost seek params = seek-Lost h.iter params
        call-Lost prov params = prov-Lost h.iter params
        call-Lost close params = close-Lost h.iter params refl

        found-Lost :
            (m : Option Method) (params : Option dec.Raw) → Lost (call_found dec eng m params h).1
        unfolding call_found call_decoded
        found-Lost none params = lost
        found-Lost (some m) params = decoded (decode_params dec eng params)
          where
            decoded : (r : Result (List dec.Raw)) → Lost (call_decoded dec eng m r h).1
            decoded (err e) = lost
            decoded (ok params) = call-Lost m params

    serve-Lost :
        (rs : List (Request dec eng)) (h : Handler dec eng) → Lost h → Lost (serve dec eng rs h).1
    unfolding serve
    serve-Lost [] h lost = lost
    serve-Lost (r ∷ rs) h lost =
        serve-Lost rs (handle dec eng r h).1
          (unfold handle in found-Lost h lost (find_method r.method) r.params)

    disconnect-Lost : (h : Handler dec eng) → Lost h → Lost (disconnect dec eng h)
    unfolding disconnect close_iter
    disconnect-Lost h lost = closed h.iter refl
      where
        closed : (i : Option eng.Iterator) → h.iter ≡ i → Lost (close_iter dec eng i h)
        closed none e = lost
        closed (some i) e =
            (close-keeps i it h.heap (λ k. lost.1 (e ∙ ap some k)) lost.0, λ k. cc k)

    -- An iterator that is open when a query gives a result, as that of the query before, is never closed
    -- by the connection: it is still open behind any further requests and the end of the connection.
    pub never_closed :
        (r : Request dec eng) (rs : List (Request dec eng)) (h : Handler dec eng) (v : Value)
        → is_open it h.heap ≡ true
        → find_method r.method ≡ some query
        → (handle dec eng r h).0 ≡ result v
        → is_open it (disconnect dec eng (serve dec eng (r ∷ rs) h).1).heap ≡ true
    unfolding serve Asks
    never_closed r rs h v live q e =
        (disconnect-Lost (serve dec eng rs (handle dec eng r h).1).1 (
          serve-Lost rs (handle dec eng r h).1
            (replaced (handle dec eng r h) (handle-Asks h live r q) e))).0
      where
        replaced : (c : Reply × Handler dec eng) → Asks h c → c.0 ≡ result v → Lost c.1
        replaced (reply, h') (inl l) e = l
        replaced (reply, h') (inr (same, refuses)) e = absurd (refuses v e)
