-- ===== src/Api/Rpc/Protocol.antt =====
-- The protocol of a connection: two phases, and the replies that each method may get in them.
use forty_six.Base.{
  ◌≢◌, refl, Bool-cases, inl, inr, List, [], ◌∷◌, Option, none, some, length, ltb, Error, Result,
  err, ok,
}
use forty_six.Term.{Term}
use forty_six.Store.{RdfQuad}
use forty_six.Api.Rpc.{
  Decoders, Engine, Value, nil, terms, sources, Method, Reply, Handler, Request, method_not_found,
  invalid_params, invalid_request, internal_error, query, next, seek, prov, close, result, refused,
  find_method, is_variable, terms_at, opened, query_index, query_domain, query_quads, call_query,
  call_close, next_result, next_term, call_next, seek_result, seek_index, call_seek, prov_result,
  call_prov, call, decode_params, call_decoded, call_found, handle,
}

pub data Phase : Type 0 where
  idle active : Phase

-- Next, Seek and Prov, which use the iterator that there is.
pub data IsUse : Method → Type 0 where
  next_use : IsUse next
  seek_use : IsUse seek
  prov_use : IsUse prov

-- A request for a method, the reply, and the phases in front of it and behind it. A query that fails
-- may leave any phase.
pub data Step : Phase → Option Method → Reply → Phase → Type 0 where
  unknown : {p : Phase} → Step p none (refused method_not_found none) p
  rejected :
      {p : Phase} {m : Method} (e : Option Error) → Step p (some m) (refused invalid_params e) p
  opens : {p : Phase} (v : Value) → Step p (some query) (result v) active
  fails : {p q : Phase} (e : Error) → Step p (some query) (refused internal_error (some e)) q
  absent : {m : Method} → m ≢ query → Step idle (some m) (refused invalid_request none) idle
  closes : Step active (some close) (result nil) idle
  used : {m : Method} (v : Value) → IsUse m → Step active (some m) (result v) active
  failed_use :
      {m : Method} (e : Error)
      → IsUse m
      → Step active (some m) (refused internal_error (some e)) active

module _ (dec : Decoders) (eng : Engine) where
  abbrev pub phase : Option eng.Iterator → Phase
  phase none = idle
  phase (some it) = active

  -- A call of a method in a phase, with its reply and the handler that it leaves, is a step.
  abbrev Steps : Phase → Method → Reply × Handler dec eng → Type 0
  Steps p m (reply, h) = Step p (some m) reply (phase h.iter)

  abbrev holds : Option eng.Iterator → eng.Heap → Handler dec eng
  holds it w = record { iter = it; heap = w }

  -- Query gives an iterator or an error.
  abbrev pub IsTotal : Type 0
  IsTotal =
      (quads : List RdfQuad) (domain index : List Term) (w w' : eng.Heap)
      → eng.query quads domain index w ≢ (none, none, w')

  opened-Steps :
      (p : Phase) (r : Option eng.Iterator × Option Error × eng.Heap)
      → ((w : eng.Heap) → r ≢ (none, none, w))
      → Steps p query (opened dec eng r)
  unfolding opened
  opened-Steps p (i, some e, w) h = fails e
  opened-Steps p (some it, none, w) h = opens _
  opened-Steps p (none, none, w) h = absurd (h w refl)

  module _ (total : IsTotal) (it : Option eng.Iterator) (w : eng.Heap) where
    index-Steps :
        (quads : List RdfQuad) (domain : List Term) (index : Result (List Term))
        → Steps (phase it) query (query_index dec eng quads domain index (holds it w))
    unfolding query_index
    index-Steps quads domain (err e) = rejected (some e)
    index-Steps quads domain (ok index) =
        opened-Steps (phase it) (eng.query quads domain index w) (total quads domain index w)

    domain-Steps :
        (quads : List RdfQuad) (domain : Result (List Term)) (params : List dec.Raw)
        → Steps (phase it) query (query_domain dec eng quads domain params (holds it w))
    unfolding query_domain
    domain-Steps quads (err e) params = rejected (some e)
    domain-Steps quads (ok domain) params = index-Steps quads domain (terms_at dec eng 2 params)

    quads-Steps :
        (quads : Result (List RdfQuad)) (params : List dec.Raw)
        → Steps (phase it) query (query_quads dec eng quads params (holds it w))
    unfolding query_quads
    quads-Steps (err e) params = rejected (some e)
    quads-Steps (ok []) params = rejected none
    quads-Steps (ok (q ∷ quads)) params =
        domain-Steps (q ∷ quads) (terms_at dec eng 1 params) params

    query-Steps :
        (params : List dec.Raw) → Steps (phase it) query (call_query dec eng params (holds it w))
    unfolding call_query
    query-Steps [] = rejected none
    query-Steps (p ∷ params) = elim (Bool-cases (ltb 3 (length (p ∷ params)))) [
      | inl e ↦ rw e (rejected none)
      | inr e ↦ rw e (quads-Steps (dec.quads p) (p ∷ params))
    ]

  module _ (it : eng.Iterator) (w : eng.Heap) where
    next_result-Steps :
        (r : Result (Option (List Term)) × eng.Heap)
        → Steps active next (next_result dec eng r (holds (some it) w))
    unfolding next_result
    next_result-Steps (err e, w') = failed_use e next_use
    next_result-Steps (ok delta, w') = used (terms delta) next_use

    next_term-Steps :
        (t : Result Term) → Steps active next (next_term dec eng it t (holds (some it) w))
    unfolding next_term
    next_term-Steps (err e) = rejected none
    next_term-Steps (ok t) = elim (Bool-cases (is_variable t)) [
      | inl e ↦ rw e (next_result-Steps (eng.next it (some t) w))
      | inr e ↦ rw e (rejected none)
    ]

    seek_result-Steps :
        (r : Option Error × eng.Heap)
        → Steps active seek (seek_result dec eng r (holds (some it) w))
    unfolding seek_result
    seek_result-Steps (some e, w') = failed_use e seek_use
    seek_result-Steps (none, w') = used nil seek_use

    seek_index-Steps :
        (index : Result (List Term))
        → Steps active seek (seek_index dec eng it index (holds (some it) w))
    unfolding seek_index
    seek_index-Steps (err e) = rejected (some e)
    seek_index-Steps (ok index) = seek_result-Steps (eng.seek it index w)

    prov-Steps :
        (r : Result (List (List Term)))
        → Steps active prov (prov_result dec eng r (holds (some it) w))
    unfolding prov_result
    prov-Steps (err e) = failed_use e prov_use
    prov-Steps (ok m) = used (sources m) prov_use

  call-Steps :
      (m : Method) (it : Option eng.Iterator) (w : eng.Heap) (params : List dec.Raw)
      → IsTotal
      → Steps (phase it) m (call dec eng m params (holds it w))
  unfolding call call_next call_seek call_prov call_close
  call-Steps query it w params total = query-Steps total it w params
  call-Steps next none w params total = absent (λ e. cc)
  call-Steps next (some it) w [] total = next_result-Steps it w (eng.next it none w)
  call-Steps next (some it) w (p ∷ []) total = next_term-Steps it w (dec.term p)
  call-Steps next (some it) w (p ∷ q ∷ params) total = rejected none
  call-Steps seek none w params total = absent (λ e. cc)
  call-Steps seek (some it) w [] total = seek_index-Steps it w (terms_at dec eng 0 [])
  call-Steps seek (some it) w (p ∷ []) total = seek_index-Steps it w (terms_at dec eng 0 (p ∷ []))
  call-Steps seek (some it) w (p ∷ q ∷ params) total = rejected none
  call-Steps prov none w params total = absent (λ e. cc)
  call-Steps prov (some it) w [] total = prov-Steps it w (eng.prov it w)
  call-Steps prov (some it) w (p ∷ params) total = rejected none
  call-Steps close none w params total = absent (λ e. cc)
  call-Steps close (some it) w [] total = closes
  call-Steps close (some it) w (p ∷ params) total = rejected none

  decoded-Steps :
      (m : Method) (params : Result (List dec.Raw)) (it : Option eng.Iterator) (w : eng.Heap)
      → IsTotal
      → Steps (phase it) m (call_decoded dec eng m params (holds it w))
  unfolding call_decoded
  decoded-Steps m (err e) it w total = rejected (some e)
  decoded-Steps m (ok params) it w total = call-Steps m it w params total

  found-Steps :
      (m : Option Method) (raw : Option dec.Raw) (it : Option eng.Iterator) (w : eng.Heap)
      → IsTotal
      → let (reply, h) = call_found dec eng m raw (holds it w) in
        Step (phase it) m reply (phase h.iter)
  unfolding call_found
  found-Steps none raw it w total = unknown
  found-Steps (some m) raw it w total = decoded-Steps m (decode_params dec eng raw) it w total

  -- Handle refines the protocol, if Query always gives an iterator or an error: the reply to a request,
  -- and whether there is an iterator behind it, are those of a step.
  pub handle-Step :
      (r : Request dec eng) (h : Handler dec eng)
      → IsTotal
      → Step
          (phase h.iter)
          (find_method r.method)
          (handle dec eng r h).0
          (phase (handle dec eng r h).1.iter)
  unfolding handle
  handle-Step r h total = found-Steps (find_method r.method) r.params h.iter h.heap total
