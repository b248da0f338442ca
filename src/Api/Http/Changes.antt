-- ===== src/Api/Http/Changes.antt =====
-- What ServeHTTP does to the store: the one call of a request, if there is one, and its outcome.
use forty_six.Base.{
  ℕ, suc, ◌≡◌, refl, ◌∙◌, sym, Bool, false, ◌||◌, ◌==◌, Bool-cases, inl, inr, List, [], ◌∷◌, ◌++◌,
  Option, none, some, Bytes, Error, Result, err, ok, arith, subst,
}
use forty_six.Term.{Term}
use forty_six.Store.{RdfQuad}
use forty_six.Api.Http.{
  Web, Write, status, content_type, body, Request, Response, refuse, write_quads, write_json_ld,
  write_dataset, stored, stored_nil, set_decoded, put_document, put_quads, is_not_found, deleted,
  dispatch, node_of, url_writes, query_writes, serve_http,
}
use forty_six.Api.Http.Responses.{
  is_document, is_dataset, is_delete, Responds, dispatch_cases, serve_http-Responds,
}
use forty_six.Api.Http.Calls.{
  Call, no_call, deletes, document_call, decoded_call, dataset_call, succeeds, call_of, outcome,
}

-- WriteHeader(204) is among the calls.
abbrev pub confirms : List Write → Bool
confirms [] = false
confirms (status code ∷ ws) = code == 204 || confirms ws
confirms (content_type mime ∷ ws) = confirms ws
confirms (body text ∷ ws) = confirms ws

confirms-append : (ws vs : List Write) → confirms (ws ++ vs) ≡ (confirms ws || confirms vs)
confirms-append [] vs = refl
confirms-append (status code ∷ ws) vs = ground (arith, confirms-append ws vs)
confirms-append (content_type mime ∷ ws) vs = confirms-append ws vs
confirms-append (body text ∷ ws) vs = confirms-append ws vs

module _ (web : Web) where
  -- The store is left as the call leaves it, and the status 204 is given exactly if it succeeds.
  Accords : Bool × web.State → Response web → Type 0
  Accords (success, st) resp = (resp.state ≡ st) × (confirms resp.writes ≡ success)

  refuse-Accords :
      (code : ℕ) (e : Option Error) (st : web.State)
      → (code == 204) ≡ false
      → Accords (false, st) (refuse web code e st)
  unfolding Accords refuse
  refuse-Accords code none st h = (refl, ground (arith, h))
  refuse-Accords code (some e) st h = (refl, ground (arith, h))

  stored-Accords :
      (code : ℕ) (call : Option Error × web.State)
      → (code == 204) ≡ false
      → Accords (succeeds call) (stored web code call)
  unfolding Accords stored
  stored-Accords code (none, st) h = (refl, refl)
  stored-Accords code (some e, st) h = unfold Accords in refuse-Accords code (some e) st h

  deleted-Accords : (call : Option Error × web.State) → Accords (succeeds call) (deleted web call)
  unfolding Accords deleted
  deleted-Accords (none, st) = (refl, refl)
  deleted-Accords (some e, st) = elim (Bool-cases (is_not_found e)) [
    | inl same ↦ rw same (refl, refl)
    | inr other ↦ rw other (refuse-Accords 500 (some e) st refl)
  ]

  document-Accords :
      (node : Term) (d : Result Bytes) (st : web.State)
      → Accords (outcome web node (document_call d) st) (put_document web node d st)
  unfolding put_document outcome
  document-Accords node (err e) st = refuse-Accords 400 (some e) st refl
  document-Accords node (ok d) st = stored-Accords 400 _ refl

  nil-Accords : (call : Option Error × web.State) → Accords (false, call.1) (stored_nil web call)
  unfolding stored_nil Accords
  nil-Accords (none, st) = (refl, refl)
  nil-Accords (some e, st) = refuse-Accords 500 (some e) st refl

  decoded-Accords :
      (node : Term) (quads : List (Option RdfQuad)) (o : Option (List RdfQuad)) (st : web.State)
      → Accords (outcome web node (decoded_call quads o) st) (set_decoded web node quads o st)
  unfolding set_decoded outcome
  decoded-Accords node quads none st = nil-Accords _
  decoded-Accords node quads (some qs) st = stored-Accords 500 _ refl

  quads-Accords :
      (node : Term) (d : Result (List (Option RdfQuad))) (st : web.State)
      → Accords (outcome web node (dataset_call d) st) (put_quads web node d st)
  unfolding put_quads dataset_call outcome
  quads-Accords node (err e) st = refuse-Accords 400 (some e) st refl
  quads-Accords node (ok []) st = refuse-Accords 400 none st refl
  quads-Accords node (ok (q ∷ quads)) st = decoded-Accords node (q ∷ quads) _ st

  quads-confirms : (quads : List RdfQuad) → confirms (write_quads web quads) ≡ false
  unfolding write_quads
  quads-confirms [] = refl
  quads-confirms (q ∷ quads) = quads-confirms quads

  json_ld-confirms : (mime : Bytes) (d : Result Bytes) → confirms (write_json_ld web mime d) ≡ false
  unfolding write_json_ld
  json_ld-confirms mime (err e) = refl
  json_ld-confirms mime (ok d) = refl

  dataset-confirms :
      (mime : Bytes) (node : Term) (d : Result (List RdfQuad))
      → confirms (write_dataset web mime node d) ≡ false
  unfolding write_dataset
  dataset-confirms mime node (err e) = elim (Bool-cases (is_not_found e)) [
    | inl h ↦ rw h refl
    | inr h ↦ rw h refl
  ]
  dataset-confirms mime node (ok quads) =
      ground (arith, quads-confirms quads, json_ld-confirms mime (web.from_rdf node quads))

  query-confirms : (query : Bytes) → confirms (query_writes web query) ≡ false
  unfolding query_writes url_writes
  query-confirms [] = refl
  query-confirms (c ∷ query) = checked (web.parse_url (c ∷ query))
    where
      checked : (o : Option Error) → confirms (url_writes o) ≡ false
      checked none = refl
      checked (some e) = refl

  no_call-of :
      (r : Request web)
      → is_document r.method r.content_type ≡ false
      → is_dataset r.method r.content_type ≡ false
      → is_delete r.method ≡ false
      → call_of web r ≡ no_call
  unfolding call_of
  no_call-of r h h1 h2 = rw (h, h1, h2) refl

  module _ (r : Request web) (st : web.State) where
    Does : Response web → Type 0
    Does resp = Accords (outcome web (node_of r.raw_query) (call_of web r) st) resp

    does :
        (c : Call) (resp : Response web)
        → call_of web r ≡ c
        → Accords (outcome web (node_of r.raw_query) c st) resp
        → Does resp
    unfolding Does
    does c resp e h = subst (λ c. Accords (outcome web (node_of r.raw_query) c st) resp) (sym e) h

    Does-no_call :
        (resp : Response web)
        → call_of web r ≡ no_call
        → resp.state ≡ st
        → confirms resp.writes ≡ false
        → Does resp
    Does-no_call resp e s w = does no_call resp e (unfold outcome Accords in (s, w))

    behind-Does :
        (resp : Response web)
        → Does resp
        → Does (record resp { writes = query_writes web r.raw_query ++ resp.writes })
    unfolding Does Accords
    behind-Does resp (s, w) =
        let before = query-confirms r.raw_query in
        (s, confirms-append (query_writes web r.raw_query) resp.writes ∙ rw before w)

    dispatch-Does :
        (fuel : ℕ) → Responds web Does (dispatch web (suc fuel) (node_of r.raw_query) r st)
    unfolding Responds
    dispatch-Does fuel =
        let node = node_of r.raw_query in
        dispatch_cases web (Responds web Does) fuel node r st
          (λ h. (
            _,
            refl,
            Does-no_call _
                (no_call-of r (ground (arith, h)) (ground (arith, h)) (ground (arith, h))) refl
                (dataset-confirms r.negotiated node (web.get node st)),
          ))
          (λ h. (
            _,
            refl,
            Does-no_call _
                (no_call-of r (ground (arith, h)) (ground (arith, h)) (ground (arith, h)))
                (unfold refuse in refl) (unfold refuse in refl),
          ))
          (λ h. (
            _,
            refl,
            does (document_call (web.decode_document r.body)) _ (unfold call_of in rw h refl)
                (document-Accords node _ st),
          ))
          (λ h.
            let h1 : is_document r.method r.content_type ≡ false = ground (arith, h) in
            (
              _,
              refl,
              does (dataset_call (web.decode_quads r.body)) _ (unfold call_of in rw (h1, h) refl)
                  (quads-Accords node _ st),
            ))
          (λ h. (
            _,
            refl,
            Does-no_call _
                (no_call-of r (ground (arith, h)) (ground (arith, h)) (ground (arith, h))) refl
                refl,
          ))
          (λ h.
            let h1 : is_document r.method r.content_type ≡ false = ground (arith, h) in
            let h2 : is_dataset r.method r.content_type ≡ false = ground (arith, h) in
            (
              _,
              refl,
              does deletes _ (unfold call_of in rw (h1, h2, h) refl)
                  (unfold outcome in deleted-Accords (web.delete node st)),
            ))
          (λ h. (
            _,
            refl,
            Does-no_call _
                (no_call-of r (ground (arith, h)) (ground (arith, h)) (ground (arith, h))) refl
                refl,
          ))

  -- A request makes at most one call that changes the store: a DELETE, and a PUT of JSON-LD, or of
  -- JSON with an entry, that can be decoded. The store is left as this call leaves it, and as it was
  -- where there is none, and WriteHeader is called with 204 exactly if there is a call and it returns
  -- no error.
  pub serve_http-outcome :
      (fuel : ℕ) (r : Request web) (st : web.State)
      → (resp : Response web) × (serve_http web (suc fuel) r st ≡ some resp)
        × (resp.state ≡ (outcome web (node_of r.raw_query) (call_of web r) st).1)
        × (confirms resp.writes ≡ (outcome web (node_of r.raw_query) (call_of web r) st).0)
  unfolding Responds Does Accords
  serve_http-outcome fuel r st =
      let (resp, e, (left, confirmed)) =
        serve_http-Responds web (Does r st) (suc fuel) r st (λ resp h. behind-Does r st resp h)
          (dispatch-Does r st fuel) in
      (resp, e, left, confirmed)
