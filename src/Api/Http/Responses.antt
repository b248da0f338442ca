-- ===== src/Api/Http/Responses.antt =====
-- The responses of ServeHTTP, branch by branch, and when the handler panics.
use forty_six.Base.{
  ℕ, suc, ◌≡◌, inl, inr, refl, ap, ◌∙◌, Bool, true, false, not, ◌&&◌, ◌||◌, Bool-cases, List, [],
  ◌∷◌, ◌++◌, Option, none, some, Bytes, bytes_eq, codes, Error, Result, err, ok, arith,
}
use forty_six.Term.{Term}
use forty_six.Store.{RdfQuad}
use forty_six.Api.Http.{
  Web, Write, status, content_type, body, Request, Response, json_mime, n_quads_mime, json_ld_mime,
  reply, all_quads, stored_nil, set_decoded, refuse, write_dataset, stored, read_quads, put_lines,
  put_document, put_quads, put, is_not_found, deleted, dispatch, node_of, query_writes, behind,
  serve_http,
}

-- the codes of the calls of WriteHeader
abbrev pub statuses : List Write → List ℕ
statuses [] = []
statuses (status code ∷ ws) = code ∷ statuses ws
statuses (content_type mime ∷ ws) = statuses ws
statuses (body text ∷ ws) = statuses ws

abbrev pub is_get : Bytes → Bool
is_get method = bytes_eq method (codes "GET")

abbrev pub is_put : Bytes → Bool
is_put method = not (is_get method) && bytes_eq method (codes "PUT")

abbrev pub is_delete : Bytes → Bool
is_delete method =
    not (is_get method) && (not (bytes_eq method (codes "PUT")) && bytes_eq method (codes "DELETE"))

abbrev pub is_other : Bytes → Bool
is_other method =
    not (is_get method)
    && (not (bytes_eq method (codes "PUT")) && not (bytes_eq method (codes "DELETE")))

-- The tests of a request's method and content type, in the order in which they are made.
abbrev pub is_lines : Bytes → Bytes → Bool
is_lines method mime = is_put method && bytes_eq mime n_quads_mime

abbrev pub is_document : Bytes → Bytes → Bool
is_document method mime =
    is_put method && (not (bytes_eq mime n_quads_mime) && bytes_eq mime json_ld_mime)

abbrev pub is_dataset : Bytes → Bytes → Bool
is_dataset method mime =
    is_put method
    && (not (bytes_eq mime n_quads_mime)
        && (not (bytes_eq mime json_ld_mime) && bytes_eq mime json_mime))

abbrev pub is_unsupported : Bytes → Bytes → Bool
is_unsupported method mime =
    is_put method
    && (not (bytes_eq mime n_quads_mime)
        && (not (bytes_eq mime json_ld_mime) && not (bytes_eq mime json_mime)))

module _ (web : Web) where
  abbrev pub nil_panics : Option (List RdfQuad) → Option Error → Bool
  nil_panics none none = true
  nil_panics none (some e) = false
  nil_panics (some quads) e = false

  -- Whether a decoded dataset has no quad, or a nil one on which Set panics.
  unfoldable pub is_defective : Term → Result (List (Option RdfQuad)) → web.State → Bool
  is_defective node (err e) st = false
  is_defective node (ok []) st = true
  is_defective node (ok (q ∷ quads)) st =
      nil_panics (all_quads (q ∷ quads)) (web.set_nil node (q ∷ quads) st).0

  -- Whether the handler panics on a request.
  abbrev pub panics : Request web → web.State → Bool
  panics r st =
      is_lines r.method r.content_type
      || is_dataset r.method r.content_type
        && is_defective (node_of r.raw_query) (web.decode_quads r.body) st

  -- What holds of the response of each branch holds of every response.
  pub dispatch_cases :
      (P : Option (Response web) → Type 0) (fuel : ℕ) (node : Term) (r : Request web)
      (st : web.State)
      → (is_get r.method ≡ true
          → P (some (reply web (write_dataset web r.negotiated node (web.get node st)) st)))
      → (is_lines r.method r.content_type ≡ true → P (some (refuse web 400 none st)))
      → (is_document r.method r.content_type ≡ true
          → P (some (put_document web node (web.decode_document r.body) st)))
      → (is_dataset r.method r.content_type ≡ true
          → P (some (put_quads web node (web.decode_quads r.body) st)))
      → (is_unsupported r.method r.content_type ≡ true → P (some (reply web (status 415 ∷ []) st)))
      → (is_delete r.method ≡ true → P (some (deleted web (web.delete node st))))
      → (is_other r.method ≡ true → P (some (reply web (status 405 ∷ []) st)))
      → P (dispatch web (suc fuel) node r st)
  unfolding dispatch put put_lines read_quads
  dispatch_cases P fuel node r st get lines document dataset unsupported delete other =
      ground (arith, get, lines, document, dataset, unsupported, delete, other)

  -- A response that there is, and what holds of it.
  unfoldable pub Responds : (Response web → Type 0) → Option (Response web) → Type 0
  Responds Q o = (resp : Response web) × (o ≡ some resp) × Q resp

  -- the writes on behalf of the query string come first
  pub serve_http-Responds :
      (Q : Response web → Type 0) (fuel : ℕ) (r : Request web) (st : web.State)
      → ((resp : Response web)
          → Q resp
          → Q (record resp { writes = query_writes web r.raw_query ++ resp.writes }))
      → Responds Q (dispatch web fuel (node_of r.raw_query) r st)
      → Responds Q (serve_http web fuel r st)
  unfolding Responds serve_http
  serve_http-Responds Q fuel r st keep (resp, e, q) =
      (_, ap (behind web (query_writes web r.raw_query)) e, keep resp q)

  module _ (st : web.State) where
    refuse-panicked : (code : ℕ) (e : Error) → (refuse web code (some e) st).panicked ≡ false
    unfolding refuse
    refuse-panicked code e = refl

    stored-panicked :
        (code : ℕ) (call : Option Error × web.State) → (stored web code call).panicked ≡ false
    unfolding stored refuse
    stored-panicked code (some e, st) = refl
    stored-panicked code (none, st) = refl

    deleted-panicked : (call : Option Error × web.State) → (deleted web call).panicked ≡ false
    unfolding deleted refuse
    deleted-panicked (none, st) = refl
    deleted-panicked (some e, st) = elim (Bool-cases (is_not_found e)) [
      | inl h ↦ rw h refl
      | inr h ↦ rw h refl
    ]

    document-panicked :
        (node : Term) (d : Result Bytes) → (put_document web node d st).panicked ≡ false
    unfolding put_document
    document-panicked node (err e) = refuse-panicked 400 e
    document-panicked node (ok d) = stored-panicked 400 _

    nil-panicked :
        (call : Option Error × web.State) → (stored_nil web call).panicked ≡ nil_panics none call.0
    unfolding stored_nil refuse
    nil-panicked (none, st) = refl
    nil-panicked (some e, st) = refl

    decoded-panicked :
        (node : Term) (quads : List (Option RdfQuad)) (o : Option (List RdfQuad))
        → (set_decoded web node quads o st).panicked ≡ nil_panics o (web.set_nil node quads st).0
    unfolding set_decoded
    decoded-panicked node quads none = nil-panicked _
    decoded-panicked node quads (some qs) = stored-panicked 500 _

    dataset-panicked :
        (node : Term) (d : Result (List (Option RdfQuad)))
        → (put_quads web node d st).panicked ≡ is_defective node d st
    unfolding put_quads refuse is_defective
    dataset-panicked node (err e) = refl
    dataset-panicked node (ok []) = refl
    dataset-panicked node (ok (q ∷ quads)) = decoded-panicked node (q ∷ quads) _

  pub serve_http-panics :
      (fuel : ℕ) (r : Request web) (st : web.State)
      → (resp : Response web) × (serve_http web (suc fuel) r st ≡ some resp)
        × (resp.panicked ≡ panics r st)
  unfolding Responds
  serve_http-panics fuel r st =
      let node = node_of r.raw_query in
      serve_http-Responds (λ resp. resp.panicked ≡ panics r st) (suc fuel) r st (λ resp q. q)
        (dispatch_cases (Responds (λ resp. resp.panicked ≡ panics r st)) fuel (node_of r.raw_query)
          r st (λ h. (_, refl, ground arith)) (λ h. (_, refl, unfold refuse in ground arith))
          (λ h. (_, refl, document-panicked st node _ ∙ ground arith))
          (λ h. (_, refl, dataset-panicked st node _ ∙ ground arith)) (λ h. (_, refl, ground arith))
          (λ h. (_, refl, deleted-panicked st _ ∙ ground arith)) (λ h. (_, refl, ground arith)))
