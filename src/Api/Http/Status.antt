-- ===== src/Api/Http/Status.antt =====
-- The statuses of ServeHTTP's responses.
use mathlib.Core.Option.{some-injective}
use forty_six.Base.{
  sym, ◌∙◌, true, false, ℕ, suc, ◌≡◌, ◌⊎◌, inl, inr, refl, ap, Bool-cases, List, [], ◌∷◌, Option,
  none, some, Bytes, bytes_eq, Error, Result, err, ok,
}
use forty_six.Term.{Term}
use forty_six.Store.{RdfQuad}
use forty_six.Api.Http.{
  Web, Write, Request, Response, json_mime, n_quads_mime, json_ld_mime, refuse, write_quads,
  write_json_ld, write_dataset, stored, stored_nil, set_decoded, put_document, put_quads,
  is_not_found, deleted, node_of, query_writes, serve_http,
}
use forty_six.Api.Http.Responses.{
  statuses, panics, Responds, dispatch_cases, serve_http-Responds, serve_http-panics,
}

-- one of the three media types that the handler offers
abbrev pub IsOffer : Bytes → Type 0
IsOffer mime = (mime ≡ n_quads_mime) ⊎ ((mime ≡ json_ld_mime) ⊎ (mime ≡ json_mime))

abbrev pub HasOneStatus : List Write → Type 0
HasOneStatus ws = (code : ℕ) × (statuses ws ≡ code ∷ [])

module _ (web : Web) where
  write_quads-status : (quads : List RdfQuad) → statuses (write_quads web quads) ≡ []
  unfolding write_quads
  write_quads-status [] = refl
  write_quads-status (q ∷ quads) = write_quads-status quads

  json_ld-status : (mime : Bytes) (d : Result Bytes) → HasOneStatus (write_json_ld web mime d)
  unfolding write_json_ld
  json_ld-status mime (err e) = (500, refl)
  json_ld-status mime (ok d) = (200, refl)

  offer-status :
      (mime : Bytes) (node : Term) (quads : List RdfQuad)
      → IsOffer mime
      → HasOneStatus (write_dataset web mime node (ok quads))
  unfolding write_dataset bytes_eq
  offer-status mime node quads (inl e) = rw e (200, ap (λ l. 200 ∷ l) (write_quads-status quads))
  offer-status mime node quads (inr (inl e)) =
      rw e (json_ld-status json_ld_mime (web.from_rdf node quads))
  offer-status mime node quads (inr (inr e)) = rw e (200, refl)

  failed-status :
      (mime : Bytes) (node : Term) (e : Error) → HasOneStatus (write_dataset web mime node (err e))
  unfolding write_dataset
  failed-status mime node e = elim (Bool-cases (is_not_found e)) [
    | inl h ↦ rw h (404, refl)
    | inr h ↦ rw h (500, refl)
  ]

  dataset-status :
      (mime : Bytes) (node : Term) (d : Result (List RdfQuad))
      → IsOffer mime
      → HasOneStatus (write_dataset web mime node d)
  dataset-status mime node (ok quads) h = offer-status mime node quads h
  dataset-status mime node (err e) h = failed-status mime node e

  refuse-status :
      (code : ℕ) (e : Error) (st : web.State) → HasOneStatus (refuse web code (some e) st).writes
  unfolding refuse
  refuse-status code e st = (code, refl)

  stored-status :
      (code : ℕ) (call : Option Error × web.State) → HasOneStatus (stored web code call).writes
  unfolding stored
  stored-status code (some e, st) = refuse-status code e st
  stored-status code (none, st) = (204, refl)

  deleted-status : (call : Option Error × web.State) → HasOneStatus (deleted web call).writes
  unfolding deleted
  deleted-status (none, st) = (204, refl)
  deleted-status (some e, st) = elim (Bool-cases (is_not_found e)) [
    | inl h ↦ rw h (404, refl)
    | inr h ↦ rw h (refuse-status 500 e st)
  ]

  document-status :
      (node : Term) (d : Result Bytes) (st : web.State)
      → HasOneStatus (put_document web node d st).writes
  unfolding put_document
  document-status node (err e) st = refuse-status 400 e st
  document-status node (ok d) st = stored-status 400 _

  -- The handler has panicked, or it has given one status.
  Answers : Response web → Type 0
  Answers resp = (resp.panicked ≡ true) ⊎ HasOneStatus resp.writes

  nil-Answers : (call : Option Error × web.State) → Answers (stored_nil web call)
  unfolding Answers stored_nil
  nil-Answers (none, st) = inl refl
  nil-Answers (some e, st) = inr (refuse-status 500 e st)

  decoded-Answers :
      (node : Term) (quads : List (Option RdfQuad)) (o : Option (List RdfQuad)) (st : web.State)
      → Answers (set_decoded web node quads o st)
  unfolding set_decoded
  decoded-Answers node quads none st = nil-Answers _
  decoded-Answers node quads (some qs) st = unfold Answers in inr (stored-status 500 _)

  quads-Answers :
      (node : Term) (d : Result (List (Option RdfQuad))) (st : web.State)
      → Answers (put_quads web node d st)
  unfolding put_quads
  quads-Answers node (err e) st = unfold Answers in inr (refuse-status 400 e st)
  quads-Answers node (ok []) st = unfold Answers refuse in inl refl
  quads-Answers node (ok (q ∷ quads)) st = decoded-Answers node (q ∷ quads) _ st

  serve_http-Answers :
      (fuel : ℕ) (r : Request web) (st : web.State)
      → query_writes web r.raw_query ≡ []
      → IsOffer r.negotiated
      → Responds web Answers (serve_http web (suc fuel) r st)
  unfolding Responds Answers
  serve_http-Answers fuel r st url offer =
      let node = node_of r.raw_query in
      serve_http-Responds web Answers (suc fuel) r st (λ resp q. rw url q)
        (dispatch_cases web (Responds web Answers) fuel node r st
          (λ h. (_, refl, inr (dataset-status r.negotiated node (web.get node st) offer)))
          (λ h. (_, refl, unfold refuse in inl refl))
          (λ h. (_, refl, inr (document-status node _ st)))
          (λ h. (_, refl, quads-Answers node _ st)) (λ h. (_, refl, inr (415, refl)))
          (λ h. (_, refl, inr (deleted-status _))) (λ h. (_, refl, inr (405, refl))))

  -- Every request whose query string is empty or a URL, and for which a media type that the handler
  -- offers is negotiated, is answered with exactly one status if the handler does not panic on it.
  pub serve_http-status :
      (fuel : ℕ) (r : Request web) (st : web.State)
      → query_writes web r.raw_query ≡ []
      → IsOffer r.negotiated
      → panics web r st ≡ false
      → (resp : Response web) × (serve_http web (suc fuel) r st ≡ some resp)
        × (resp.panicked ≡ false)
        × HasOneStatus resp.writes
  unfolding Responds Answers
  serve_http-status fuel r st url offer calm =
      let (resp, e, answer) = serve_http-Answers fuel r st url offer in
      let (resp1, e1, p) = serve_http-panics web fuel r st in
      let same = some-injective resp1 resp (sym e1 ∙ e) in
      let quiet : resp.panicked ≡ false = ap (λ x. x.panicked) (sym same) ∙ p ∙ calm in
      (resp, e, quiet, elim answer [ inl h ↦ absurd (cc (sym quiet ∙ h)) | inr h ↦ h ])
