-- ===== src/Api/Http/Calls.antt =====
-- The call of the store that a request to ServeHTTP asks for, as a specification of the handler.
use forty_six.Base.{
  Bool, true, false, List, [], ◌∷◌, Option, none, some, Bytes, Error, Result, err, ok,
  if◌then◌else◌,
}
use forty_six.Term.{Term, value}
use forty_six.Store.{RdfQuad}
use forty_six.Api.Http.{Web, Request, all_quads}
use forty_six.Api.Http.Responses.{is_document, is_dataset, is_delete}

-- A call of the store that changes it, with the dataset or the document of the request.
pub data Call : Type 0 where
  no_call : Call
  sets : List RdfQuad → Call
  sets_nil : List (Option RdfQuad) → Call
  sets_document : Bytes → Call
  deletes : Call

abbrev pub document_call : Result Bytes → Call
document_call (err e) = no_call
document_call (ok document) = sets_document document

abbrev pub decoded_call : List (Option RdfQuad) → Option (List RdfQuad) → Call
decoded_call decoded none = sets_nil decoded
decoded_call decoded (some quads) = sets quads

unfoldable pub dataset_call : Result (List (Option RdfQuad)) → Call
dataset_call (err e) = no_call
dataset_call (ok []) = no_call
dataset_call (ok (q ∷ quads)) = decoded_call (q ∷ quads) (all_quads (q ∷ quads))

abbrev pub succeeds {ℓ} : {S : Type ℓ} → Option Error × S → Bool × S
succeeds (none, st) = (true, st)
succeeds (some e, st) = (false, st)

module _ (web : Web) where
  -- The call that a request asks for: a PUT of JSON-LD, or of JSON with an entry, that can be
  -- decoded, and a DELETE.
  unfoldable pub call_of : Request web → Call
  call_of r =
      if is_document r.method r.content_type
      then document_call (web.decode_document r.body)
      else if is_dataset r.method r.content_type
      then dataset_call (web.decode_quads r.body)
      else if is_delete r.method
      then deletes
      else no_call

  -- Whether a call succeeds, and the store that it leaves.
  unfoldable pub outcome : Term → Call → web.State → Bool × web.State
  outcome node no_call st = (false, st)
  outcome node (sets quads) st = succeeds (web.set node quads st)
  outcome node (sets_nil quads) st = (false, (web.set_nil node quads st).1)
  outcome node (sets_document document) st = succeeds (web.set_json_ld (value node) document st)
  outcome node deletes st = succeeds (web.delete node st)
