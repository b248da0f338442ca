-- ===== src/Api/Http.antt =====
-- api/http.go: ServeHTTP. A response is the list of the handler's calls of its writer, and whether the
-- handler has panicked: then net/http ends the connection, and what was written is not sent.
pub mod Responses
pub mod Status
pub mod Calls
pub mod Changes
use forty_six.Base.{
  ℕ, zero, suc, Bool, true, false, not, ◌&&◌, ◌||◌, ◌==◌, List, [], ◌∷◌, ◌++◌, Option, none, some,
  Bytes, bytes_eq, codes, length, if◌then◌else◌, Error, not_found, Result, err, ok,
}
use forty_six.Term.{Term, named_node, default_graph, value}
use forty_six.Store.{RdfQuad}

-- The store's methods, and what the handler uses of net/http, net/url and the libraries of RDF. A body
-- is read line by line or decoded, where a JSON null makes a nil quad; `text` is an error's Error.
pub record Web : Type 1 where
  pub State : Type 0
  pub get : Term → State → Result (List RdfQuad)
  pub set : Term → List RdfQuad → State → Option Error × State
  -- Set on a dataset with a nil quad, on which it panics if it does not return an error before: none is
  -- the panic.
  pub set_nil : Term → List (Option RdfQuad) → State → Option Error × State
  pub set_json_ld : Bytes → Bytes → State → Option Error × State
  pub delete : Term → State → Option Error × State
  pub Body : Type 0
  pub read_line : Body → Bytes × Option Error × Body
  pub is_eof : Error → Bool
  pub decode_document : Body → Result Bytes
  pub decode_quads : Body → Result (List (Option RdfQuad))
  pub parse_url : Bytes → Option Error
  pub parse_quad : Bytes → RdfQuad
  pub quad_text : RdfQuad → Bytes
  pub from_rdf : Term → List RdfQuad → Result Bytes
  pub encode_quads : List RdfQuad → Bytes
  pub text : Error → Bytes

abbrev pub json_mime : Bytes
json_mime = codes "application/json"

abbrev pub n_quads_mime : Bytes
n_quads_mime = codes "application/n-quads"

abbrev pub json_ld_mime : Bytes
json_ld_mime = codes "application/ld+json"

-- WriteHeader, a Content-Type header, and Write.
pub data Write : Type 0 where
  status : ℕ → Write
  content_type body : Bytes → Write

-- `err == styx.ErrNotFound`
abbrev pub is_not_found : Error → Bool
is_not_found not_found = true
is_not_found _ = false

-- The node that the query string names.
unfoldable pub node_of : Bytes → Term
node_of [] = default_graph
node_of (c ∷ query) = named_node (c ∷ query)

-- The quads of a dataset without a nil.
unfoldable pub all_quads : List (Option RdfQuad) → Option (List RdfQuad)
all_quads [] = some []
all_quads (none ∷ quads) = none
all_quads (some q ∷ quads) = elim (all_quads quads) [ none ↦ none | some qs ↦ some (q ∷ qs) ]

-- what a query string that is no URL has written
unfoldable pub url_writes : Option Error → List Write
url_writes none = []
url_writes (some e) = status 400 ∷ []

module _ (web : Web) where
  -- `negotiated` is what NegotiateContentType gives, and `content_type` is the header.
  pub record Request : Type 0 where
    pub method : Bytes
    pub raw_query : Bytes
    pub negotiated : Bytes
    pub content_type : Bytes
    pub body : web.Body

  pub record Response : Type 0 where
    pub writes : List Write
    pub panicked : Bool
    pub state : web.State

  abbrev pub reply : List Write → web.State → Response
  reply ws st = record { writes = ws; panicked = false; state = st }

  -- A status with an error's text, which panics on a nil error.
  unfoldable pub refuse : ℕ → Option Error → web.State → Response
  refuse code none st = record { writes = status code ∷ []; panicked = true; state = st }
  refuse code (some e) st = reply (status code ∷ body (web.text e) ∷ []) st

  unfoldable pub write_quads : List RdfQuad → List Write
  write_quads [] = []
  write_quads (quad ∷ quads) = body (web.quad_text quad) ∷ body (codes "\n") ∷ write_quads quads

  unfoldable pub write_json_ld : Bytes → Result Bytes → List Write
  write_json_ld mime (err e) = status 500 ∷ body (web.text e) ∷ []
  write_json_ld mime (ok document) = content_type mime ∷ status 200 ∷ body document ∷ []

  unfoldable pub write_dataset : Bytes → Term → Result (List RdfQuad) → List Write
  write_dataset mime node (err e) =
      if is_not_found e then status 404 ∷ [] else status 500 ∷ body (web.text e) ∷ []
  write_dataset mime node (ok quads) =
      if bytes_eq mime n_quads_mime
      then content_type mime ∷ status 200 ∷ write_quads quads
      else if bytes_eq mime json_ld_mime
      then write_json_ld mime (web.from_rdf node quads)
      else if bytes_eq mime json_mime
      then content_type mime ∷ status 200 ∷ body (web.encode_quads quads) ∷ []
      else []

  -- What follows a call of the store that changes it.
  unfoldable pub stored : ℕ → Option Error × web.State → Response
  stored code (some e, st) = refuse code (some e) st
  stored code (none, st) = reply (status 204 ∷ []) st

  -- The loop that reads lines: it goes on while the last error is not nil.
  unfoldable pub read_quads :
      ℕ → Option Error → List RdfQuad → web.Body → Option (List RdfQuad × Option Error)
  read_quads zero e quads b = none
  read_quads (suc fuel) none quads b = some (quads, none)
  read_quads (suc fuel) (some e) quads b =
      let (line, e', b') = web.read_line b in
      let quads' = if bytes_eq line [] then quads else quads ++ web.parse_quad line ∷ [] in
      read_quads fuel e' quads' b'

  abbrev pub is_failure : Option Error → Bool
  is_failure none = false
  is_failure (some e) = not (web.is_eof e)

  -- Behind the loop; there is no response where the loop has not ended.
  unfoldable pub put_lines :
      Term → Option (List RdfQuad × Option Error) → web.State → Option Response
  put_lines node none st = none
  put_lines node (some (quads, e)) st = some (
      if is_failure e || length quads == 0
      then refuse 400 e st
      else stored 500 (web.set node quads st))

  unfoldable pub put_document : Term → Result Bytes → web.State → Response
  put_document node (err e) st = refuse 400 (some e) st
  put_document node (ok document) st = stored 400 (web.set_json_ld (value node) document st)

  unfoldable pub stored_nil : Option Error × web.State → Response
  stored_nil (some e, st) = refuse 500 (some e) st
  stored_nil (none, st) = record { writes = []; panicked = true; state = st }

  -- Set on a decoded dataset, of which `quads` are the quads if none is nil.
  unfoldable pub set_decoded :
      Term → List (Option RdfQuad) → Option (List RdfQuad) → web.State → Response
  set_decoded node decoded none st = stored_nil (web.set_nil node decoded st)
  set_decoded node decoded (some quads) st = stored 500 (web.set node quads st)

  unfoldable pub put_quads : Term → Result (List (Option RdfQuad)) → web.State → Response
  put_quads node (err e) st = refuse 400 (some e) st
  put_quads node (ok []) st = refuse 400 none st
  put_quads node (ok (q ∷ quads)) st = set_decoded node (q ∷ quads) (all_quads (q ∷ quads)) st

  unfoldable pub put : ℕ → Term → Request → web.State → Option Response
  put fuel node r st =
      if bytes_eq r.content_type n_quads_mime
      then put_lines node (read_quads fuel none [] r.body) st
      else if bytes_eq r.content_type json_ld_mime
      then some (put_document node (web.decode_document r.body) st)
      else if bytes_eq r.content_type json_mime
      then some (put_quads node (web.decode_quads r.body) st)
      else some (reply (status 415 ∷ []) st)

  unfoldable pub deleted : Option Error × web.State → Response
  deleted (some e, st) =
      if is_not_found e then reply (status 404 ∷ []) st else refuse 500 (some e) st
  deleted (none, st) = reply (status 204 ∷ []) st

  -- The three methods, and any other one.
  unfoldable pub dispatch : ℕ → Term → Request → web.State → Option Response
  dispatch fuel node r st =
      if bytes_eq r.method (codes "GET")
      then some (reply (write_dataset r.negotiated node (web.get node st)) st)
      else if bytes_eq r.method (codes "PUT")
      then put fuel node r st
      else if bytes_eq r.method (codes "DELETE")
      then some (deleted (web.delete node st))
      else some (reply (status 405 ∷ []) st)

  unfoldable pub query_writes : Bytes → List Write
  query_writes [] = []
  query_writes (c ∷ query) = url_writes (web.parse_url (c ∷ query))

  abbrev pub behind : List Write → Option Response → Option Response
  behind ws none = none
  behind ws (some r) = some (record r { writes = ws ++ r.writes })

  -- ServeHTTP
  unfoldable pub serve_http : ℕ → Request → web.State → Option Response
  serve_http fuel r st =
      behind (query_writes r.raw_query) (dispatch fuel (node_of r.raw_query) r st)
