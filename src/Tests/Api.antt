-- ===== src/Tests/Api.antt =====
-- The server on a store that numbers its iterators.
use forty_six.Base.{
  ℕ, suc, Bool, false, ltb, ◌&&◌, ==_iff, ◌==◌, ◌+◌, ◌-◌, ◌≡◌, ◌≢◌, refl, true, inl, inr,
  Bool-cases, arith, [], ◌∷◌, none, some, Bytes, bytes_eq, codes, ok, All,
}
use forty_six.Term.{named_node, variable, default_graph}
use forty_six.Store.{RdfQuad}
use forty_six.Api.Rpc.{
  Decoders, Engine, Value, Method, Reply, Handler, result, find_method, handle, disconnect, serve,
  call_found, call_decoded, call, call_query, query_quads, query_domain, query_index, opened,
  terms_at, decode_params,
}
use forty_six.Api.Rpc
use forty_six.Api.Rpc.Protocol.{Step, idle, phase, IsTotal, handle-Step}
use forty_six.Api.Rpc.Session.{IsRefused, serve-refuses}
use forty_six.Api.Rpc.Queries.{
  Transactions, Apart, Search, forgive, query_store, store_engine, query_leaks,
}
use forty_six.Iterator.{update}
use forty_six.Api.Http.{
  Web, Write, status, Response, n_quads_mime, json_mime, node_of, serve_http, query_writes,
}
use forty_six.Api.Http
use forty_six.Api.Http.Responses.{panics, is_defective}
use forty_six.Api.Http.Status.{HasOneStatus, serve_http-status}
use forty_six.Api.Http.Changes.{confirms, serve_http-outcome}
use forty_six.Api.Http.Calls.{dataset_call, call_of, outcome}

abbrev quad : RdfQuad
quad = record {
  subject = variable (codes "a");
  predicate = named_node (codes "p");
  object = variable (codes "b");
  graph = default_graph;
}

-- every message is one quad, or no terms
abbrev dec : Decoders
dec = record {
  Raw = ℕ;
  params = λ raw. ok (raw ∷ []);
  quads = λ raw. ok (quad ∷ []);
  terms = λ raw. ok [];
  term = λ raw. ok (variable (codes "a"));
}

-- the number of transactions begun so far, and whether each is open
pub record Db : Type 0 where
  pub begun : ℕ
  pub live : ℕ → Bool

abbrev open_at : ℕ → Db → Bool
open_at t w = ltb t w.begun && w.live t

abbrev txns : Transactions
txns = record {
  Db = Db;
  Txn = ℕ;
  begin = λ w. (w.begun, record { begun = suc w.begun; live = update w.begun true w.live });
  discard = λ t w. record w { live = update t false w.live };
  is_open = open_at;
}

another :
    (t u : ℕ) (w : Db)
    → u ≢ t
    → open_at t w ≡ true
    → open_at t (record w { live = update u false w.live }) ≡ true
another t u w ne live = elim (Bool-cases (u == t)) [
  | inl e ↦ absurd (ne ((==_iff u t).0 e))
  | inr e ↦ rw e live
]

txns-Apart : Apart txns
txns-Apart = record {
  begin-fresh = λ w t live same. absurd (ground (arith, live, same));
  begin-keeps = λ w t live. ground (arith, live);
  discard-keeps = λ w t u ne live. another t u w ne live;
}

abbrev search : Search txns
search = record {
  Memory = Unit;
  new_iterator = λ quads domain index t s. (true, none, s);
  set_top = λ t s. s;
  domain = λ t s. variable (codes "a") ∷ [];
  next = λ t node s. (ok none, s);
  seek = λ t index s. (none, s);
  prov = λ t s. ok [];
}

abbrev eng : Engine
eng = store_engine txns search

eng-IsTotal : IsTotal dec eng
unfolding query_store forgive
eng-IsTotal quads domain index w w' e = cc e

abbrev fresh : Handler dec eng
fresh = record {
  iter = none;
  heap = record { db = record { begun = 0; live = λ i. false }; memory = tt };
}

abbrev asks : Bytes → Rpc.Request dec eng
asks name = record { method = name; params = some 0 }

handle-Step_example :
    Step
      (phase dec eng fresh.iter)
      (find_method (codes "query"))
      (handle dec eng (asks (codes "query")) fresh).0
      (phase dec eng (handle dec eng (asks (codes "query")) fresh).1.iter)
handle-Step_example = handle-Step dec eng (asks (codes "query")) fresh eng-IsTotal

query_opens : (handle dec eng (asks (codes "query")) fresh).1 ≡ record {
  iter = some 0;
  heap = record { db = record { begun = 1; live = update 0 true (λ i. false) }; memory = tt };
}
unfolding handle find_method bytes_eq call_found call_decoded call call_query query_quads
    query_domain query_index opened terms_at decode_params query_store forgive
query_opens = refl

others :
    All
      (λ (r : Rpc.Request dec eng). find_method r.method ≢ some Method.query)
      (asks (codes "next") ∷ asks (codes "seek") ∷ [])
unfolding find_method bytes_eq
others = (λ e. cc e, (λ e. cc e, tt))

serve-refuses_example :
    All IsRefused (serve dec eng (asks (codes "next") ∷ asks (codes "seek") ∷ []) fresh).0
    × (phase dec eng (serve dec eng (asks (codes "next") ∷ asks (codes "seek") ∷ []) fresh).1.iter
        ≡ idle)
serve-refuses_example =
    serve-refuses dec eng (asks (codes "next") ∷ asks (codes "seek") ∷ []) fresh eng-IsTotal others
      refl

-- the handler behind a first query
abbrev asked : Handler dec eng
asked = (handle dec eng (asks (codes "query")) fresh).1

asked_live : open_at 0 asked.heap.db ≡ true
unfolding handle find_method bytes_eq call_found call_decoded call call_query query_quads
    query_domain query_index opened terms_at decode_params query_store forgive
asked_live = refl

asked_has : asked.iter ≡ some 0
unfolding handle find_method bytes_eq call_found call_decoded call call_query query_quads
    query_domain query_index opened terms_at decode_params query_store forgive
asked_has = refl

asked_again :
    (handle dec eng (asks (codes "query")) asked).0
    ≡ result (Value.terms (some (variable (codes "a") ∷ [])))
unfolding handle find_method bytes_eq call_found call_decoded call call_query query_quads
    query_domain query_index opened terms_at decode_params query_store forgive
asked_again = refl

asks_query : find_method (codes "query") ≡ some Method.query
unfolding find_method bytes_eq
asks_query = refl

query_leaks_example :
    open_at 0
      (disconnect dec eng
        (serve dec eng (asks (codes "query") ∷ asks (codes "next") ∷ []) asked).1).heap.db
    ≡ true
query_leaks_example =
    query_leaks txns search txns-Apart dec (asks (codes "query")) (asks (codes "next") ∷ []) asked 0
      (Value.terms (some (variable (codes "a") ∷ []))) asked_live asks_query asked_again

abbrev web : Web
web = record {
  State = ℕ;
  get = λ node st. ok (quad ∷ []);
  set = λ node quads st. (none, st + 1);
  set_nil = λ node quads st. (none, st);
  set_json_ld = λ uri document st. (none, st + 1);
  delete = λ node st. (none, st - 1);
  Body = ℕ;
  read_line = λ b. ([], none, b);
  is_eof = λ e. true;
  decode_document = λ b. ok [];
  decode_quads = λ b. ok (some quad ∷ []);
  parse_url = λ text. none;
  parse_quad = λ line. quad;
  quad_text = λ q. codes "quad";
  from_rdf = λ node quads. ok [];
  encode_quads = λ quads. codes "json";
  text = λ e. codes "error";
}

abbrev puts : Http.Request web
puts = record {
  method = codes "PUT";
  raw_query = codes "http://a";
  negotiated = n_quads_mime;
  content_type = n_quads_mime;
  body = 0;
}

put_panics : panics web puts 0 ≡ true
unfolding bytes_eq
put_panics = refl

-- The same with JSON, which has one quad.
abbrev puts_json : Http.Request web
puts_json = record puts { content_type = json_mime }

serve_http-status_example :
    (resp : Response web) × (serve_http web 1 puts_json 0 ≡ some resp)
    × (resp.panicked ≡ false)
    × HasOneStatus resp.writes
serve_http-status_example = serve_http-status web 0 puts_json 0 no_writes (inl refl) calm
  where
    no_writes : query_writes web puts_json.raw_query ≡ []
    no_writes = unfold query_writes in unfold Http.url_writes in refl

    calm : panics web puts_json 0 ≡ false
    calm = unfold is_defective bytes_eq Http.all_quads in refl

serve_http-outcome_example :
    (resp : Response web) × (serve_http web 1 puts_json 0 ≡ some resp)
    × (resp.state ≡ (outcome web (node_of puts_json.raw_query) (call_of web puts_json) 0).1)
    × (confirms resp.writes
        ≡ (outcome web (node_of puts_json.raw_query) (call_of web puts_json) 0).0)
serve_http-outcome_example = serve_http-outcome web 0 puts_json 0

-- the store has changed once, and the call has succeeded
changed : outcome web (node_of puts_json.raw_query) (call_of web puts_json) 0 ≡ (true, 1)
unfolding call_of outcome bytes_eq dataset_call Http.all_quads
changed = refl
