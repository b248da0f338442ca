-- ===== src/Dictionary/Terms.antt =====
-- GetID and GetTerm of iriDictionary.
use forty_six.Base.{
  ℕ, suc, Bool, [], ◌∷◌, ◌++◌, Option, none, some, Bytes, bytes_eq, ◌==◌, if◌then◌else◌, take, drop,
  invalid_term, Result, ok, err, ◌>>=◌,
}
use forty_six.Text.{index_byte}
use forty_six.Util.Escape.{escape, unescape, quote, backslash, newline}
use forty_six.Badger.{Database}
use forty_six.Term.{Term, named_node, blank_node, variable, literal, default_graph}
use forty_six.Tags.{hash}
use forty_six.Dictionary.{Sequence, IriDictionary, get_iri, get_value}

abbrev pub query : ℕ
query = b'?'

abbrev pub colon : ℕ
colon = b':'

abbrev pub at_sign : ℕ
at_sign = b'@'

-- A TagScheme's two methods.
pub record TagScheme : Type 0 where
  pub test : Bytes → Bool
  pub parse : Bytes → Bytes × Bytes

-- rdf.XSDString and rdf.RDFLangString of go-rdfjs, by the IRIs that are their values.
pub record Datatypes : Type 0 where
  pub xsd_string : Bytes
  pub lang_string : Bytes

abbrev pub push : Bytes → Option (Bytes × Bytes) → Option (Bytes × Bytes)
push s none = none
push s (some (text, rest)) = some (s ++ text, rest)

-- The match of patternLiteral behind its first quote: the text in front of the closing quote, and the
-- rest behind it. The dot stands for any character but a newline, so a backslash is never the last one
-- of the text.
unfoldable pub scan : Bytes → Option (Bytes × Bytes)
scan [] = none
scan (c ∷ []) = if c == quote then some ([], []) else none
scan (c ∷ d ∷ s) =
    let escaped = push (c ∷ d ∷ []) (scan s) in
    let plain = push (c ∷ []) (scan (d ∷ s)) in
    if c == quote
    then some ([], d ∷ s)
    else if c == backslash
    then (if d == newline then none else escaped)
    else plain

unfoldable pub match_literal : Bytes → Option (Bytes × Bytes)
match_literal [] = none
match_literal (c ∷ s) = if c == quote then scan s else none

-- the base IRI: that of a named node, or else the empty text
abbrev pub base_of : Term → Bytes
base_of (named_node v) = v
base_of _ = []

module _ (b : Database) (q : Sequence) (tags : TagScheme) (types : Datatypes) where
  abbrev pub Dictionary : Type 0
  Dictionary = IriDictionary b q

  abbrev pub quoted : Bytes → Bytes
  quoted value = quote ∷ (escape value ++ quote ∷ [])

  unfoldable pub literal_id :
      Bytes → Bytes → Option Bytes → Dictionary → Result (Bytes × Dictionary)
  literal_id value language none d = ok (quoted value, d)
  literal_id value language (some datatype) d =
      if bytes_eq datatype types.xsd_string
      then ok (quoted value, d)
      else if bytes_eq datatype types.lang_string
      then ok (quoted value ++ at_sign ∷ language, d)
      else (do (id, d) ← get_iri b q datatype d; ok (quoted value ++ colon ∷ id, d))

  -- The six cases of GetID; a term of no other kind is met.
  unfoldable pub get_id : Term → Term → Dictionary → Result (Bytes × Dictionary)
  get_id (named_node value) origin d =
      let (tag, fragment) = tags.parse value in
      if tags.test value
      then (do (id, d) ← get_iri b q tag d; ok (id ++ hash ∷ fragment, d))
      else get_iri b q value d
  get_id (blank_node value) origin d = do
    (id, d) ← get_iri b q (base_of origin) d
    ok (id ++ hash ∷ value, d)
  get_id (literal value language datatype) origin d = literal_id value language datatype d
  get_id default_graph origin d = do
    (id, d) ← get_iri b q (base_of origin) d
    ok (id ++ hash ∷ [], d)
  get_id (variable value) origin d = do
    (id, d) ← get_iri b q (base_of origin) d
    ok (id ++ query ∷ value, d)

  -- What GetTerm makes of a literal's text and of what stands behind the closing quote.
  unfoldable pub literal_term : Bytes → Bytes → Dictionary → Result (Term × Dictionary)
  literal_term text [] d = ok (literal (unescape text) [] none, d)
  literal_term text (c ∷ rest) d =
      if c == colon
      then (do
        (datatype, d) ← get_value b q rest d
        ok (literal (unescape text) [] (some datatype), d))
      else if c == at_sign
      then ok (literal (unescape text) rest (some types.lang_string), d)
      else err invalid_term

  unfoldable pub variable_term : Bytes → Bytes → Bytes → Term
  variable_term t value base =
      if bytes_eq t base then variable value else named_node (t ++ query ∷ value)

  unfoldable pub graph_term : Bytes → Bytes → Bytes → Term
  graph_term t [] base = if bytes_eq t base then default_graph else named_node (t ++ hash ∷ [])
  graph_term t (c ∷ value) base =
      if bytes_eq t base then blank_node (c ∷ value) else named_node (t ++ hash ∷ c ∷ value)

  -- The part of GetTerm behind the literals, on the indices of the first hash and the first question
  -- mark.
  unfoldable pub iri_term :
      Option ℕ → Option ℕ → Bytes → Term → Dictionary → Result (Term × Dictionary)
  iri_term none none s origin d = do (t, d) ← get_value b q s d; ok (named_node t, d)
  iri_term i (some j) s origin d = do
    (t, d) ← get_value b q (take j s) d
    ok (variable_term t (drop (suc j) s) (base_of origin), d)
  iri_term (some i) none s origin d = do
    (t, d) ← get_value b q (take i s) d
    ok (graph_term t (drop (suc i) s) (base_of origin), d)

  unfoldable pub matched_term :
      Option (Bytes × Bytes) → Bytes → Term → Dictionary → Result (Term × Dictionary)
  matched_term (some (text, rest)) s origin d = literal_term text rest d
  matched_term none s origin d = iri_term (index_byte hash s) (index_byte query s) s origin d

  -- GetTerm
  unfoldable pub get_term : Bytes → Term → Dictionary → Result (Term × Dictionary)
  get_term s origin d = matched_term (match_literal s) s origin d
