-- ===== src/Dictionary/RoundTrip.antt =====
-- GetTerm reads back the term whose id GetID gave.
use forty_six.Base.{
  ok-injective, ℕ, ◌≡◌, ◌≢◌, ◌∙◌, ◌⊎◌, inl, inr, refl, sym, ap, subst, true, false, [], ◌∷◌, ◌++◌,
  Option, none, some, Bytes, bytes_eq_self, bytes_eq_iff, length, All, All-append, Lacks, arith, ok,
  ◌>>=◌, >>=-eq-ok, append-nil,
}
use forty_six.Text.{index_byte}
use forty_six.Util.Ids.Decode.{IsBase64}
use forty_six.Util.Escape.{escape, quote}
use forty_six.Util.Escape.Stages.{Unambiguous}
use forty_six.Util.Escape.Undo.{unescape-escape}
use forty_six.Badger.{Database, Reads}
use forty_six.Term.{Term, named_node, blank_node, variable, literal, default_graph}
use forty_six.Tags.{hash}
use forty_six.Tags.Accept.{index_byte-append, index_byte-Lacks}
use forty_six.Dictionary.{Sequence, IriDictionary, Found, get_iri, get_value}
use forty_six.Dictionary.View.{known, value_of, IsCoherent, IsFresh, get_iri-Extends}
use forty_six.Dictionary.Terms.{
  query, colon, at_sign, TagScheme, Datatypes, variable_term, graph_term, base_of, quoted,
  literal_id, get_id, literal_term, iri_term, matched_term, get_term,
}
use forty_six.Dictionary.Parts.{
  bytes_ne, take-length, drop-length, no_hash, no_query, match_literal-id, match_literal-part,
  match_literal-quoted, get_value-value_of,
}

module _ (b : Database) (laws : Reads b) (q : Sequence) (tags : TagScheme) (types : Datatypes) where
  -- The terms that come back: no named node that Test takes for one of the datasets, unless Parse
  -- takes it apart at a hash, into another tag than the base and a fragment with no question mark; no
  -- blank node with an empty label or a question mark in it; and a literal only if its text has no
  -- backslash in front of an n, an r or a t, if its datatype is not given as xsd:string, and if it has
  -- a language only with rdf:langString.
  abbrev pub ComesBack : Term → Term → Type 0
  ComesBack origin (named_node v) =
      (tags.test v ≡ false)
      ⊎ ((tags.test v ≡ true)
          × (v ≡ (tags.parse v).0 ++ hash ∷ (tags.parse v).1)
          × Lacks query (tags.parse v).1
          × ((tags.parse v).0 ≢ base_of origin))
  ComesBack origin (blank_node v) = (v ≢ []) × Lacks query v
  ComesBack origin (variable v) = Unit
  ComesBack origin default_graph = Unit
  ComesBack origin (literal v language none) = (language ≡ []) × Unambiguous v
  ComesBack origin (literal v language (some t)) =
      Unambiguous v
      × (t ≢ types.xsd_string)
      × ((t ≡ types.lang_string) ⊎ ((t ≢ types.lang_string) × (language ≡ [])))

  -- GetTerm of the id gives the term.
  unfoldable pub Read : Bytes → Term → Term → IriDictionary b q → Type 0
  Read id term origin d =
      (d' : IriDictionary b q) × (get_term b q tags types id origin d ≡ ok (term, d'))

  iri-Read :
      (id value : Bytes) (origin : Term) (d : IriDictionary b q)
      → All IsBase64 id
      → value_of b q d id ≡ some value
      → Read id (named_node value) origin d
  unfolding Read get_term matched_term iri_term
  iri-Read id value origin d h e =
      let (d', k) = get_value-value_of b q id value d e in
      (
        d',
        rw
            (
              match_literal-id id h,
              index_byte-Lacks hash id (no_hash id h),
              index_byte-Lacks query id (no_query id h),
              k,
            )
            refl,
      )

  hash-Read :
      (id value fragment : Bytes) (origin : Term) (d : IriDictionary b q)
      → All IsBase64 id
      → Lacks query fragment
      → value_of b q d id ≡ some value
      → Read
          (id ++ hash ∷ fragment)
          (graph_term b q tags types value fragment (base_of origin))
          origin
          d
  unfolding Read get_term matched_term iri_term
  hash-Read id value fragment origin d h hf e =
      let (d', k) = get_value-value_of b q id value d e in
      (
        d',
        rw
            (
              match_literal-part id fragment hash h (λ (e : hash ≡ quote). omega arith),
              index_byte-append hash id fragment (no_hash id h),
              index_byte-Lacks query (id ++ hash ∷ fragment)
                  (All-append _ id (hash ∷ fragment) (no_query id h) (omega arith, hf)),
              take-length id (hash ∷ fragment),
              k,
              drop-length id fragment hash,
            )
            refl,
      )

  query-Read :
      (id value name : Bytes) (origin : Term) (d : IriDictionary b q)
      → All IsBase64 id
      → value_of b q d id ≡ some value
      → Read
          (id ++ query ∷ name)
          (variable_term b q tags types value name (base_of origin))
          origin
          d
  unfolding Read get_term matched_term iri_term
  query-Read id value name origin d h e =
      let (d', k) = get_value-value_of b q id value d e in
      (
        d',
        rw
            (
              match_literal-part id name query h (λ (e : query ≡ quote). omega arith),
              index_byte-append query id name (no_query id h),
            )
            (any (index_byte hash (id ++ query ∷ name)) d' k),
      )
    where
      any :
          (i : Option ℕ) (d' : IriDictionary b q)
          → get_value b q id d ≡ ok (value, d')
          → iri_term b q tags types i (some (length id)) (id ++ query ∷ name) origin d
            ≡ ok (variable_term b q tags types value name (base_of origin), d')
      any none d' k = rw (take-length id (query ∷ name), k, drop-length id name query) refl
      any (some i) d' k = rw (take-length id (query ∷ name), k, drop-length id name query) refl

  other_graph :
      (tag fragment v base : Bytes)
      → tag ≢ base
      → v ≡ tag ++ hash ∷ fragment
      → graph_term b q tags types tag fragment base ≡ named_node v
  unfolding graph_term
  other_graph tag [] v base ne e = rw (bytes_ne tag base ne) (ap named_node (sym e))
  other_graph tag (c ∷ fragment) v base ne e = rw (bytes_ne tag base ne) (ap named_node (sym e))

  found-iri :
      (value : Bytes) (d : IriDictionary b q) (r : Bytes × IriDictionary b q)
      → IsCoherent b q d
      → IsFresh b q d
      → get_iri b q value d ≡ ok r
      → All IsBase64 r.0 × (value_of b q r.1 r.0 ≡ some value)
  found-iri value d r h fresh p =
      let (e, _) = get_iri-Extends b laws q value r.0 d r.1 h fresh p in
      (e.text, e.values r.0 ∙ rw (bytes_eq_self r.0) refl)

  abbrev from_text : (Bytes → Bytes) → Bytes × IriDictionary b q → Found b q
  from_text f r = ok (f r.0, r.1)

  -- A GetID of what comes from an IRI's id by a step on that id.
  step-Read :
      (value : Bytes) (f : Bytes → Bytes) (term origin : Term) (d d' : IriDictionary b q)
      (id : Bytes)
      → IsCoherent b q d
      → IsFresh b q d
      → ((text : Bytes) (u : IriDictionary b q)
          → All IsBase64 text
          → value_of b q u text ≡ some value
          → Read (f text) term origin u)
      → (get_iri b q value d >>= from_text f) ≡ ok (id, d')
      → Read id term origin d'
  step-Read value f term origin d d' id h fresh read p =
      let (r, e, k) = >>=-eq-ok (get_iri b q value d) _ p in
      let (text, known) = found-iri value d r h fresh e in
      subst (λ (x : Bytes × IriDictionary b q). Read x.0 term origin x.1) (ok-injective _ _ k)
        (read r.0 r.1 text known)

  literal-Read :
      (v rest language : Bytes) (t : Option Bytes) (origin : Term) (d : IriDictionary b q)
      → Unambiguous v
      → ((d' : IriDictionary b q) × (literal_term b q tags types (escape v) rest d
            ≡ ok (literal v language t, d')))
      → Read (quoted b q tags types v ++ rest) (literal v language t) origin d
  unfolding Read get_term matched_term
  literal-Read v rest language t origin d h (d', k) = (d', rw (match_literal-quoted v rest) k)

  get_literal-Read :
      (v language : Bytes) (t : Option Bytes) (origin : Term) (d d' : IriDictionary b q)
      (id : Bytes)
      → IsCoherent b q d
      → IsFresh b q d
      → ComesBack origin (literal v language t)
      → literal_id b q tags types v language t d ≡ ok (id, d')
      → Read id (literal v language t) origin d'
  unfolding literal_id literal_term
  get_literal-Read v language none origin d d' id h fresh (hl, hv) p =
      subst (λ (x : Bytes × IriDictionary b q). Read x.0 (literal v language none) origin x.1)
        (ok-injective _ _ p)
        (rw append-nil at
          (literal-Read v [] language none origin d hv (d, rw (unescape-escape v hv, hl) refl)))
  get_literal-Read v language (some t) origin d d' id h fresh (hv, ht, inl hl) p =
      subst (λ (x : Bytes × IriDictionary b q). Read x.0 (literal v language (some t)) origin x.1)
        (ok-injective _ _
          (rw (bytes_ne t types.xsd_string ht, (bytes_eq_iff t types.lang_string).1 hl) at p))
        (literal-Read v (at_sign ∷ language) language (some t) origin d hv
          (d, rw (unescape-escape v hv, hl) refl))
  get_literal-Read v language (some t) origin d d' id h fresh (hv, ht, inr (hl, he)) p =
      step-Read t (λ text. quoted b q tags types v ++ colon ∷ text) (literal v language (some t))
        origin d d' id h fresh
        (λ text u ha hu.
          let (u', k) = get_value-value_of b q text t u hu in
          literal-Read v (colon ∷ text) language (some t) origin u hv
            (u', rw (k, unescape-escape v hv, he) refl))
        (rw (bytes_ne t types.xsd_string ht, bytes_ne t types.lang_string hl) at p)

  -- GetTerm gives back the term whose id GetID has given, for every term that comes back, where the
  -- dictionary's table is coherent and the sequence's next number is not in use.
  pub get_term-get_id :
      (term origin : Term) (d d' : IriDictionary b q) (id : Bytes)
      → IsCoherent b q d
      → IsFresh b q d
      → ComesBack origin term
      → get_id b q tags types term origin d ≡ ok (id, d')
      → Read id term origin d'
  unfolding get_id graph_term variable_term
  get_term-get_id (named_node v) origin d d' id h fresh (inl t) p =
      let (text, known) = found-iri v d (id, d') h fresh (rw t at p) in
      iri-Read id v origin d' text known
  get_term-get_id (named_node v) origin d d' id h fresh (inr (t, e, hf, ne)) p =
      let (tag, fragment) = tags.parse v in
      step-Read tag (λ text. text ++ hash ∷ fragment) (named_node v) origin d d' id h fresh
        (λ text u ht hu.
          subst (λ x. Read (text ++ hash ∷ fragment) x origin u)
            (other_graph tag fragment v (base_of origin) ne e)
            (hash-Read text tag fragment origin u ht hf hu))
        (rw t at p)
  get_term-get_id (blank_node []) origin d d' id h fresh (ne, hv) p = absurd (ne refl)
  get_term-get_id (blank_node (c ∷ v)) origin d d' id h fresh (ne, hv) p =
      step-Read (base_of origin) (λ text. text ++ hash ∷ c ∷ v) _ origin d d' id h fresh
        (λ text u ht hu.
          rw (bytes_eq_self (base_of origin)) at
            (hash-Read text (base_of origin) (c ∷ v) origin u ht hv hu))
        p
  get_term-get_id (variable v) origin d d' id h fresh c p =
      step-Read (base_of origin) (λ text. text ++ query ∷ v) _ origin d d' id h fresh
        (λ text u ht hu.
          rw (bytes_eq_self (base_of origin)) at
            (query-Read text (base_of origin) v origin u ht hu))
        p
  get_term-get_id default_graph origin d d' id h fresh c p =
      step-Read (base_of origin) (λ text. text ++ hash ∷ []) _ origin d d' id h fresh
        (λ text u ht hu.
          rw (bytes_eq_self (base_of origin)) at
            (hash-Read text (base_of origin) [] origin u ht tt hu))
        p
  get_term-get_id (literal v language t) origin d d' id h fresh c p =
      get_literal-Read v language t origin d d' id h fresh c p
