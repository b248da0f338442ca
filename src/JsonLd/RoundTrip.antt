-- ===== src/JsonLd/RoundTrip.antt =====
-- A term that is converted to json-gold and back.
use forty_six.Base.{
  ◌≡◌, ◌≢◌, inl, inr, refl, Bool, true, false, Bool-cases, not, ◌&&◌, [], ◌∷◌, ◌++◌, none, some,
  Bytes, bytes_eq, bytes_eq_iff, bytes_eq_self, length, drop, if◌then◌else◌, Result, ok,
}
use forty_six.Text.Search.{has_prefix_self}
use forty_six.Term.{Term, named_node, blank_node, variable, literal, default_graph}
use forty_six.Store.{RdfQuad}
use forty_six.JsonLd.{
  iri, Vocabulary, from_label, from_iri, from_value, from_ld_node, to_ld_node, from_ld_quad,
  to_ld_quad,
}

bytes_eq-false : (x y : Bytes) → x ≢ y → bytes_eq x y ≡ false
bytes_eq-false x y ne = elim (Bool-cases (bytes_eq x y)) [
  | inl e ↦ absurd (ne ((bytes_eq_iff x y).0 e))
  | inr e ↦ e
]

drop-prefix : (p v : Bytes) → drop (length p) (p ++ v) ≡ v
drop-prefix [] v = refl
drop-prefix (c ∷ p) v = drop-prefix p v

module _ (voc : Vocabulary) where
  -- What json-gold documents of NewLiteral: a literal without a datatype is a string.
  pub record IsDocumented : Type 0 where
    pub keep_empty : voc.keep [] ≡ voc.xsd_string
    pub keep_full : (d : Bytes) → d ≢ [] → voc.keep d ≡ d

  -- The terms that come back as they were: no variable, a literal with a language has the datatype of
  -- these, and one without has none or another one than that of strings.
  abbrev pub IsPlain : Term → Type 0
  IsPlain (variable v) = ⊥
  IsPlain (literal v language none) = language ≡ []
  IsPlain (literal v [] (some d)) = (d ≢ []) × (d ≢ voc.xsd_string)
  IsPlain (literal v (c ∷ language) (some d)) = d ≡ voc.lang_string
  IsPlain t = Unit

  module _ (doc : IsDocumented) where
    open doc use {keep_empty, keep_full}

    no_datatype :
        (v : Bytes) (b : Bool)
        → ◌≡◌ {A = Result Term}
            (ok (if not b && false then literal v [] (some voc.xsd_string) else literal v [] none))
            (ok (literal v [] none))
    no_datatype v true = refl
    no_datatype v false = refl

    -- The node of a plain term is converted back to that term.
    pub from_ld_node-to_ld_node :
        (t : Term) → IsPlain t → from_ld_node voc [] (to_ld_node voc t) ≡ ok t
    unfolding from_ld_node to_ld_node from_iri from_label from_value bytes_eq
    from_ld_node-to_ld_node (named_node v) h = refl
    from_ld_node-to_ld_node (blank_node v) h = refl
    from_ld_node-to_ld_node (literal v language none) h =
        rw (keep_empty, bytes_eq_self voc.xsd_string, h)
          (no_datatype v (bytes_eq voc.xsd_string []))
    from_ld_node-to_ld_node (literal v [] (some d)) (full, other) =
        rw (keep_full d full, bytes_eq-false d [] full, bytes_eq-false d voc.xsd_string other) refl
    from_ld_node-to_ld_node (literal v (c ∷ language) (some d)) h = rw h refl
    from_ld_node-to_ld_node default_graph h = refl
    from_ld_node-to_ld_node (variable v) h = elim h [ ]

    abbrev pub IsPlainQuad : RdfQuad → Type 0
    IsPlainQuad q = IsPlain q.subject × IsPlain q.predicate × IsPlain q.object × IsPlain q.graph

    -- A quad of plain terms is converted to a quad of json-gold, and that one back to it, where no base is
    -- given.
    pub from_ld_quad-to_ld_quad :
        (q : RdfQuad) → IsPlainQuad q → from_ld_quad voc [] (to_ld_quad voc q) ≡ ok q
    unfolding from_ld_quad to_ld_quad
    from_ld_quad-to_ld_quad q (s, p, o, g) =
        rw
          (
            from_ld_node-to_ld_node q.subject s,
            from_ld_node-to_ld_node q.predicate p,
            from_ld_node-to_ld_node q.object o,
            from_ld_node-to_ld_node q.graph g,
          )
          refl

  -- An IRI that begins with the base of a query is the variable that the rest names.
  pub from_ld_node-base :
      (base v : Bytes)
      → base ≢ []
      → from_ld_node voc base (some (iri (base ++ v))) ≡ ok (variable v)
  unfolding from_ld_node from_iri
  from_ld_node-base base v ne =
      rw (bytes_eq-false base [] ne, has_prefix_self base v, drop-prefix base v) refl
