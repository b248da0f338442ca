-- ===== src/Dictionary/Strings.antt =====
-- stringDictionary of dictionary.go, which writes terms out in full.
use forty_six.Base.{
  ℕ, suc, ◌<◌, lt→ltb, append-nil, Bool-cases, ◌+◌, ◌≡◌, ◌≢◌, inl, inr, refl, ap, false, ◌&&◌, [],
  ◌∷◌, ◌++◌, Bytes, bytes_eq, bytes_eq_iff, bytes_eq_self, if◌then◌else◌, length, length-append,
  drop, ltb, arith, Result, ok, ◌>>=◌,
}
use forty_six.Text.{has_prefix}
use forty_six.Text.Search.{has_prefix_self}
use forty_six.Dictionary.Parts.{drop-length}
use forty_six.Term.{Term, named_node, blank_node, variable, literal, default_graph}
use forty_six.Tags.{hash}
use forty_six.Dictionary.Terms.{query}

abbrev pub angles : Bytes → Bytes
angles s = b'<' ∷ (s ++ b'>' ∷ [])

-- term.String() and ParseTerm of go-rdfjs. `IsIri` are the IRIs that are read as they are written.
pub record Syntax : Type 1 where
  pub print : Term → Bytes
  pub parse : Bytes → Result Term
  pub IsIri : Bytes → Type 0
  pub parse-angles : (s : Bytes) → IsIri s → parse (angles s) ≡ ok (named_node s)

-- The tests of GetTerm on a named node, below a named origin.
unfoldable pub below : Bytes → Bytes → Term
below base value =
    if bytes_eq value (base ++ hash ∷ [])
    then default_graph
    else if has_prefix (base ++ hash ∷ []) value
    then blank_node (drop (length base + 1) value)
    else if has_prefix (base ++ query ∷ []) value && ltb (length base + 1) (length value)
    then variable (drop (length base + 1) value)
    else named_node value

below_term : Bytes → Term → Term
below_term base (named_node value) = below base value
below_term base term = term

unfoldable pub relative : Term → Term → Term
unfolding below_term
relative term (named_node base) = below_term base term
relative term _ = term

module _ (syntax : Syntax) where
  open syntax use {print, parse, IsIri, parse-angles}

  unfoldable pub named_id : Term → Bytes → Bytes
  named_id (blank_node value) base = angles (base ++ hash ∷ value)
  named_id default_graph base = angles (base ++ hash ∷ [])
  named_id (variable value) base = angles (base ++ query ∷ value)
  named_id term base = print term

  unfoldable pub get_id : Term → Term → Bytes
  get_id term (named_node base) = named_id term base
  get_id term _ = print term

  unfoldable pub get_term : Bytes → Term → Result Term
  get_term id origin = do term ← parse id; ok (relative term origin)

  -- A term that is written out is read back as it is.
  abbrev pub IsWritten : Term → Type 0
  IsWritten term = parse (print term) ≡ ok term

  -- The terms that come back: a blank node and a variable below a named origin if their label is not
  -- empty and their IRI is read as it is written, and a named node if it is not below the origin.
  abbrev pub ComesBack : Term → Term → Type 0
  ComesBack (named_node base) (blank_node v) = (v ≢ []) × IsIri (base ++ hash ∷ v)
  ComesBack (named_node base) default_graph = IsIri (base ++ hash ∷ [])
  ComesBack (named_node base) (variable v) = (v ≢ []) × IsIri (base ++ query ∷ v)
  ComesBack (named_node base) (named_node v) =
      IsWritten (named_node v)
      × (has_prefix (base ++ hash ∷ []) v ≡ false)
      × (has_prefix (base ++ query ∷ []) v ≡ false)
  ComesBack origin term = IsWritten term

bytes_eq-append : (s t u : Bytes) → bytes_eq (s ++ t) (s ++ u) ≡ bytes_eq t u
unfolding bytes_eq
bytes_eq-append [] t u = refl
bytes_eq-append (c ∷ s) t u = ground (arith, bytes_eq-append s t u)

has_prefix-append_both : (s t u : Bytes) → has_prefix (s ++ t) (s ++ u) ≡ has_prefix t u
unfolding has_prefix
has_prefix-append_both [] t u = refl
has_prefix-append_both (c ∷ s) t u = ground (arith, has_prefix-append_both s t u)

drop-base : (s t : Bytes) (c : ℕ) → drop (length s + 1) (s ++ c ∷ t) ≡ t
drop-base s t c = let e : length s + 1 ≡ suc (length s) = omega arith in rw e (drop-length s t c)

below-default : (base : Bytes) → below base (base ++ hash ∷ []) ≡ default_graph
unfolding below
below-default base = rw (bytes_eq_self (base ++ hash ∷ [])) refl

below-blank : (base v : Bytes) → v ≢ [] → below base (base ++ hash ∷ v) ≡ blank_node v
unfolding below bytes_eq has_prefix
below-blank base [] h = absurd (h refl)
below-blank base (c ∷ v) h =
    rw
      (
        bytes_eq-append base (hash ∷ c ∷ v) (hash ∷ []),
        has_prefix-append_both base (hash ∷ []) (hash ∷ c ∷ v),
        drop-base base (c ∷ v) hash,
      )
      refl

below-variable : (base v : Bytes) → v ≢ [] → below base (base ++ query ∷ v) ≡ variable v
unfolding below bytes_eq has_prefix
below-variable base [] h = absurd (h refl)
below-variable base (c ∷ v) h =
    let longer : length base + 1 < length (base ++ query ∷ c ∷ v) =
      omega (arith, length-append base (query ∷ c ∷ v)) in
    rw
      (
        bytes_eq-append base (query ∷ c ∷ v) (hash ∷ []),
        has_prefix-append_both base (hash ∷ []) (query ∷ c ∷ v),
        has_prefix-append_both base (query ∷ []) (query ∷ c ∷ v),
        lt→ltb (length base + 1) (length (base ++ query ∷ c ∷ v)) longer,
        drop-base base (c ∷ v) query,
      )
      refl

below-named :
    (base v : Bytes)
    → has_prefix (base ++ hash ∷ []) v ≡ false
    → has_prefix (base ++ query ∷ []) v ≡ false
    → below base v ≡ named_node v
unfolding below
below-named base v h q = elim (Bool-cases (bytes_eq v (base ++ hash ∷ []))) [
  | inl e ↦ absurd (
      cc (
        h,
        ap (has_prefix (base ++ hash ∷ [])) ((bytes_eq_iff v (base ++ hash ∷ [])).0 e),
        rw append-nil at (has_prefix_self (base ++ hash ∷ []) []),
      ))
  | inr e ↦ rw (e, h, q) refl
]

module _ (syntax : Syntax) where
  open syntax use {print, parse, IsIri, parse-angles}

  -- GetTerm of the stringDictionary gives back the term whose id GetID gives, for every term that
  -- comes back below its origin.
  pub get_term-get_id_string :
      (term origin : Term)
      → ComesBack syntax origin term
      → get_term syntax (get_id syntax term origin) origin ≡ ok term
  unfolding get_term get_id named_id relative
  get_term-get_id_string (blank_node v) (named_node base) (ne, h) =
      rw (parse-angles (base ++ hash ∷ v) h, below-blank base v ne) refl
  get_term-get_id_string default_graph (named_node base) h =
      rw (parse-angles (base ++ hash ∷ []) h, below-default base) refl
  get_term-get_id_string (variable v) (named_node base) (ne, h) =
      rw (parse-angles (base ++ query ∷ v) h, below-variable base v ne) refl
  get_term-get_id_string (named_node v) (named_node base) (h, p, q) =
      rw (h, below-named base v p q) refl
  get_term-get_id_string (literal v l t) (named_node base) h = rw h refl
  get_term-get_id_string term (blank_node b) h = rw h refl
  get_term-get_id_string term (variable b) h = rw h refl
  get_term-get_id_string term (literal v l t) h = rw h refl
  get_term-get_id_string term default_graph h = rw h refl
