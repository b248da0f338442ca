-- ===== src/Tests/Queries.antt =====
-- The assembly of a query and the conversions of JSON-LD at concrete inputs.
use mathlib.Core.List.{Memᴰ}
use forty_six.Base.{
  ℕ, zero, suc, ◌≡◌, ◌≢◌, ◌⊎◌, ◌↔◌, refl, true, List, [], ◌∷◌, ◌++◌, none, some, Bytes, codes,
  arith, ok,
}
use forty_six.Util.Triples.{Triple}
use forty_six.Term.{Term, named_node, variable, literal, default_graph, value}
use forty_six.Store.{RdfQuad}
use forty_six.Dict.{lookup}
use forty_six.Index.{ternary_key}
use forty_six.Assembly.{Assembly, parse_node, prefix_one, prefix_two}
use forty_six.Assembly.Dependencies.{IsForward, Leads, dependencies, dependents, dependents-Leads}
use forty_six.Assembly.Prefixes.{minor_key, prefix_one-key, prefix_two-key}
use forty_six.Assembly.Numbering.{IsNumbered, IsVariable, Names, parse_node-IsNumbered}
use forty_six.JsonLd.{Vocabulary, from_ld_quad, to_ld_quad, to_rdf_dataset, default_label}
use forty_six.JsonLd.RoundTrip.{IsDocumented, from_ld_quad-to_ld_quad}
use forty_six.JsonLd.Datasets.{labelled, join_graph, to_rdf_dataset-labelled}

-- variable 0 is pushed to 1, and 1 to 2
abbrev edges : ℕ → List ℕ
edges zero = 1 ∷ []
edges (suc zero) = 2 ∷ []
edges (suc (suc i)) = []

edges-IsForward : IsForward edges
edges-IsForward zero j (Memᴰ.head e) = rw e (omega arith)
edges-IsForward zero j (Memᴰ.tail m) = elim m [ ]
edges-IsForward (suc zero) j (Memᴰ.head e) = rw e (omega arith)
edges-IsForward (suc zero) j (Memᴰ.tail m) = elim m [ ]
edges-IsForward (suc (suc i)) j m = elim m [ ]

dependents-Leads_example :
    ((dependencies 3 edges 2 0 ≡ true) ↔ Leads edges 3 0 2)
    × ((dependents 3 edges 0 2 ≡ true) ↔ Leads edges 3 0 2)
dependents-Leads_example = dependents-Leads 3 edges 0 2 edges-IsForward (omega arith)

abbrev ids : Triple Bytes
ids = record { subject = codes "AAAB"; predicate = codes "AAAC"; object = codes "AAAD" }

-- a constraint with the place of the subject, and one with a variable object besides
abbrev one_variable : Triple Bytes
one_variable = record { subject = []; predicate = codes "AAAC"; object = codes "AAAD" }

abbrev two_variables : Triple Bytes
two_variables = record { subject = []; predicate = codes "AAAC"; object = [] }

prefix_one-key_example : prefix_one 0 one_variable ++ codes "AAAB" ≡ ternary_key 1 ids
prefix_one-key_example = prefix_one-key 0 one_variable ids (omega arith) (refl, refl)

prefix_two-key_example : prefix_two 0 two_variables ++ codes "AAAB" ≡ minor_key 0 ids
prefix_two-key_example = (prefix_two-key 0 two_variables ids (omega arith)).1 refl (λ e. cc e) refl

abbrev nothing : Assembly
nothing = record { domain = []; ids = []; entries = []; unary = []; binary = [] }

nothing-IsNumbered : IsNumbered value nothing
nothing-IsNumbered = record {
  numbered = λ i t h. absurd (cc h);
  named = λ i v h. absurd (none_there v h);
}
  where
    none_there : {i : ℕ} (v : Bytes) → lookup v [] ≡ some i → ⊥
    none_there v h = unfold lookup in cc h

abbrev asked : Term
asked = variable (codes "x")

parse_node-IsNumbered_example :
    IsNumbered value (parse_node value asked nothing).1
    × (IsVariable value asked
        → (i : ℕ) × ((parse_node value asked nothing).0 ≡ some i)
          × Names value (parse_node value asked nothing).1 i (codes "x"))
    × (((parse_node value asked nothing).0 ≡ none) ⊎ IsVariable value asked)
parse_node-IsNumbered_example = parse_node-IsNumbered value asked nothing nothing-IsNumbered

abbrev keep_datatype : Bytes → Bytes
keep_datatype [] = codes "string"
keep_datatype (c ∷ d) = c ∷ d

abbrev voc : Vocabulary
voc = record { xsd_string = codes "string"; lang_string = codes "lang"; keep = keep_datatype }

voc-IsDocumented : IsDocumented voc
voc-IsDocumented = record { keep_empty = refl; keep_full = λ d ne. kept d ne }
  where
    kept : (d : Bytes) → d ≢ [] → keep_datatype d ≡ d
    kept [] ne = absurd (ne refl)
    kept (c ∷ d) ne = refl

abbrev quad : RdfQuad
quad = record {
  subject = named_node (codes "a");
  predicate = named_node (codes "p");
  object = literal (codes "v") [] none;
  graph = default_graph;
}

from_ld_quad-to_ld_quad_example : from_ld_quad voc [] (to_ld_quad voc quad) ≡ ok quad
from_ld_quad-to_ld_quad_example =
    from_ld_quad-to_ld_quad voc voc-IsDocumented quad (tt, tt, refl, tt)

to_rdf_dataset-labelled_example :
    lookup default_label (to_rdf_dataset voc value [] (quad ∷ []))
    ≡ join_graph voc value none (labelled voc value default_label (quad ∷ []))
unfolding lookup
to_rdf_dataset-labelled_example = to_rdf_dataset-labelled voc value default_label [] (quad ∷ [])
