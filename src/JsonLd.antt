-- ===== src/JsonLd.antt =====
-- The conversions of util.go between the terms of go-rdfjs and the nodes of json-gold, and between
-- slices of quads and the datasets of json-gold.
pub mod RoundTrip
pub mod Datasets
use forty_six.Base.{
  Bool, not, ◌&&◌, ◌||◌, List, [], ◌∷◌, ◌++◌, Option, none, some, Bytes, bytes_eq, codes, length,
  drop, if◌then◌else◌, panic, Result, ok, err, ◌>>=◌,
}
use forty_six.Text.{has_prefix}
use forty_six.Term.{Term, named_node, blank_node, variable, literal, default_graph}
use forty_six.Store.{RdfQuad}
use forty_six.Dict.{Dict, lookup, insert}

-- The three kinds of ld.Node; a nil node is none.
pub data Node : Type 0 where
  iri : Bytes → Node
  blank : Bytes → Node
  -- the value, the datatype and the language
  value : Bytes → Bytes → Bytes → Node

-- The IRIs ld.XSDString and rdf.RDFLangString, and the datatype that ld.NewLiteral keeps.
pub record Vocabulary : Type 0 where
  pub xsd_string : Bytes
  pub lang_string : Bytes
  pub keep : Bytes → Bytes

pub record LdQuad : Type 0 where
  pub subject : Option Node
  pub predicate : Option Node
  pub object : Option Node
  pub graph : Option Node

abbrev pub default_label : Bytes
default_label = codes "@default"

abbrev pub blank_node_prefix : Bytes
blank_node_prefix = codes "_:"

-- `node.Attribute[:len(blankNodePrefix)]` panics on a shorter attribute.
unfoldable pub from_label : Bytes → Result Term
from_label (a ∷ b ∷ label) = ok (
    if bytes_eq (a ∷ b ∷ []) blank_node_prefix
    then blank_node label
    else blank_node (a ∷ b ∷ label))
from_label _ = err panic

unfoldable pub from_iri : Bytes → Bytes → Term
from_iri base v =
    if not (bytes_eq base []) && has_prefix base v
    then variable (drop (length base) v)
    else named_node v

module _ (voc : Vocabulary) where
  unfoldable pub from_value : Bytes → Bytes → Bytes → Term
  from_value v datatype language =
      if not (bytes_eq language [])
      then literal v language (some voc.lang_string)
      else if not (bytes_eq datatype []) && not (bytes_eq datatype voc.xsd_string)
      then literal v [] (some datatype)
      else literal v [] none

  -- fromLdNode
  unfoldable pub from_ld_node : Bytes → Option Node → Result Term
  from_ld_node base none = ok default_graph
  from_ld_node base (some (iri v)) = ok (from_iri base v)
  from_ld_node base (some (blank attribute)) =
      if bytes_eq attribute [] || bytes_eq attribute default_label
      then ok default_graph
      else from_label attribute
  from_ld_node base (some (value v datatype language)) = ok (from_value v datatype language)

  abbrev pub new_literal : Bytes → Bytes → Bytes → Node
  new_literal v datatype language = value v (voc.keep datatype) language

  -- toLdNode
  unfoldable pub to_ld_node : Term → Option Node
  to_ld_node (named_node v) = some (iri v)
  to_ld_node (blank_node v) = some (blank (blank_node_prefix ++ v))
  to_ld_node (literal v language none) = some (new_literal v [] [])
  to_ld_node (literal v language (some datatype)) = some (new_literal v datatype language)
  to_ld_node default_graph = some (blank default_label)
  to_ld_node (variable v) = none

  -- fromLdQuad
  unfoldable pub from_ld_quad : Bytes → LdQuad → Result RdfQuad
  from_ld_quad base quad = do
    s ← from_ld_node base quad.subject
    p ← from_ld_node base quad.predicate
    o ← from_ld_node base quad.object
    g ← from_ld_node base quad.graph
    ok (record { subject = s; predicate = p; object = o; graph = g })

  -- toLdQuad
  unfoldable pub to_ld_quad : RdfQuad → LdQuad
  to_ld_quad quad = record {
    subject = to_ld_node quad.subject;
    predicate = to_ld_node quad.predicate;
    object = to_ld_node quad.object;
    graph = to_ld_node quad.graph;
  }

  unfoldable pub from_ld_graph : Bytes → List LdQuad → Result (List RdfQuad)
  from_ld_graph base [] = ok []
  from_ld_graph base (quad ∷ quads) = do
    q ← from_ld_quad base quad
    qs ← from_ld_graph base quads
    ok (q ∷ qs)

  -- fromLdDataset
  unfoldable pub from_ld_dataset : Bytes → Dict (List LdQuad) → Result (List RdfQuad)
  from_ld_dataset base [] = ok []
  from_ld_dataset base ((label, graph) ∷ graphs) = do
    quads ← from_ld_graph base graph
    rest ← from_ld_dataset base graphs
    ok (quads ++ rest)

  -- Where the text of a term, term.String(), is a parameter.
  module _ (text : Term → Bytes) where
    unfoldable pub graph_label : RdfQuad → Bytes
    graph_label quad =
        let label = text quad.graph in if bytes_eq label [] then default_label else label

    unfoldable pub extend : Option (List LdQuad) → LdQuad → List LdQuad
    extend none quad = quad ∷ []
    extend (some graph) quad = graph ++ quad ∷ []

    -- The loop of ToRDFDataset.
    unfoldable pub add_to_dataset : List RdfQuad → Dict (List LdQuad) → Dict (List LdQuad)
    add_to_dataset [] graphs = graphs
    add_to_dataset (quad ∷ quads) graphs =
        let label = graph_label quad in
        add_to_dataset quads (insert label (extend (lookup label graphs) (to_ld_quad quad)) graphs)

    -- ToRDFDataset, on the dataset that ld.NewRDFDataset makes.
    unfoldable pub to_rdf_dataset : Dict (List LdQuad) → List RdfQuad → Dict (List LdQuad)
    to_rdf_dataset fresh quads = add_to_dataset quads fresh
