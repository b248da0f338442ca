-- ===== src/Term.antt =====
-- The terms of the package go-rdfjs that the program tells apart, by the cases of its type switches
-- and the fields that it reads.
use forty_six.Base.{[], Option, Bytes}

pub data Term : Type 0 where
  named_node blank_node variable : Bytes → Term
  -- the value, the language and the datatype, which may be nil
  literal : Bytes → Bytes → Option Bytes → Term
  default_graph : Term

-- term.Value()
abbrev pub value : Term → Bytes
value (named_node v) = v
value (blank_node v) = v
value (variable v) = v
value (literal v language datatype) = v
value default_graph = []
