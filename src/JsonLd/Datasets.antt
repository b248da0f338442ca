-- ===== src/JsonLd/Datasets.antt =====
-- The graphs of a dataset that ToRDFDataset makes.
use forty_six.Base.{
  ◌≡◌, refl, sym, ap, ◌∙◌, Bool-cases, inl, inr, List, [], ◌∷◌, ◌++◌, append_assoc, append-nil,
  Option, none, some, Bytes, bytes_eq, bytes_eq_iff, if◌then◌else◌,
}
use forty_six.Term.{Term}
use forty_six.Store.{RdfQuad}
use forty_six.Dict.{Dict, lookup, lookup-insert}
use forty_six.JsonLd.{
  Vocabulary, LdQuad, to_ld_quad, graph_label, extend, add_to_dataset, to_rdf_dataset,
}

module _ (voc : Vocabulary) (text : Term → Bytes) where
  -- The quads of one graph, converted, in their order.
  unfoldable pub labelled : Bytes → List RdfQuad → List LdQuad
  labelled label [] = []
  labelled label (quad ∷ quads) =
      if bytes_eq (graph_label voc text quad) label
      then to_ld_quad voc quad ∷ labelled label quads
      else labelled label quads

  -- A graph with more quads at its end; no graph is made for no quads.
  abbrev pub join_graph : Option (List LdQuad) → List LdQuad → Option (List LdQuad)
  join_graph none [] = none
  join_graph none (quad ∷ quads) = some (quad ∷ quads)
  join_graph (some graph) quads = some (graph ++ quads)

  join_graph-extend :
      (o : Option (List LdQuad)) (quad : LdQuad) (quads : List LdQuad)
      → join_graph (some (extend voc text o quad)) quads ≡ join_graph o (quad ∷ quads)
  unfolding extend
  join_graph-extend none quad quads = refl
  join_graph-extend (some graph) quad quads = ap some (append_assoc graph (quad ∷ []) quads)

  join_graph-nil : (o : Option (List LdQuad)) → join_graph o [] ≡ o
  join_graph-nil none = refl
  join_graph-nil (some graph) = ap some (append-nil graph)

  add_to_dataset-labelled :
      (label : Bytes) (quads : List RdfQuad) (graphs : Dict (List LdQuad))
      → lookup label (add_to_dataset voc text quads graphs)
        ≡ join_graph (lookup label graphs) (labelled label quads)
  unfolding add_to_dataset labelled
  add_to_dataset-labelled label [] graphs = sym (join_graph-nil (lookup label graphs))
  add_to_dataset-labelled label (quad ∷ quads) graphs =
      let own = graph_label voc text quad in
      let grown = extend voc text (lookup own graphs) (to_ld_quad voc quad) in
      add_to_dataset-labelled label quads _
      ∙ ap (λ o. join_graph o (labelled label quads)) (lookup-insert own label grown graphs)
      ∙ elim (Bool-cases (bytes_eq own label)) [
        | inl e ↦
            let there : own ≡ label = (bytes_eq_iff own label).0 e in
            rw e (
              join_graph-extend (lookup own graphs) (to_ld_quad voc quad) (labelled label quads)
              ∙ ap (λ l. join_graph (lookup l graphs) (to_ld_quad voc quad ∷ labelled label quads))
                  there)
        | inr e ↦ rw e refl
      ]

  -- The graph that ToRDFDataset makes for a label has the quads with this label, in their order,
  -- behind those that it had, and there is none where there was none and no quad has the label.
  pub to_rdf_dataset-labelled :
      (label : Bytes) (fresh : Dict (List LdQuad)) (quads : List RdfQuad)
      → lookup label (to_rdf_dataset voc text fresh quads)
        ≡ join_graph (lookup label fresh) (labelled label quads)
  unfolding to_rdf_dataset
  to_rdf_dataset-labelled label fresh quads = add_to_dataset-labelled label quads fresh
