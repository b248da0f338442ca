-- ===== src/Store/RoundTrip.antt =====
-- Store.Get after Store.Set gives the dataset back.
use forty_six.Base.{
  ok-injective, ℕ, suc, ◌≡◌, refl, subst, Bool, true, false, List, [], ◌∷◌, Bytes, All, not_found,
  ok, err, >>=-eq-ok, Bool-cases, inl, inr,
}
use forty_six.Term.{Term, default_graph}
use forty_six.Tags.{accepts}
use forty_six.Badger.{Database}
use forty_six.QuadStore.{Quad}
use forty_six.Index.{Session, triple_of, add_triple, delete_quads, write_back, fresh}
use forty_six.Store.{
  delete, DictionaryScheme, QuadStoreScheme, RdfQuad, State, old_quads, quad_ids, source, add_quads,
  put, set, read_quads, get,
}

-- What Set and Get rely on of a dictionary: it knows the ids that it has given for good terms, also
-- after other calls and when it has been committed and opened again.
pub record Remembers (dict : DictionaryScheme) (IsGood : Term → Term → Type 0) : Type 1 where
  pub Knows : dict.Open → Bytes → Term → Term → Type 0
  pub learns :
      (t o : Term) (d d' : dict.Open) (id : Bytes)
      → IsGood t o
      → dict.get_id t o d ≡ ok (id, d')
      → Knows d' id t o
  pub keeps :
      (t o u v : Term) (d d' : dict.Open) (id j : Bytes)
      → dict.get_id t o d ≡ ok (id, d')
      → Knows d j u v
      → Knows d' j u v
  pub reads :
      (t o : Term) (d : dict.Open) (id : Bytes)
      → Knows d id t o
      → (d' : dict.Open) × (dict.get_term id o d ≡ ok (t, d'))
        × ((j : Bytes) (u v : Term) → Knows d j u v → Knows d' j u v)
  pub gives :
      (t o : Term) (d : dict.Open) (id : Bytes)
      → Knows d id t o
      → (d' : dict.Open) × (dict.get_id t o d ≡ ok (id, d'))
        × ((j : Bytes) (u v : Term) → Knows d j u v → Knows d' j u v)
  pub reopens :
      (t o : Term) (d : dict.Open) (id : Bytes)
      → Knows d id t o
      → Knows (dict.open_with false (dict.commit d)) id t o

-- The four terms of a quad are good below the origin.
pub record IsGoodQuad (IsGood : Term → Term → Type 0) (node : Term) (q : RdfQuad) : Type 0 where
  pub subject : IsGood q.subject node
  pub predicate : IsGood q.predicate node
  pub object : IsGood q.object node
  pub graph : IsGood q.graph node

module _ (b : Database) (dict : DictionaryScheme) (store : QuadStoreScheme)
    (IsGood : Term → Term → Type 0) (laws : Remembers dict IsGood) where
  open dict use {Open, get_id, get_term}
  open laws use {Knows}

  Keeps : Open → Open → Type 0
  Keeps d d' = (j : Bytes) (u v : Term) → Knows d j u v → Knows d' j u v

  KnowsQuad : Term → Open → Quad → RdfQuad → Type 0
  KnowsQuad node d ids q =
      Knows d ids.subject q.subject node
      × Knows d ids.predicate q.predicate node
      × Knows d ids.object q.object node
      × Knows d ids.graph q.graph node

  KnowsAll : Term → Open → List Quad → List RdfQuad → Type 0
  unfolding KnowsQuad
  KnowsAll node d [] [] = Unit
  KnowsAll node d (ids ∷ quads) (q ∷ dataset) =
      KnowsQuad node d ids q × KnowsAll node d quads dataset
  KnowsAll node d _ _ = ⊥

  Keeps-KnowsAll :
      (node : Term) (d d' : Open) (quads : List Quad) (dataset : List RdfQuad)
      → Keeps d d'
      → KnowsAll node d quads dataset
      → KnowsAll node d' quads dataset
  unfolding Keeps KnowsAll
  Keeps-KnowsAll node d d' [] [] k h = tt
  Keeps-KnowsAll node d d' (ids ∷ quads) (q ∷ dataset) k ((s, p, o, g), h) =
      ((k _ _ _ s, k _ _ _ p, k _ _ _ o, k _ _ _ g), Keeps-KnowsAll node d d' quads dataset k h)
  Keeps-KnowsAll node d d' [] (q ∷ dataset) k h = h
  Keeps-KnowsAll node d d' (ids ∷ quads) [] k h = h

  quad_ids-KnowsQuad :
      (node : Term) (q : RdfQuad) (d d' : Open) (ids : Quad)
      → IsGoodQuad IsGood node q
      → quad_ids b dict store node q d ≡ ok (ids, d')
      → KnowsQuad node d' ids q × Keeps d d'
  unfolding quad_ids Keeps KnowsQuad
  quad_ids-KnowsQuad node q d d' ids good h =
      let (s, es, h₁) = >>=-eq-ok (get_id q.subject node d) _ h in
      let (p, ep, h₂) = >>=-eq-ok (get_id q.predicate node s.1) _ h₁ in
      let (o, eo, h₃) = >>=-eq-ok (get_id q.object node p.1) _ h₂ in
      let (g, eg, h₄) = >>=-eq-ok (get_id q.graph node o.1) _ h₃ in
      subst (λ (x : Quad × Open). KnowsQuad node x.1 x.0 q × Keeps d x.1) (ok-injective _ _ h₄)
        (
          (
            laws.keeps _ _ _ _ _ _ _ _ eg (
                laws.keeps _ _ _ _ _ _ _ _ eo
                  (laws.keeps _ _ _ _ _ _ _ _ ep (laws.learns _ _ _ _ _ good.subject es))),
            laws.keeps _ _ _ _ _ _ _ _ eg
                (laws.keeps _ _ _ _ _ _ _ _ eo (laws.learns _ _ _ _ _ good.predicate ep)),
            laws.keeps _ _ _ _ _ _ _ _ eg (laws.learns _ _ _ _ _ good.object eo),
            laws.learns _ _ _ _ _ good.graph eg,
          ),
          λ j u v k. laws.keeps _ _ _ _ _ _ _ _ eg (
              laws.keeps _ _ _ _ _ _ _ _ eo
                (laws.keeps _ _ _ _ _ _ _ _ ep (laws.keeps _ _ _ _ _ _ _ _ es k))),
        )

  add_quads-KnowsAll :
      (node : Term) (origin : Bytes) (i : ℕ) (dataset : List RdfQuad) (d : Open) (s : Session b)
      (r : List Quad × Open × Session b)
      → All (IsGoodQuad IsGood node) dataset
      → add_quads b dict store node origin i dataset d s ≡ ok r
      → KnowsAll node r.1 r.0 dataset × Keeps d r.1
  unfolding add_quads KnowsAll Keeps
  add_quads-KnowsAll node origin i [] d s r good h =
      subst (λ (x : List Quad × Open × Session b). KnowsAll node x.1 x.0 [] × Keeps d x.1)
        (ok-injective _ _ h) (tt, λ j u v k. k)
  add_quads-KnowsAll node origin i (q ∷ dataset) d s r (gq, good) h =
      let (x, e, h₁) = >>=-eq-ok (quad_ids b dict store node q d) _ h in
      let (s', e₁, h₂) =
        >>=-eq-ok (add_triple b (triple_of x.0) (source b dict store origin i x.0) s) _ h₁ in
      let (y, e₂, h₃) =
        >>=-eq-ok (add_quads b dict store node origin (suc i) dataset x.1 s') _ h₂ in
      let (one, kept) = quad_ids-KnowsQuad node q d x.1 x.0 gq e in
      let (rest, kept') = add_quads-KnowsAll node origin (suc i) dataset x.1 s' y good e₂ in
      let (ks, kp, ko, kg) = one in
      subst
        (λ (x : List Quad × Open × Session b). KnowsAll node x.1 x.0 (q ∷ dataset) × Keeps d x.1)
        (ok-injective _ _ h₃)
        (
          ((kept' _ _ _ ks, kept' _ _ _ kp, kept' _ _ _ ko, kept' _ _ _ kg), rest),
          λ j u v k. kept' j u v (kept j u v k),
        )

  read_quads-KnowsAll :
      (node : Term) (quads : List Quad) (dataset : List RdfQuad) (d : Open)
      → KnowsAll node d quads dataset
      → read_quads b dict store node quads d ≡ ok dataset
  unfolding read_quads KnowsAll Keeps
  read_quads-KnowsAll node [] [] d h = refl
  read_quads-KnowsAll node [] (q ∷ dataset) d h = absurd h
  read_quads-KnowsAll node (ids ∷ quads) [] d h = absurd h
  read_quads-KnowsAll node (ids ∷ quads) (q ∷ dataset) d ((ks, kp, ko, kg), h) =
      let (d₁, e₁, k₁) = laws.reads _ _ d _ ks in
      let (d₂, e₂, k₂) = laws.reads _ _ d₁ _ (k₁ _ _ _ kp) in
      let (d₃, e₃, k₃) = laws.reads _ _ d₂ _ (k₂ _ _ _ (k₁ _ _ _ ko)) in
      let (d₄, e₄, k₄) = laws.reads _ _ d₃ _ (k₃ _ _ _ (k₂ _ _ _ (k₁ _ _ _ kg))) in
      let rest = read_quads-KnowsAll node quads dataset d₄ (
        Keeps-KnowsAll node d d₄ quads dataset
          (λ j u v k. k₄ j u v (k₃ j u v (k₂ j u v (k₁ j u v k)))) h) in
      rw (e₁, e₂, e₃, e₄, rest) refl

  module _
      (returns : (id : Bytes) (quads : List Quad) (m m' : store.Store)
        → store.set id quads m ≡ ok m'
        → store.get id m' ≡ ok quads) where
    get-put :
        (node : Term) (dataset : List RdfQuad) (st st' : State b dict store)
        → IsGood node default_graph
        → All (IsGoodQuad IsGood node) dataset
        → put b dict store node dataset st ≡ ok st'
        → get b dict store node st' ≡ ok dataset
    unfolding put get Keeps
    get-put node dataset st st' good all h =
        let (x, e₁, h₁) =
          >>=-eq-ok (get_id node default_graph (dict.open_with true st.dictionary)) _ h in
        let (old, e₂, h₂) = >>=-eq-ok (old_quads (store.get x.0 st.quads)) _ h₁ in
        let (t, e₃, h₃) = >>=-eq-ok (delete_quads b x.0 old (b.begin st.db)) _ h₂ in
        let (y, e₄, h₄) =
          >>=-eq-ok (add_quads b dict store node x.0 0 dataset x.1 (fresh b t)) _ h₃ in
        let (t', e₅, h₅) = >>=-eq-ok (write_back b y.2) _ h₄ in
        let (db, e₆, h₆) = >>=-eq-ok (b.commit t') _ h₅ in
        let (m, e₇, h₇) = >>=-eq-ok (store.set x.0 y.0 st.quads) _ h₆ in
        let (known, kept) = add_quads-KnowsAll node x.0 0 dataset x.1 (fresh b t) y all e₄ in
        let origin = laws.reopens _ _ _ _ (kept _ _ _ (laws.learns _ _ _ _ _ good e₁)) in
        let (d, e₈, kept') = laws.gives _ _ _ _ origin in
        let reopened =
          Keeps-KnowsAll node y.1 (dict.open_with false (dict.commit y.1)) y.0 dataset
            (λ j u v k. laws.reopens u v y.1 j k) known in
        subst (λ (z : State b dict store). get b dict store node z ≡ ok dataset)
          (ok-injective _ _ h₇)
          (rw (e₈, returns x.0 y.0 st.quads m e₇)
            (read_quads-KnowsAll node y.0 dataset d (
              Keeps-KnowsAll node (dict.open_with false (dict.commit y.1)) d y.0 dataset kept'
                reopened)))

    -- After a Set that returns no error, Get of the same node gives the dataset back, where the
    -- dictionary remembers the ids that it has given for good terms, the quad store returns what was
    -- set last, and the node and the terms of the dataset are good.
    pub get-set_store :
        (test : Bytes → Bool) (node : Term) (dataset : List RdfQuad) (st st' : State b dict store)
        → IsGood node default_graph
        → All (IsGoodQuad IsGood node) dataset
        → set b dict store test node dataset st ≡ ok st'
        → get b dict store node st' ≡ ok dataset
    unfolding set
    get-set_store test node dataset st st' good all h = elim (Bool-cases (accepts test node)) [
      | inl e ↦ get-put node dataset st st' good all (rw e at h)
      | inr e ↦ absurd (cc (rw e at h))
    ]

  -- After a Delete that returns no error, Get of the same node does not find a dataset, where the
  -- dictionary and the quad store are as above, and the quad store does not find what was deleted.
  pub get-delete_store :
      (removes : (id : Bytes) (m m' : store.Store)
        → store.delete id m ≡ ok m'
        → store.get id m' ≡ err not_found)
      (node : Term) (st st' : State b dict store)
      → IsGood node default_graph
      → delete b dict store node st ≡ ok st'
      → get b dict store node st' ≡ err not_found
  unfolding delete get
  get-delete_store removes node st st' good h =
      let (x, e₁, h₁) =
        >>=-eq-ok (get_id node default_graph (dict.open_with false st.dictionary)) _ h in
      let (old, e₂, h₂) = >>=-eq-ok (store.get x.0 st.quads) _ h₁ in
      let (t, e₃, h₃) = >>=-eq-ok (delete_quads b x.0 old (b.begin st.db)) _ h₂ in
      let (db, e₄, h₄) = >>=-eq-ok (b.commit t) _ h₃ in
      let (m, e₅, h₅) = >>=-eq-ok (store.delete x.0 st.quads) _ h₄ in
      let (d, e₆, kept) =
        laws.gives _ _ _ _ (laws.reopens _ _ _ _ (laws.learns _ _ _ _ _ good e₁)) in
      subst (λ (z : State b dict store). get b dict store node z ≡ err not_found)
        (ok-injective _ _ h₅) (rw (e₆, removes x.0 st.quads m e₅) refl)
