-- ===== src/Iterator/Solutions.antt =====
-- Next, Seek, Index, Get, Graph, Domain and Collect of iterator.go. The dictionary is a parameter: an
-- error of GetTerm is ignored and leaves a nil term.
use forty_six.Base.{
  ℕ, zero, suc, ◌-◌, Bool, true, false, not, ◌&&◌, ◌||◌, List, [], ◌∷◌, Option, none, some, Bytes,
  bytes_eq, length, get_or, ltb, ◌==◌, if◌then◌else◌, Result, ok, ◌>>=◌,
}
use forty_six.Term.{Term, blank_node, variable}
use forty_six.Dict.{Dict, lookup}
use forty_six.QuadStore.Sort.{bytes_le}
use forty_six.Util.Triples.{Triple}
use forty_six.Store.{RdfQuad}
use forty_six.Iterator.{Graph, Machine, Delta, update}
use forty_six.Iterator.Outcome.{Outcome, out_of_fuel, failed, done, ◌>=>◌, lift}
use forty_six.Iterator.Tick.{is_nil, push_to, tick}
use forty_six.Iterator.Advance.{advance}

-- What the iterator asks of a dictionary and of a term's String.
pub record Words : Type 0 where
  pub term : Bytes → Option Term
  pub id : Term → Result Bytes
  pub text : Term → Bytes

module _ (g : Graph) (words : Words) where
  -- Iterator: the fields that its methods read.
  pub record Iterator : Type 0 where
    pub query : List RdfQuad
    pub domain : List Term
    pub pivot : ℕ
    pub bot : Bool
    pub top : Bool
    pub empty : Bool
    pub ids : Dict ℕ
    pub cache : Delta g
    pub machine : Machine g

  -- The terms of the next `n` variables, from the index `i` on.
  unfoldable pub terms_from : ℕ → ℕ → Machine g → List (Option Term)
  terms_from zero i m = []
  terms_from (suc n) i m = words.term (g.value i m.graph) ∷ terms_from n (suc i) m

  -- Index
  unfoldable pub index : Iterator → List (Option Term)
  index it = if it.empty then [] else terms_from g.size 0 it.machine

  -- Domain
  unfoldable pub domain_of : Iterator → List Term
  domain_of it = if it.empty then [] else it.domain

  abbrev pub Answer : Type 0
  Answer = Option (List (Option Term)) × Iterator

  abbrev pub found_position : Option ℕ → ℕ → ℕ
  found_position none pivot = pivot
  found_position (some i) pivot = suc i

  -- One more than the index that Next starts from; there is none for a nil node and a pivot of zero.
  unfoldable pub start : Option Term → Iterator → Option ℕ
  start none it = if it.pivot == 0 then none else some it.pivot
  start (some t) it = some (found_position (lookup (words.text t) it.ids) it.pivot)

  unfoldable pub answer : Iterator → ℕ × Delta g × Machine g → Answer
  answer it (tail, cache, m) =
      let it1 = record it { cache = cache; machine = m } in
      if tail == g.size
      then (none, record it1 { top = true })
      else (some (terms_from (g.size - tail) tail m), it1)

  unfoldable pub next_from : ℕ → Option ℕ → Iterator → Outcome Answer
  next_from fuel none it = done (none, it)
  next_from fuel (some c) it =
      advance g (tick g fuel) fuel c it.cache it.machine >=> λ r. done (answer it r)

  -- Next
  unfoldable pub next : ℕ → Option Term → Iterator → Outcome Answer
  next fuel node it =
      if it.top || it.empty
      then done (none, it)
      else if it.bot
      then done (some (index it), record it { bot = false })
      else next_from fuel (start node it) it

  abbrev pub at_word : ℕ → List Bytes → Bytes
  at_word i terms = get_or terms i []

  -- The id that the loop of Seek starts a variable from; the empty id stands for none.
  unfoldable pub first_root : ℕ → List Bytes → Machine g → Bytes
  first_root i terms m =
      if ltb i (length terms) && not (bytes_le (at_word i terms) (g.root i m.graph))
      then at_word i terms
      else if is_nil g i m
      then g.root i m.graph
      else []

  -- The loop that seeks the variable `i`, for which it ticks; ok is false where it gives up.
  unfoldable pub seek_value :
      ℕ → ℕ → ℕ → Bytes → Delta g → Machine g → Outcome (Bool × Delta g × Machine g)
  seek_value fuel zero i root cache m = out_of_fuel
  seek_value fuel (suc n) i root cache m =
      let m1 = record m { graph = g.seek i root m.graph } in
      let again = tick g fuel i 0 cache m1 >=> λ (more, cache1, m2). elim more [
        | true ↦ seek_value fuel n i root cache1 m2
        | false ↦ done (false, cache1, m2)
      ] in
      if is_nil g i m1 then again else done (true, cache, m1)

  unfoldable pub seek_rooted :
      ℕ → ℕ → Bytes → Delta g → Machine g → Outcome (Bool × Delta g × Machine g)
  seek_rooted fuel i root cache m = elim (bytes_eq root []) [
    | true ↦ done (true, cache, m)
    | false ↦ seek_value fuel fuel i root cache m
  ]

  abbrev pub push_saved : Option g.Saved → ℕ → ℕ → Machine g → Outcome (Machine g)
  push_saved none j i m = done m
  push_saved (some saved) j i m = if ltb (suc i) g.size then push_to g j i g.size m else done m

  -- The loop over the next `n` entries of the cache, from the index `j` on, which empties them.
  unfoldable pub push_cache : ℕ → ℕ → ℕ → Delta g → Machine g → Outcome (Delta g × Machine g)
  push_cache zero j i cache m = done (cache, m)
  push_cache (suc n) j i cache m =
      push_saved (cache j) j i m >=> λ m1. push_cache n (suc j) i (update j none cache) m1

  -- The loop of Seek over the next `n` variables, from the index `i` on.
  unfoldable pub seek_from :
      ℕ → ℕ → ℕ → List Bytes → Delta g → Machine g → Outcome (Delta g × Machine g)
  seek_from fuel zero i terms cache m = done (cache, m)
  seek_from fuel (suc n) i terms cache m =
      seek_rooted fuel i (first_root i terms m) cache m >=> λ (more, cache1, m1). elim more [
        | true ↦ push_to g i i g.size m1 >=> λ m2.
            push_cache i 0 i cache1 m2 >=> λ (cache2, m3). seek_from fuel n (suc i) terms cache2 m3
        | false ↦ done (cache1, m1)
      ]

  -- `u.value = u.root` for the next `n` variables, from the index `i` on.
  unfoldable pub reset : ℕ → ℕ → g.State → g.State
  reset zero i s = s
  reset (suc n) i s = reset n (suc i) (g.set_value i (g.root i s) s)

  unfoldable pub word_ids : List Term → Result (List Bytes)
  word_ids [] = ok []
  word_ids (t ∷ ts) = do id ← words.id t; ids ← word_ids ts; ok (id ∷ ids)

  -- Seek
  unfoldable pub seek : ℕ → List Term → Iterator → Outcome Iterator
  seek fuel path it =
      if it.empty
      then done it
      else (lift (word_ids path) >=> λ terms.
          seek_from fuel g.size 0 terms it.cache
            (record it.machine { graph = reset g.size 0 it.machine.graph })
          >=> λ (cache, m).
              done (record it { bot = true; top = false; cache = cache; machine = m }))

  unfoldable pub value_at : Option ℕ → Machine g → Option Term
  value_at none m = none
  value_at (some i) m = if is_nil g i m then none else words.term (g.value i m.graph)

  unfoldable pub get_named : Term → Iterator → Option Term
  get_named t it = value_at (lookup (words.text t) it.ids) it.machine

  -- Get of a term that is not nil.
  unfoldable pub get : Term → Iterator → Option Term
  get (variable v) it = if it.empty then none else get_named (variable v) it
  get (blank_node v) it = if it.empty then none else get_named (blank_node v) it
  get t it = if it.empty then none else some t

  -- variate
  unfoldable pub variate : Term → Iterator → Option Term
  variate (variable v) it = get (variable v) it
  variate (blank_node v) it = get (blank_node v) it
  variate t it = some t

  abbrev pub variate_quad : RdfQuad → Iterator → Triple (Option Term)
  variate_quad q it = record {
    subject = variate q.subject it;
    predicate = variate q.predicate it;
    object = variate q.object it;
  }

  abbrev variate_each : List RdfQuad → Iterator → List (Triple (Option Term))
  variate_each [] it = []
  variate_each (q ∷ qs) it = variate_quad q it ∷ variate_each qs it

  -- Graph, of which the fourth term is always the default graph.
  unfoldable pub graph_of : Iterator → List (Triple (Option Term))
  graph_of it = if it.empty then [] else variate_each it.query it

  abbrev pub get_each : List (Option Term) → Iterator → List (Option Term)
  get_each [] it = []
  get_each (none ∷ ts) it = none ∷ get_each ts it
  get_each (some t ∷ ts) it = get t it ∷ get_each ts it

  abbrev pub Collected : Type 0
  Collected = List (List (Option Term)) × Option Iterator

  abbrev pub push_row : List (Option Term) → Collected → Collected
  push_row row (rows, it) = (row ∷ rows, it)

  -- A round of the loop of Collect. It ends with the first nil of Next, also where that comes with an
  -- error, which is lost; the iterator that a failed Next leaves is not told.
  unfoldable pub collect_row : Outcome Answer → (Iterator → Outcome Collected) → Outcome Collected
  collect_row out_of_fuel rest = out_of_fuel
  collect_row (failed e) rest = done ([], none)
  collect_row (done (none, it)) rest = done ([], some it)
  collect_row (done (some row, it)) rest = rest it >=> λ c. done (push_row (get_each row it) c)

  unfoldable pub collect_rows : ℕ → ℕ → Iterator → Outcome Collected
  collect_rows fuel zero it = out_of_fuel
  collect_rows fuel (suc n) it = collect_row (next fuel none it) (λ it1. collect_rows fuel n it1)

  -- Collect
  unfoldable pub collect : ℕ → Iterator → Outcome Collected
  collect fuel it = if it.empty then done ([], some it) else collect_rows fuel fuel it
