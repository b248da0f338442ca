-- ===== src/Assembly.antt =====
-- assemble.go and the insertions of iterator.go: how the quads of a query become variables and
-- constraints. A variable is its index in the domain, and a variable's constraints and its edges are
-- the entries with its index, in their order.
pub mod Prefixes
pub mod Numbering
pub mod Dependencies
pub mod Order
pub mod Stable
pub mod Pivot
pub mod Arrangement
pub mod Relabel
pub mod Edges
use forty_six.Base.{
  ℕ, zero, suc, ◌+◌, ◌*◌, ◌%◌, Bool, true, false, List, [], ◌∷◌, ◌++◌, Option, none, some, Bytes,
  bytes_eq, length, get_or, ltb, ◌==◌, if◌then◌else◌, Error, end_of_solutions, invalid_domain,
  invalid_index, all_blank, Result, ok, err, ◌>>=◌,
}
use forty_six.Util.Keys.{ternary_prefix, binary_prefix, assemble_key}
use forty_six.Util.Triples.{Triple, at}
use forty_six.Term.{Term, named_node, blank_node, variable, literal, default_graph}
use forty_six.Store.{RdfQuad}
use forty_six.Dict.{Dict, lookup, insert}
use forty_six.Badger.{Database}
use forty_six.Caches.Unary.{UnaryCache}
use forty_six.Caches.Binary.{BinaryCache}
use forty_six.Constraint.{count_terms}

-- A constraint of the variable `owner`; `other` is the variable at the third place, if there is one.
pub record Entry : Type 0 where
  pub owner : ℕ
  pub other : Option ℕ
  pub index : ℕ
  pub place : ℕ
  pub prefix : Bytes
  pub count : ℕ
  pub terms : Triple Bytes

-- What newIterator has built.
pub record Assembly : Type 0 where
  pub domain : List Term
  pub ids : Dict ℕ
  pub entries : List Entry
  pub unary : UnaryCache
  pub binary : BinaryCache

-- What newIterator has come to: an iterator without solutions, for a constraint whose count is zero, or
-- the variables and constraints.
pub data Assembled : Type 0 where
  no_solutions : Assembled
  assembled : Assembly → Assembled

-- `if err == ErrEndOfSolutions { iter.empty = true; return iter, nil }`
unfoldable pub or_empty : Result Assembly → Result Assembled
or_empty (ok a) = ok (assembled a)
or_empty (err end_of_solutions) = ok no_solutions
or_empty (err e) = err e

-- The prefixes of insertDZ, insertD1 and insertD2.
unfoldable pub prefix_z : ℕ → Triple Bytes → Bytes
prefix_z place terms =
    let p = (place + 2) % 3 in assemble_key (binary_prefix p) true (at terms p ∷ [])

unfoldable pub prefix_one : ℕ → Triple Bytes → Bytes
prefix_one place terms =
    let p = (place + 1) % 3 in
    assemble_key (ternary_prefix p) true (at terms p ∷ at terms ((p + 1) % 3) ∷ [])

-- The permutation that insertD2 chooses, on the terms behind the place; it is zero where neither is
-- empty.
unfoldable pub choose : ℕ → Bytes → Bytes → ℕ
choose place [] w = (place + 2) % 3
choose place (c ∷ v) [] = (place + 1) % 3 + 3
choose place (c ∷ v) (d ∷ w) = 0

unfoldable pub prefix_two : ℕ → Triple Bytes → Bytes
prefix_two place terms =
    let p = choose place (at terms ((place + 1) % 3)) (at terms ((place + 2) % 3)) in
    assemble_key (binary_prefix p) true (at terms (p % 3) ∷ [])

module _ (text : Term → Bytes) where
  unfoldable pub number : Term → Option ℕ → Assembly → ℕ × Assembly
  number t (some i) a = (i, a)
  number t none a =
      let n = length a.domain in
      (n, record a { domain = a.domain ++ t ∷ []; ids = insert (text t) n a.ids })

  abbrev pub numbered : ℕ × Assembly → Option ℕ × Assembly
  numbered (i, a) = (some i, a)

  -- parseNode; a nil variable is none.
  unfoldable pub parse_node : Term → Assembly → Option ℕ × Assembly
  parse_node (variable v) a = numbered (number (variable v) (lookup (text (variable v)) a.ids) a)
  parse_node (blank_node v) a =
      numbered (number (blank_node v) (lookup (text (blank_node v)) a.ids) a)
  parse_node t a = (none, a)

  -- The loop over the domain, from the index `i` on; `split` is set behind the first blank node.
  unfoldable pub check_domain : ℕ → Bool → List Term → Dict ℕ → Result (Dict ℕ)
  check_domain i split [] ids = ok ids
  check_domain i true (variable v ∷ ts) ids = err invalid_domain
  check_domain i false (variable v ∷ ts) ids =
      check_domain (suc i) false ts (insert (text (variable v)) i ids)
  check_domain i split (blank_node v ∷ ts) ids =
      check_domain (suc i) true ts (insert (text (blank_node v)) i ids)
  check_domain i split (t ∷ ts) ids = err invalid_domain

  module _ (b : Database) (word : Term → Result Bytes) (t : b.Txn) where
    abbrev pub entry : ℕ → Option ℕ → ℕ → ℕ → Bytes → ℕ → Triple Bytes → Entry
    entry owner other index place prefix count terms = record {
      owner = owner;
      other = other;
      index = index;
      place = place;
      prefix = prefix;
      count = count;
      terms = terms;
    }

    unfoldable pub counted :
        ℕ
        → Option ℕ
        → ℕ
        → ℕ
        → Bytes
        → Triple Bytes
        → ℕ
        → UnaryCache
        → BinaryCache
        → Assembly
        → Result Assembly
    counted owner other index place prefix terms n uc bc a =
        if n == 0
        then err end_of_solutions
        else ok (record a {
          entries = a.entries ++ entry owner other index place prefix n terms ∷ [];
          unary = uc;
          binary = bc;
        })

    -- What the three insertions share: the count, which must not be zero, and the new constraint.
    unfoldable pub insert_entry :
        ℕ → Option ℕ → ℕ → ℕ → Bytes → Triple Bytes → Assembly → Result Assembly
    insert_entry owner other index place prefix terms a = do
      let j = (place + 1) % 3
      let k = (place + 2) % 3
      (n, uc, bc) ← count_terms b j k (at terms j) (at terms k) a.unary a.binary t
      counted owner other index place prefix terms n uc bc a

    unfoldable pub insert_one : ℕ → ℕ → ℕ → Triple Bytes → Assembly → Result Assembly
    insert_one u index place terms a =
        insert_entry u none index place (prefix_one place terms) terms a

    -- Two places with variables, behind the place `p` with a term.
    unfoldable pub insert_pair : ℕ → ℕ → ℕ → ℕ → Triple Bytes → Assembly → Result Assembly
    insert_pair u v index p terms a =
        let q = (p + 1) % 3 in
        let r = (p + 2) % 3 in
        if u == v then insert_entry u none index q (prefix_z q terms) terms a else (do
          a ← insert_entry u (some v) index q (prefix_two q terms) terms a
          insert_entry v (some u) index r (prefix_two r terms) terms a)

    -- The cases of the degree, on the variables of a quad. A constant constraint is only stored.
    unfoldable pub insert_quad :
        ℕ → Option ℕ → Option ℕ → Option ℕ → Triple Bytes → Assembly → Result Assembly
    insert_quad index none none none terms a = ok a
    insert_quad index (some u) none none terms a = insert_one u index 0 terms a
    insert_quad index none (some u) none terms a = insert_one u index 1 terms a
    insert_quad index none none (some u) terms a = insert_one u index 2 terms a
    insert_quad index none (some u) (some v) terms a = insert_pair u v index 0 terms a
    insert_quad index (some v) none (some u) terms a = insert_pair u v index 1 terms a
    insert_quad index (some u) (some v) none terms a = insert_pair u v index 2 terms a
    insert_quad index (some u) (some v) (some w) terms a = err all_blank

    -- The id of a term that is no variable.
    unfoldable pub id_unless : Option ℕ → Term → Result Bytes
    id_unless none t = word t
    id_unless (some u) t = ok []

    abbrev pub is_default : Term → Bool
    is_default default_graph = true
    is_default _ = false

    unfoldable pub assemble_quad : ℕ → RdfQuad → Assembly → Result Assembly
    assemble_quad index quad a =
        let (u, a1) = parse_node quad.subject a in
        let (v, a2) = parse_node quad.predicate a1 in
        let (w, a3) = parse_node quad.object a2 in
        do
          s ← id_unless u quad.subject
          p ← id_unless v quad.predicate
          o ← id_unless w quad.object
          insert_quad index u v w (record { subject = s; predicate = p; object = o }) a3

    -- The loop over the query, which skips quads of named graphs.
    unfoldable pub assemble_quads : ℕ → List RdfQuad → Assembly → Result Assembly
    assemble_quads index [] a = ok a
    assemble_quads index (quad ∷ quads) a =
        if is_default quad.graph
        then (do a ← assemble_quad index quad a; assemble_quads (suc index) quads a)
        else assemble_quads (suc index) quads a

    abbrev pub begin : List Term → Dict ℕ → Assembly
    begin domain ids = record { domain = domain; ids = ids; entries = []; unary = []; binary = [] }

    -- The part of newIterator in front of the scores.
    unfoldable pub assemble : List RdfQuad → List Term → List Term → Result Assembled
    assemble query domain path = do
      ids ← check_domain 0 false domain []
      if ltb (length domain) (length path)
          then err invalid_index
          else or_empty (assemble_quads 0 query (begin domain ids))
