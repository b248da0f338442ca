-- ===== src/Tests/Order.antt =====
-- The sort of a query's variables at a concrete query.
use mathlib.Core.List.{Memᴰ}
use mathlib.Core.Option.{some-injective}
use forty_six.Base.{
  ℕ, zero, suc, ◌≤◌, ◌<◌, ◌≡◌, ◌≢◌, refl, sym, ap, ◌∙◌, List, [], ◌∷◌, some, bytes_eq, subst, codes,
  ltb, arith,
}
use forty_six.Term.{variable, blank_node, value}
use forty_six.Dict.{Dict, lookup}
use forty_six.Assembly.Numbering.{nth}
use forty_six.Assembly.Dependencies.{IsForward}
use forty_six.Assembly.Order.{
  Variable, by_kind, precedes, less, sink, sort_onto, stable, renumber, transformation, sorted_ids,
  targets, edges_at,
}
use forty_six.Assembly.Arrangement.{IsWeakOrder, InOrder, of_variable, of_blank, stable-Arranged}
use forty_six.Assembly.Relabel.{Numbers}
use forty_six.Assembly.Edges.{Linked, edges_at-IsForward, edges_at-Leads}

-- A blank node, and a variable behind it with edges in both directions.
abbrev low : Variable ℕ ℕ
low = record { node = blank_node (codes "b"); score = 1; edges = (1, 0) ∷ [] }

abbrev high : Variable ℕ ℕ
high = record { node = variable (codes "x"); score = 9; edges = (0, 0) ∷ [] }

abbrev pair : List (Variable ℕ ℕ)
pair = low ∷ high ∷ []

abbrev numbers : Dict ℕ
numbers = (codes "b", 0) ∷ (codes "x", 1) ∷ []

-- The variable comes first.
swapped : stable ltb 0 pair ≡ high ∷ low ∷ []
unfolding stable sort_onto sink less precedes by_kind
swapped = refl

moved : transformation value numbers (stable ltb 0 pair) 0 ≡ 1
unfolding transformation renumber stable sort_onto sink less precedes by_kind lookup bytes_eq
moved = refl

unmoved : transformation value numbers (stable ltb 0 pair) 1 ≡ 0
unfolding transformation renumber stable sort_onto sink less precedes by_kind lookup bytes_eq
unmoved = refl

ltb-IsWeakOrder : IsWeakOrder ltb
ltb-IsWeakOrder = record {
  asym = λ a b h. ground (arith, h);
  not_trans = λ a b c h g. ground (arith, h, g);
}

pair-Numbers : Numbers value numbers pair
pair-Numbers zero u h =
    subst (λ u. lookup (value u.node) numbers ≡ some 0) (some-injective low u h)
      (unfold lookup bytes_eq in refl)
pair-Numbers (suc zero) u h =
    subst (λ u. lookup (value u.node) numbers ≡ some 1) (some-injective high u h)
      (unfold lookup bytes_eq in refl)
pair-Numbers (suc (suc i)) u h = absurd (cc h)

one_edge :
    (i k j : ℕ) (v : Variable ℕ ℕ)
    → i ≢ k
    → nth k pair ≡ some v
    → Memᴰ j (k ∷ [])
    → i ≢ j × ((v : Variable ℕ ℕ) × (nth j pair ≡ some v))
one_edge i k j v ne there (Memᴰ.head e) =
    (λ same. ne (same ∙ e), (v, ap (λ n. nth n pair) e ∙ there))
one_edge i k j v ne there (Memᴰ.tail m) = elim m [ ]

pair-Linked : Linked pair
pair-Linked zero u h j m =
    one_edge 0 1 j high (λ e. cc e) refl
      (subst (λ u. Memᴰ j (targets u.edges)) (sym (some-injective low u h)) m)
pair-Linked (suc zero) u h j m =
    one_edge 1 0 j low (λ e. cc e) refl
      (subst (λ u. Memᴰ j (targets u.edges)) (sym (some-injective high u h)) m)
pair-Linked (suc (suc i)) u h j m = absurd (cc h)

-- A domain of one variable, and the pair behind it.
abbrev given : Variable ℕ ℕ
given = record { node = blank_node (codes "y"); score = 20; edges = [] }

arranged : stable ltb 1 (given ∷ pair) ≡ given ∷ high ∷ low ∷ []
unfolding stable sort_onto sink less precedes by_kind
arranged = refl

stable-Arranged_example :
    InOrder ltb ltb-IsWeakOrder 1 0 (stable ltb 1 (given ∷ pair))
    × ((i : ℕ) → i < 1 → nth i (stable ltb 1 (given ∷ pair)) ≡ nth i (given ∷ pair))
stable-Arranged_example =
    stable-Arranged ltb ltb-IsWeakOrder 1 (given ∷ pair)
      (of_blank (codes "y"), (of_blank (codes "b"), (of_variable (codes "x"), tt)))

edges_at-IsForward_example : IsForward (λ i.
    targets (edges_at (transformation value numbers (stable ltb 0 pair)) (stable ltb 0 pair) i))
edges_at-IsForward_example = edges_at-IsForward ltb value numbers 0 pair pair-Numbers pair-Linked

edges_at-Leads_example :
    (nth (transformation value numbers (stable ltb 0 pair) 1) (stable ltb 0 pair) ≡ some high)
    × (lookup (codes "x") (sorted_ids value 0 (stable ltb 0 pair) [])
        ≡ some (transformation value numbers (stable ltb 0 pair) 1))
    × (nth (transformation value numbers (stable ltb 0 pair) 0) (stable ltb 0 pair) ≡ some low)
    × (transformation value numbers (stable ltb 0 pair) 1
          ≤ transformation value numbers (stable ltb 0 pair) 0
        → Memᴰ (transformation value numbers (stable ltb 0 pair) 0) (
            targets (
              edges_at
                (transformation value numbers (stable ltb 0 pair))
                (stable ltb 0 pair)
                (transformation value numbers (stable ltb 0 pair) 1))))
edges_at-Leads_example =
    edges_at-Leads ltb value numbers 0 pair 1 0 high low pair-Numbers refl refl (Memᴰ.head refl)
