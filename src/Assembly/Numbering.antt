-- ===== src/Assembly/Numbering.antt =====
-- The numbers that parseNode gives the variables of a query.
use mathlib.Core.Option.{some-injective}
use forty_six.Base.{
  ℕ, zero, suc, ◌≡◌, ◌⊎◌, refl, sym, ap, subst, ◌∙◌, Bool, true, false, Bool-cases, inl, inr, List,
  [], ◌∷◌, ◌++◌, Option, none, some, Bytes, bytes_eq, bytes_eq_iff, length, if◌then◌else◌,
}
use forty_six.Term.{Term, named_node, blank_node, variable, literal, default_graph}
use forty_six.Dict.{lookup, insert, lookup-insert}
use forty_six.Assembly.{Assembly, number, parse_node}

abbrev pub nth {ℓ} : {A : Type ℓ} → ℕ → List A → Option A
nth i [] = none
nth zero (t ∷ ts) = some t
nth (suc i) (t ∷ ts) = nth i ts

-- An index in a list that is extended is one of the list, or the last one.
nth-append :
    (i : ℕ) (ts : List Term) (t u : Term)
    → nth i (ts ++ t ∷ []) ≡ some u
    → (nth i ts ≡ some u) ⊎ ((i ≡ length ts) × (t ≡ u))
nth-append zero [] t u h = inr (refl, some-injective t u h)
nth-append (suc i) [] t u h = absurd (cc h)
nth-append zero (x ∷ ts) t u h = inl h
nth-append (suc i) (x ∷ ts) t u h = elim (nth-append i ts t u h) [
  | inl e ↦ inl e
  | inr (e, e') ↦ inr (ap suc e, e')
]

nth_kept : (i : ℕ) (ts : List Term) (t u : Term) → nth i ts ≡ some u → nth i (ts ++ t ∷ []) ≡ some u
nth_kept i [] t u h = absurd (cc h)
nth_kept zero (x ∷ ts) t u h = h
nth_kept (suc i) (x ∷ ts) t u h = nth_kept i ts t u h

nth_last : (ts : List Term) (t : Term) → nth (length ts) (ts ++ t ∷ []) ≡ some t
nth_last [] t = refl
nth_last (x ∷ ts) t = nth_last ts t

module _ (text : Term → Bytes) where
  -- The variable with the number `i` has the text `v`.
  abbrev pub Names : Assembly → ℕ → Bytes → Type 0
  Names a i v = (t : Term) × (nth i a.domain ≡ some t) × (text t ≡ v)

  -- The map of ids gives the number of each variable of the domain by its text, and no other number.
  pub record IsNumbered (a : Assembly) : Type 0 where
    pub numbered : (i : ℕ) (t : Term) → nth i a.domain ≡ some t → lookup (text t) a.ids ≡ some i
    pub named : (i : ℕ) (v : Bytes) → lookup v a.ids ≡ some i → Names a i v

  number-IsNumbered :
      (t : Term) (o : Option ℕ) (a : Assembly)
      → lookup (text t) a.ids ≡ o
      → IsNumbered a
      → let (i, a1) = number text t o a in IsNumbered a1 × Names a1 i (text t)
  unfolding number
  number-IsNumbered t (some i) a e h = (h, h.named i (text t) e)
  number-IsNumbered t none a e h =
      (record { numbered = new_numbered; named = new_named }, (t, nth_last a.domain t, refl))
    where
      n : ℕ
      n = length a.domain

      looked :
          (v : Bytes) (b : Bool)
          → bytes_eq (text t) v ≡ b
          → lookup v (insert (text t) n a.ids) ≡ (if b then some n else lookup v a.ids)
      looked v b eq =
          lookup-insert (text t) v n a.ids ∙ ap (λ b. if b then some n else lookup v a.ids) eq

      kept :
          (i : ℕ) (u : Term)
          → lookup (text u) a.ids ≡ some i
          → (bytes_eq (text t) (text u) ≡ true) ⊎ (bytes_eq (text t) (text u) ≡ false)
          → lookup (text u) (insert (text t) n a.ids) ≡ some i
      kept i u old (inr ne) = looked (text u) false ne ∙ old
      kept i u old (inl eq) =
          let same : text t ≡ text u = (bytes_eq_iff (text t) (text u)).0 eq in
          absurd (cc (sym e ∙ ap (λ v. lookup v a.ids) same ∙ old))

      new_numbered :
          (i : ℕ) (u : Term)
          → nth i (a.domain ++ t ∷ []) ≡ some u
          → lookup (text u) (insert (text t) n a.ids) ≡ some i
      new_numbered i u at = elim (nth-append i a.domain t u at) [
        | inl old ↦ kept i u (h.numbered i u old) (Bool-cases (bytes_eq (text t) (text u)))
        | inr (same, same') ↦
            lookup-insert (text t) (text u) n a.ids
            ∙ ap (λ b. if b then some n else lookup (text u) a.ids)
                ((bytes_eq_iff (text t) (text u)).1 (ap text same'))
            ∙ ap some (sym same)
      ]

      new_named :
          (i : ℕ) (v : Bytes)
          → lookup v (insert (text t) n a.ids) ≡ some i
          → (u : Term) × (nth i (a.domain ++ t ∷ []) ≡ some u) × (text u ≡ v)
      new_named i v at = elim (Bool-cases (bytes_eq (text t) v)) [
        | inl eq ↦
            let new : some n ≡ some i = sym (looked v true eq) ∙ at in
            (
              t,
              subst (λ j. nth j (a.domain ++ t ∷ []) ≡ some t) (some-injective n i new)
                  (nth_last a.domain t),
              (bytes_eq_iff (text t) v).0 eq,
            )
        | inr ne ↦
            let (u, there, same) = h.named i v (sym (looked v false ne) ∙ at) in
            (u, nth_kept i a.domain t u there, same)
      ]

  abbrev pub IsVariable : Term → Type 0
  IsVariable (variable v) = Unit
  IsVariable (blank_node v) = Unit
  IsVariable t = ⊥

  -- parseNode keeps the numbering. It gives a variable or a blank node the number of that variable of
  -- the domain that has its text, and any other term none.
  pub parse_node-IsNumbered :
      (t : Term) (a : Assembly)
      → IsNumbered a
      → let (o, a1) = parse_node text t a in
        IsNumbered a1
        × (IsVariable t → (i : ℕ) × (o ≡ some i) × Names a1 i (text t))
        × ((o ≡ none) ⊎ IsVariable t)
  unfolding parse_node
  parse_node-IsNumbered (variable v) a h =
      let (new, there) =
        number-IsNumbered (variable v) (lookup (text (variable v)) a.ids) a refl h in
      (new, λ _. (_, refl, there), inr tt)
  parse_node-IsNumbered (blank_node v) a h =
      let (new, there) =
        number-IsNumbered (blank_node v) (lookup (text (blank_node v)) a.ids) a refl h in
      (new, λ _. (_, refl, there), inr tt)
  parse_node-IsNumbered (named_node v) a h = (h, λ p. elim p [ ], inl refl)
  parse_node-IsNumbered (literal v l d) a h = (h, λ p. elim p [ ], inl refl)
  parse_node-IsNumbered default_graph a h = (h, λ p. elim p [ ], inl refl)
