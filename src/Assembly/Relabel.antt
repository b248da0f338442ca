-- ===== src/Assembly/Relabel.antt =====
-- The new numbers of the variables behind the sort of newIterator.
use mathlib.Core.List.{Memᴰ}
use mathlib.Core.Option.{some-injective}
use forty_six.Base.{
  Bool-cases, bytes_eq, bytes_eq_iff, if◌then◌else◌, Bytes, ℕ, zero, suc, ◌+◌, ◌≡◌, ◌≢◌, ◌⊎◌, inl,
  inr, refl, sym, ap, ◌∙◌, false, List, [], ◌∷◌, some, ◌==◌, ==_iff, arith,
}
use forty_six.Term.{Term}
use forty_six.Iterator.{update}
use forty_six.Dict.{Dict, lookup, insert, lookup-insert}
use forty_six.Assembly.Numbering.{nth}
use forty_six.Assembly.Order.{Variable, known_id, renumber, transformation, sorted_ids}
use forty_six.Assembly.Stable.{Within, nth-Memᴰ, Memᴰ-nth}

module _ {ℓ} {S C : Type ℓ} (text : Term → Bytes) (ids : Dict ℕ) where
  -- The map of ids gives every variable of the list its index.
  abbrev pub Numbers : List (Variable S C) → Type ℓ
  Numbers us = (i : ℕ) (u : Variable S C) → nth i us ≡ some u → lookup (text u.node) ids ≡ some i

  Hit : List (Variable S C) → ℕ → ℕ → ℕ → Type ℓ
  Hit us i j n =
      (k : ℕ) × ((u : Variable S C) × (nth k us ≡ some u) × (known_id text ids u ≡ j) × (n ≡ i + k))

  abbrev Misses : List (Variable S C) → ℕ → Type ℓ
  Misses us j = (k : ℕ) (u : Variable S C) → nth k us ≡ some u → known_id text ids u ≢ j

  Misses-cons :
      (us : List (Variable S C)) (j : ℕ) (u : Variable S C)
      → Misses us j
      → (known_id text ids u == j) ≡ false
      → Misses (u ∷ us) j
  Misses-cons us j u misses isnt zero w at same =
      let at_j = ap (known_id text ids) (some-injective u w at) ∙ same in
      cc (sym isnt ∙ (==_iff (known_id text ids u) j).1 at_j)
  Misses-cons us j u misses isnt (suc k) w at same = misses k w at same

  -- The last variable with the id `j` has given its index, or there is none.
  renumber-cases :
      (us : List (Variable S C)) (i j : ℕ) (new : ℕ → ℕ)
      → Hit us i j (renumber text ids i us new j)
        ⊎ (Misses us j × (renumber text ids i us new j ≡ new j))
  unfolding renumber Hit
  renumber-cases [] i j new = inr ((λ k u h. absurd (cc h)), refl)
  renumber-cases (u ∷ us) i j new =
      elim (renumber-cases us (suc i) j (update (known_id text ids u) i new)) [
        | inl (k, (w, at, same, e)) ↦ inl (suc k, (w, at, same, omega (arith, e)))
        | inr (misses, e) ↦ elim (Bool-cases (known_id text ids u == j)) [
          | inl is ↦
              inl (0, (u, refl, (==_iff (known_id text ids u) j).0 is, e ∙ rw is (omega arith)))
          | inr isnt ↦ inr (Misses-cons us j u misses isnt, e ∙ rw isnt refl)
        ]
      ]

  pub known_id-numbered :
      (us : List (Variable S C)) (i : ℕ) (u : Variable S C)
      → Numbers us
      → nth i us ≡ some u
      → known_id text ids u ≡ i
  known_id-numbered us i u h at = rw (h i u at, known_id) refl

  pub transformation-finds :
      (us vs : List (Variable S C)) (j : ℕ) (v : Variable S C)
      → Numbers vs
      → Within us vs
      → Within vs us
      → nth j vs ≡ some v
      → nth (transformation text ids us j) us ≡ some v
  unfolding transformation Hit
  transformation-finds us vs j v h uv vu at = elim (renumber-cases us 0 j (λ j. 0)) [
    | inl (k, (w, there, same, e)) ↦
        let (i, old) = Memᴰ-nth vs w (uv w (nth-Memᴰ k us w there)) in
        let i=j = sym (known_id-numbered vs i w h old) ∙ same in
        let at_k : renumber text ids 0 us (λ j. 0) j ≡ k = omega (arith, e) in
        ap (λ n. nth n us) at_k ∙ there ∙ sym old ∙ ap (λ n. nth n vs) i=j ∙ at
    | inr (misses, e) ↦
        let (k, there) = Memᴰ-nth us v (vu v (nth-Memᴰ j vs v at)) in
        absurd (misses k v there (known_id-numbered vs j v h at))
  ]

  -- The new map of ids and the transformation agree on a text that only the variables with one id have.
  sorted_ids-renumber :
      (us : List (Variable S C)) (i j : ℕ) (key : Bytes) (new : ℕ → ℕ) (m : Dict ℕ)
      → ((u : Variable S C) → Memᴰ u us → bytes_eq (text u.node) key ≡ (known_id text ids u == j))
      → (lookup key m ≡ some (new j)) ⊎ ((u : Variable S C) × Memᴰ u us × (known_id text ids u ≡ j))
      → lookup key (sorted_ids text i us m) ≡ some (renumber text ids i us new j)
  unfolding sorted_ids renumber
  sorted_ids-renumber [] i j key new m same (inl h) = h
  sorted_ids-renumber [] i j key new m same (inr (u, mem, e)) = elim mem [ ]
  sorted_ids-renumber (u ∷ us) i j key new m same h =
      let looked = lookup-insert (text u.node) key i m in
      let agrees = same u (Memᴰ.head refl) in
      let rec =
        sorted_ids-renumber us (suc i) j key (update (known_id text ids u) i new)
          (insert (text u.node) i m) (λ w mem. same w (Memᴰ.tail mem)) in
      elim (Bool-cases (known_id text ids u == j)) [
        | inl e ↦ rec (inl (looked ∙ rw (agrees ∙ e, e) refl))
        | inr e ↦ rec (later h (agrees ∙ e) e looked)
      ]
    where
      later :
          (lookup key m ≡ some (new j))
            ⊎ ((w : Variable S C) × Memᴰ w (u ∷ us) × (known_id text ids w ≡ j))
          → bytes_eq (text u.node) key ≡ false
          → (known_id text ids u == j) ≡ false
          → lookup key (insert (text u.node) i m)
            ≡ (if bytes_eq (text u.node) key then some i else lookup key m)
          → (lookup key (insert (text u.node) i m) ≡ some (update (known_id text ids u) i new j))
            ⊎ ((w : Variable S C) × Memᴰ w us × (known_id text ids w ≡ j))
      later (inl there) e1 e looked = inl (looked ∙ rw (e1, e) there)
      later (inr (w, Memᴰ.head is, at_j)) e1 e looked =
          absurd (
            cc
              (sym e ∙ (==_iff (known_id text ids u) j).1 (ap (known_id text ids) (sym is) ∙ at_j)))
      later (inr (w, Memᴰ.tail mem, at_j)) e1 e looked = inr (w, mem, at_j)

  text-known_id :
      (vs : List (Variable S C)) (i j : ℕ) (u v : Variable S C)
      → Numbers vs
      → nth i vs ≡ some u
      → nth j vs ≡ some v
      → bytes_eq (text u.node) (text v.node) ≡ (i == j)
  text-known_id vs i j u v h at_i at_j = elim (Bool-cases (i == j)) [
    | inl e ↦
        let same = ap (λ n. nth n vs) ((==_iff i j).0 e) in
        let u=v = some-injective u v (sym at_i ∙ same ∙ at_j) in
        (bytes_eq_iff (text u.node) (text v.node)).1 (ap (λ w. text w.node) u=v) ∙ sym e
    | inr e ↦ elim (Bool-cases (bytes_eq (text u.node) (text v.node))) [
      | inl eq ↦
          let same = (bytes_eq_iff (text u.node) (text v.node)).0 eq in
          let found = sym (h i u at_i) ∙ ap (λ k. lookup k ids) same ∙ h j v at_j in
          absurd (cc (sym e ∙ (==_iff i j).1 (some-injective i j found)))
      | inr ne ↦ ne ∙ sym e
    ]
  ]

  -- The new map of ids gives a variable its new index.
  pub lookup-sorted_ids :
      (us vs : List (Variable S C)) (j : ℕ) (v : Variable S C)
      → Numbers vs
      → Within us vs
      → Within vs us
      → nth j vs ≡ some v
      → lookup (text v.node) (sorted_ids text 0 us []) ≡ some (transformation text ids us j)
  unfolding transformation
  lookup-sorted_ids us vs j v h uv vu at =
      sorted_ids-renumber us 0 j (text v.node) (λ k. 0) []
        (λ u mem.
          let (i, there) = Memᴰ-nth vs u (uv u mem) in
          text-known_id vs i j u v h there at
          ∙ ap (λ n. n == j) (sym (known_id-numbered vs i u h there)))
        (inr (v, vu v (nth-Memᴰ j vs v at), known_id-numbered vs j v h at))
