-- ===== src/Util/Keys/Scan.antt =====
-- What a scan of the index with a tailed key as its prefix meets, and what it reads there.
use forty_six.Base.{
  ℕ, suc, ◌≡◌, ◌↔◌, refl, sym, ap, ap₂, ◌∙◌, true, false, List, [], ◌∷◌, ◌++◌, append_assoc,
  append-nil, arith, Bytes, length, All, Lacks,
}
use forty_six.Text.Search.{has_prefix_self}
use forty_six.Text.{join, has_prefix}
use forty_six.Util.Keys.{tab, assemble_key}
use forty_six.Util.Keys.Layout.{assemble_key-join}

-- terms, each with a tab behind it
flat : List Bytes → Bytes
flat [] = []
flat (t ∷ ts) = t ++ tab ∷ flat ts

join-flat : (t : Bytes) (ts : List Bytes) → join tab (t ∷ ts) ++ tab ∷ [] ≡ flat (t ∷ ts)
unfolding join flat
join-flat t [] = refl
join-flat t (u ∷ ts) = rw (append_assoc, join-flat u ts)

join-append :
    (ts : List Bytes) (u : Bytes) (us : List Bytes)
    → join tab (ts ++ u ∷ us) ≡ flat ts ++ join tab (u ∷ us)
unfolding join flat
join-append [] u us = refl
join-append (t ∷ []) u us = rw append_assoc
join-append (t ∷ t' ∷ ts) u us =
    ap (λ r. t ++ tab ∷ r) (join-append (t' ∷ ts) u us)
    ∙ sym (append_assoc t (tab ∷ flat (t' ∷ ts)) (join tab (u ∷ us)))

-- A term with its tab fits in front of a text exactly if the text begins with that term.
has_prefix-term :
    (a b r s : Bytes)
    → Lacks tab a
    → Lacks tab b
    → has_prefix (a ++ tab ∷ r) (b ++ tab ∷ s) ≡ true
    → (a ≡ b) × (has_prefix r s ≡ true)
unfolding has_prefix
has_prefix-term [] [] r s ha hb e = (refl, e)
has_prefix-term [] (y ∷ b) r s ha hb e = ground arith
has_prefix-term (x ∷ a) [] r s ha hb e = ground arith
has_prefix-term (x ∷ a) (y ∷ b) r s (_, ha) (_, hb) e =
    ground (arith, has_prefix-term a b r s ha hb)

has_prefix-flat :
    (ts us : List Bytes) (s : Bytes)
    → length ts ≡ length us
    → All (Lacks tab) ts
    → All (Lacks tab) us
    → has_prefix (flat ts) (flat us ++ s) ≡ true
    → ts ≡ us
unfolding flat
has_prefix-flat [] [] s l ht hu e = refl
has_prefix-flat [] (u ∷ us) s l ht hu e = absurd (omega arith)
has_prefix-flat (t ∷ ts) [] s l ht hu e = absurd (omega arith)
has_prefix-flat (t ∷ ts) (u ∷ us) s l (ht, hts) (hu, hus) e =
    let (same, rest) = has_prefix-term t u (flat ts) (flat us ++ s) ht hu (rw append_assoc at e) in
    ap₂ ◌∷◌ same (has_prefix-flat ts us s (omega arith) hts hus rest)

assemble_key-flat :
    (p : ℕ) (t : Bytes) (ts : List Bytes) → assemble_key p true (t ∷ ts) ≡ p ∷ flat (t ∷ ts)
assemble_key-flat p t ts = assemble_key-join p true t ts ∙ ap (λ r. p ∷ r) (join-flat t ts)

assemble_key-append :
    (p : ℕ) (t : Bytes) (ts : List Bytes) (u : Bytes) (us : List Bytes)
    → assemble_key p false ((t ∷ ts) ++ u ∷ us) ≡ p ∷ (flat (t ∷ ts) ++ join tab (u ∷ us))
assemble_key-append p t ts u us =
    assemble_key-join p false t (ts ++ u ∷ us)
    ∙ ap (λ r. p ∷ r) (append-nil _ ∙ join-append (t ∷ ts) u us)

-- A key begins with the tailed key of as many first terms exactly if it has that prefix byte and
-- those first terms, where none of the terms on either side has a tab in it.
pub has_prefix-assemble_key :
    (p q : ℕ) (t t' : Bytes) (ts ts' : List Bytes) (u : Bytes) (us : List Bytes)
    → length ts ≡ length ts'
    → All (Lacks tab) (t ∷ ts)
    → All (Lacks tab) (t' ∷ ts')
    → (has_prefix (assemble_key p true (t ∷ ts)) (assemble_key q false ((t' ∷ ts') ++ u ∷ us))
        ≡ true)
      ↔ ((p ≡ q) × (t ≡ t') × (ts ≡ ts'))
unfolding has_prefix
has_prefix-assemble_key p q t t' ts ts' u us l h h' =
    rw (assemble_key-flat, assemble_key-append)
      (
        (λ e.
            ground
              (arith, has_prefix-flat (t ∷ ts) (t' ∷ ts') (join tab (u ∷ us)) (ap suc l) h h')),
        (λ e. ground (arith, e, has_prefix_self (flat (t ∷ ts)) (join tab (u ∷ us)))),
      )
