-- ===== src/Tags/Accept.antt =====
-- Which names a store with a prefix accepts, and that the URIs below such a name test as a dataset's.
use forty_six.Base.{
  ℕ, ◌≤◌, ◌≡◌, ◌↔◌, refl, true, Option-cases, inl, inr, none, some, [], ◌∷◌, ◌++◌, arith, Bytes,
  length, Lacks,
}
use forty_six.Text.{index, index_byte, has_prefix}
use forty_six.Term.{named_node}
use forty_six.Tags.{hash, starts, prefix_test, accepts}

index-has_prefix : (p s : Bytes) → starts (index p s) ≡ has_prefix p s
unfolding index starts
index-has_prefix p [] = ground arith
index-has_prefix p (x ∷ s) = ground arith

pub index_byte-append :
    (c : ℕ) (s t : Bytes) → Lacks c s → index_byte c (s ++ c ∷ t) ≡ some (length s)
unfolding index_byte
index_byte-append c [] t h = ground arith
index_byte-append c (x ∷ s) t (hx, h) = ground (arith, index_byte-append c s t h)

index_byte-none : (c : ℕ) (s : Bytes) → index_byte c s ≡ none → Lacks c s
unfolding index_byte
index_byte-none c [] h = tt
index_byte-none c (x ∷ s) h = ground (arith, index_byte-none c s)

pub index_byte-Lacks : (c : ℕ) (s : Bytes) → Lacks c s → index_byte c s ≡ none
unfolding index_byte
index_byte-Lacks c [] h = refl
index_byte-Lacks c (x ∷ s) (hx, h) = ground (arith, index_byte-Lacks c s h)

has_prefix-append : (p s t : Bytes) → length p ≤ length s → has_prefix p (s ++ t) ≡ has_prefix p s
unfolding has_prefix
has_prefix-append [] s t h = refl
has_prefix-append (x ∷ p) [] t h = absurd (omega arith)
has_prefix-append (x ∷ p) (y ∷ s) t h = ground (arith, has_prefix-append p s t (omega arith))

has_prefix-length : (p s : Bytes) → has_prefix p s ≡ true → length p ≤ length s
unfolding has_prefix
has_prefix-length [] s h = omega arith
has_prefix-length (x ∷ p) [] h = ground arith
has_prefix-length (x ∷ p) (y ∷ s) h = ground (arith, has_prefix-length p s)

-- A URI of a name without a hash and any fragment tests as a dataset's exactly if the name begins
-- with the prefix.
pub prefix_test-fragment :
    (pts uri fragment : Bytes)
    → Lacks hash uri
    → prefix_test pts (uri ++ hash ∷ fragment) ≡ has_prefix pts uri
prefix_test-fragment pts uri fragment h =
    unfold prefix_test in
    rw (index-has_prefix, index_byte-append hash uri fragment h)
      (ground (arith, has_prefix-append pts uri (hash ∷ fragment), has_prefix-length pts uri))

-- A store with a prefix accepts exactly the names that have no hash in them and begin with it.
pub accepts-named_node :
    (pts uri : Bytes)
    → (accepts (prefix_test pts) (named_node uri) ≡ true)
      ↔ (Lacks hash uri × (has_prefix pts uri ≡ true))
unfolding accepts
accepts-named_node pts uri = (
  λ e. elim (Option-cases (index_byte hash uri)) [
    | inl q ↦
        let l = index_byte-none hash uri q in
        (l, ground (arith, q, e, prefix_test-fragment pts uri [] l))
    | inr (i, q) ↦ ground (arith, q, e)
  ],
  λ (l, p). rw (index_byte-Lacks hash uri l, prefix_test-fragment pts uri [] l) p,
)
