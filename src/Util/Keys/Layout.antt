-- ===== src/Util/Keys/Layout.antt =====
-- A key is its prefix and its terms with a tab between two; with a tail, one more tab.
use forty_six.Base.{
  ℕ, ◌+◌, ◌≡◌, refl, ap, Bool, true, false, List, [], ◌∷◌, ◌++◌, arith, Bytes, length,
  length-append, All, Lacks, if◌then◌else◌, lt→ltb, le→ltb, append-nil, append_assoc, drop,
}
use forty_six.Text.{join, split}
use forty_six.Text.Parts.{split-join}
use forty_six.Util.Keys.{tab, room, write_terms, assemble_key}

-- the tab behind the last term
abbrev pub tail_tab : Bool → Bytes
tail_tab true = tab ∷ []
tail_tab false = []

write_terms-join :
    (tail : Bool) (l i : ℕ) (t : Bytes) (ts : List Bytes)
    → l + 1 ≡ i + room (t ∷ ts) + (if tail then 1 else 0)
    → write_terms l i (t ∷ ts) ≡ join tab (t ∷ ts) ++ tail_tab tail
unfolding write_terms room join
write_terms-join true l i t [] h = rw (lt→ltb (i + length t) l (omega arith))
write_terms-join false l i t [] h = rw (le→ltb (i + length t) l (omega arith), append-nil)
write_terms-join tail l i t (u ∷ ts) h = rw (
  lt→ltb (i + length t) l (omega arith),
  write_terms-join tail l (i + length t + 1) u ts (omega arith),
  append_assoc,
)

-- The key has the layout that its comment gives.
pub assemble_key-join :
    (prefix : ℕ) (tail : Bool) (t : Bytes) (ts : List Bytes)
    → assemble_key prefix tail (t ∷ ts) ≡ prefix ∷ join tab (t ∷ ts) ++ tail_tab tail
unfolding assemble_key
assemble_key-join prefix tail t ts =
    ap (λ r. prefix ∷ r) (write_terms-join tail _ 1 t ts (omega arith))

length-join : (t : Bytes) (ts : List Bytes) → length (join tab (t ∷ ts)) + 1 ≡ room (t ∷ ts)
unfolding join room
length-join t [] = omega arith
length-join t (u ∷ ts) = omega (arith, length-append t (tab ∷ join tab (u ∷ ts)), length-join u ts)

length-tail_tab : (tail : Bool) → length (tail_tab tail) ≡ (if tail then 1 else 0)
length-tail_tab true = refl
length-tail_tab false = refl

-- The buffer that assembleKey makes, one byte more than the room for each term and one for the
-- tail, is filled to its end.
pub length-assemble_key :
    (prefix : ℕ) (tail : Bool) (t : Bytes) (ts : List Bytes)
    → length (assemble_key prefix tail (t ∷ ts)) ≡ room (t ∷ ts) + (if tail then 1 else 0)
length-assemble_key prefix tail t ts = rw assemble_key-join (
    omega (
      arith,
      length-append (join tab (t ∷ ts)) (tail_tab tail),
      length-join t ts,
      length-tail_tab tail,
    ))

-- Of terms without a tab, the key of a list of terms gives the terms back, split at the tabs.
pub split-assemble_key :
    (prefix : ℕ) (t : Bytes) (ts : List Bytes)
    → All (Lacks tab) (t ∷ ts)
    → split tab (drop 1 (assemble_key prefix false (t ∷ ts))) ≡ t ∷ ts
split-assemble_key prefix t ts h =
    rw (assemble_key-join, append-nil) (split-join tab (t ∷ ts) (cc) h)

-- Two keys without a tail are equal only if their prefixes and their terms are, where no term has a
-- tab in it.
pub assemble_key-injective :
    (p q : ℕ) (t u : Bytes) (ts us : List Bytes)
    → All (Lacks tab) (t ∷ ts)
    → All (Lacks tab) (u ∷ us)
    → assemble_key p false (t ∷ ts) ≡ assemble_key q false (u ∷ us)
    → (p ≡ q) × (t ≡ u) × (ts ≡ us)
assemble_key-injective p q t u ts us ht hu e = ground (
  arith,
  assemble_key-join p false t ts,
  assemble_key-join q false u us,
  split-assemble_key p t ts ht,
  split-assemble_key q u us hu,
  ap (λ (k : Bytes). split tab (drop 1 k)) e,
  e,
)
