-- ===== src/Assembly/Prefixes.antt =====
-- The prefix of a constraint and the value at its place make up a key of the index that Store.Set
-- writes.
use forty_six.Base.{
  ℕ, zero, suc, ◌+◌, ◌%◌, ◌<◌, ◌≡◌, ◌≢◌, refl, true, false, [], ◌∷◌, ◌++◌, append_assoc, append-nil,
  Bytes, arith,
}
use forty_six.Text.{join}
use forty_six.Util.Keys.{assemble_key}
use forty_six.Util.Keys.Layout.{assemble_key-join}
use forty_six.Util.Triples.{Triple, at, permute, major}
use forty_six.Caches.Binary.{binary_key}
use forty_six.Index.{ternary_key}
use forty_six.Assembly.{prefix_z, prefix_one, prefix_two, choose}

-- A key with a tail goes on with the last term.
tail-term :
    (prefix : ℕ) (x v : Bytes)
    → assemble_key prefix true (x ∷ []) ++ v ≡ assemble_key prefix false (x ∷ v ∷ [])
unfolding join
tail-term prefix x v = rw (assemble_key-join, assemble_key-join, append-nil, append_assoc) refl

tail-terms :
    (prefix : ℕ) (x y v : Bytes)
    → assemble_key prefix true (x ∷ y ∷ []) ++ v ≡ assemble_key prefix false (x ∷ y ∷ v ∷ [])
unfolding join
tail-terms prefix x y v =
    rw (assemble_key-join, assemble_key-join) (simp (append_assoc, append-nil))

-- The terms of a constraint are those of a triple at the places other than its own.
abbrev pub IsMatch : ℕ → Triple Bytes → Triple Bytes → Type 0
IsMatch place terms ids =
    (at terms ((place + 1) % 3) ≡ at ids ((place + 1) % 3))
    × (at terms ((place + 2) % 3) ≡ at ids ((place + 2) % 3))

-- The prefix that insertD1 makes, and behind it the id of a matching triple at the place, is the
-- triple's ternary key.
pub prefix_one-key :
    (place : ℕ) (terms ids : Triple Bytes)
    → place < 3
    → IsMatch place terms ids
    → prefix_one place terms ++ at ids place ≡ ternary_key ((place + 1) % 3) ids
unfolding prefix_one permute
prefix_one-key zero terms ids h (e, e') = rw (e, e') (tail-terms _ _ _ _)
prefix_one-key (suc zero) terms ids h (e, e') = rw (e, e') (tail-terms _ _ _ _)
prefix_one-key (suc (suc zero)) terms ids h (e, e') = rw (e, e') (tail-terms _ _ _ _)
prefix_one-key (suc (suc (suc n))) terms ids h m = absurd (omega arith)

-- So too for insertDZ, with the binary key that Set counts up for the permutation behind the place.
pub prefix_z-key :
    (place : ℕ) (terms ids : Triple Bytes)
    → place < 3
    → at terms ((place + 2) % 3) ≡ at ids ((place + 2) % 3)
    → prefix_z place terms ++ at ids place
      ≡ binary_key
          ((place + 2) % 3)
          (permute major ((place + 2) % 3) ids).subject
          (permute major ((place + 2) % 3) ids).predicate
unfolding prefix_z permute
prefix_z-key zero terms ids h e = rw e (tail-term _ _ _)
prefix_z-key (suc zero) terms ids h e = rw e (tail-term _ _ _)
prefix_z-key (suc (suc zero)) terms ids h e = rw e (tail-term _ _ _)
prefix_z-key (suc (suc (suc n))) terms ids h e = absurd (omega arith)

-- The two binary keys that Set counts up for the permutation `p` of a triple.
abbrev pub major_key : ℕ → Triple Bytes → Bytes
major_key p ids = let x = permute major p ids in binary_key p x.subject x.predicate

abbrev pub minor_key : ℕ → Triple Bytes → Bytes
minor_key p ids = let x = permute major p ids in binary_key ((p + 1) % 3 + 3) x.predicate x.subject

choose_first : (place : ℕ) (w : Bytes) → choose place [] w ≡ (place + 2) % 3
unfolding choose
choose_first place w = refl

choose_second : (place : ℕ) (v : Bytes) → v ≢ [] → choose place v [] ≡ (place + 1) % 3 + 3
unfolding choose
choose_second place [] ne = absurd (ne refl)
choose_second place (c ∷ v) ne = refl

-- The prefix that insertD2 makes, and behind it the id of a triple at the place, whose other id
-- matches, is a binary key that Set counts up: where the next place has no term, it is the first key
-- for the permutation from the place behind, and where it has one and the place behind has none, it
-- is the second key for the permutation from the place itself.
pub prefix_two-key :
    (place : ℕ) (terms ids : Triple Bytes)
    → place < 3
    → (at terms ((place + 1) % 3) ≡ []
        → at terms ((place + 2) % 3) ≡ at ids ((place + 2) % 3)
        → prefix_two place terms ++ at ids place ≡ major_key ((place + 2) % 3) ids)
      × (at terms ((place + 2) % 3) ≡ []
          → at terms ((place + 1) % 3) ≢ []
          → at terms ((place + 1) % 3) ≡ at ids ((place + 1) % 3)
          → prefix_two place terms ++ at ids place ≡ minor_key place ids)
unfolding prefix_two permute
prefix_two-key zero terms ids h = (
  λ e e'. rw (e, choose_first _ _, e') (tail-term _ _ _),
  λ e ne e'. rw (e, choose_second _ _ ne, e') (tail-term _ _ _),
)
prefix_two-key (suc zero) terms ids h = (
  λ e e'. rw (e, choose_first _ _, e') (tail-term _ _ _),
  λ e ne e'. rw (e, choose_second _ _ ne, e') (tail-term _ _ _),
)
prefix_two-key (suc (suc zero)) terms ids h = (
  λ e e'. rw (e, choose_first _ _, e') (tail-term _ _ _),
  λ e ne e'. rw (e, choose_second _ _ ne, e') (tail-term _ _ _),
)
prefix_two-key (suc (suc (suc n))) terms ids h = absurd (omega arith)
