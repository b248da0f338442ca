-- ===== src/Util/Triples.antt =====
-- Permutation of constants.go, and `matrix`, `permute`, `major` and `minor` of util.go.
use forty_six.Base.{ℕ, zero, suc}

-- A Permutation is a uint8: SPO, POS and OSP are the rows of `major`, SOP, PSO and OPS, less three,
-- the rows of `minor`.
abbrev pub spo : ℕ
spo = 0

abbrev pub pos : ℕ
pos = 1

abbrev pub osp : ℕ
osp = 2

abbrev pub sop : ℕ
sop = 3

abbrev pub pso : ℕ
pso = 4

abbrev pub ops : ℕ
ops = 5

-- A Go array [3]T.
pub record Triple {ℓ} (A : Type ℓ) : Type ℓ where
  pub subject : A
  pub predicate : A
  pub object : A

-- t[i]; an index past the end, at which Go panics, reads the last entry.
abbrev pub at {ℓ} : {A : Type ℓ} → Triple A → ℕ → A
at t zero = t.subject
at t (suc zero) = t.predicate
at t (suc (suc i)) = t.object

abbrev pub Matrix : Type 0
Matrix = Triple (Triple ℕ)

unfoldable pub permute {ℓ} : {A : Type ℓ} → Matrix → ℕ → Triple A → Triple A
permute m p ids =
    let row = at m p in
    record {
      subject = at ids row.subject;
      predicate = at ids row.predicate;
      object = at ids row.object;
    }

abbrev pub row : ℕ → ℕ → ℕ → Triple ℕ
row a b c = record { subject = a; predicate = b; object = c }

abbrev pub major : Matrix
major = record { subject = row 0 1 2; predicate = row 1 2 0; object = row 2 0 1 }

abbrev pub minor : Matrix
minor = record { subject = row 0 2 1; predicate = row 1 0 2; object = row 2 1 0 }
