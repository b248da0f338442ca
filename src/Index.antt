-- ===== src/Index.antt =====
-- The index of the triples: what Store.Set of set.go does for one quad, and deleteQuads of delete.go.
pub mod Keys
pub mod Step
pub mod Spec
pub mod Add
pub mod Invariant
pub mod Succeed
pub mod Drop
pub mod Discard
pub mod Remove
use forty_six.Base.{
  ℕ, zero, suc, ◌+◌, ◌%◌, Bool, true, false, not, List, [], ◌∷◌, ◌++◌, Option, none, some, Bytes,
  bytes_eq, ◌==◌, if◌then◌else◌, Error, key_not_found, panic, Result, ok, err, ◌>>=◌,
}
use forty_six.Util.Keys.{ternary_prefix, assemble_key}
use forty_six.Util.Triples.{Triple, permute, major, at}
use forty_six.Statement.{Statement, to_string, get_statements}
use forty_six.Badger.{Database, Outcome, done, failed, panicked, set_safe, delete_safe}
use forty_six.Caches.Unary.{UnaryCache}
use forty_six.Caches.Binary
use forty_six.Caches.Binary.{BinaryCache}
use forty_six.Caches.Commit.{commit_binary, commit_unary}
use forty_six.QuadStore.{Quad}

-- The key of a triple in the ternary index of `p`.
abbrev pub ternary_key : ℕ → Triple Bytes → Bytes
ternary_key p terms =
    let x = permute major p terms in
    assemble_key (ternary_prefix p) false (x.subject ∷ x.predicate ∷ x.object ∷ [])

-- A failed call ends Set and Delete, and the deferred Discard of its transaction panics where that is
-- nil.
abbrev pub result {ℓ} : {T : Type ℓ} → Outcome T → Result T
result (done t) = ok t
result (failed none e) = err panic
result (failed (some t) e) = err e
result panicked = err panic

-- The variables of the loop that the rounds change: the caches, `txn`, and `val`, which the second
-- and the third permutation take from the first.
pub record Session (b : Database) : Type 0 where
  pub binary : BinaryCache
  pub unary : UnaryCache
  pub txn : b.Txn
  pub val : Bytes

module _ (b : Database) where
  -- A new key: two binary counts go up, and the entry is written.
  unfoldable pub add_missing : ℕ → Triple Bytes → Statement → Session b → Result (Session b)
  add_missing p terms source s = do
    let x = permute major p terms
    (bc, uc) ← Binary.increment b p x.subject x.predicate s.binary s.unary s.txn
    (bc, uc) ← Binary.increment b ((p + 1) % 3 + 3) x.predicate x.subject bc uc s.txn
    let val = if p == 0 then to_string source else s.val
    t ← result (set_safe b (ternary_key p terms) val s.txn)
    ok (record { binary = bc; unary = uc; txn = t; val = val })

  -- A key that is there: the first index gets one more source.
  unfoldable pub add_present : ℕ → Triple Bytes → Statement → Bytes → Session b → Result (Session b)
  add_present zero terms source old s = do
    let val = old ++ to_string source
    t ← result (set_safe b (ternary_key 0 terms) val s.txn)
    ok (record s { txn = t; val = val })
  add_present (suc p) terms source old s = ok s

  unfoldable pub add_entry :
      ℕ → Triple Bytes → Statement → Result Bytes → Session b → Result (Session b)
  add_entry p terms source (err key_not_found) s = add_missing p terms source s
  add_entry p terms source (err e) s = err e
  add_entry p terms source (ok old) s = add_present p terms source old s

  unfoldable pub add_permutation : ℕ → Triple Bytes → Statement → Session b → Result (Session b)
  add_permutation p terms source s = add_entry p terms source (b.get s.txn (ternary_key p terms)) s

  -- The loop over the three permutations.
  unfoldable pub add_triple : Triple Bytes → Statement → Session b → Result (Session b)
  add_triple terms source s = do
    s ← add_permutation 0 terms source s
    s ← add_permutation 1 terms source s
    add_permutation 2 terms source s

abbrev pub triple_of : Quad → Triple Bytes
triple_of q = record { subject = q.subject; predicate = q.predicate; object = q.object }

-- The sources of other datasets; a nil pointer among the statements is a panic.
unfoldable pub other_sources : Bytes → List (Option Statement) → Result Bytes
other_sources origin [] = ok []
other_sources origin (none ∷ xs) = err panic
other_sources origin (some x ∷ xs) = do
  rest ← other_sources origin xs
  ok (if bytes_eq x.base origin then rest else to_string x ++ rest)

module _ (b : Database) where
  -- deleteSafe of the first key returns any error; of the others a missing key is passed over.
  unfoldable pub after_drop : ℕ → Session b → Outcome b.Txn → Result (Session b)
  after_drop p s (done t) = ok (record s { txn = t })
  after_drop (suc p) s (failed (some t) key_not_found) = ok (record s { txn = t })
  after_drop (suc p) s (failed none key_not_found) = err panic
  after_drop p s (failed t e) = err e
  after_drop p s panicked = err panic

  -- Two binary counts go down, and the entry is deleted.
  unfoldable pub drop_permutation : ℕ → Triple Bytes → Session b → Result (Session b)
  drop_permutation p terms s = do
    (bc, uc) ← Binary.decrement b p (at terms p) (at terms ((p + 1) % 3)) s.binary s.unary s.txn
    (bc, uc) ← Binary.decrement b (p + 3) (at terms p) (at terms ((p + 2) % 3)) bc uc s.txn
    let s = record s { binary = bc; unary = uc }
    after_drop p s (delete_safe b (ternary_key p terms) s.txn)

  unfoldable pub drop_triple : Triple Bytes → Session b → Result (Session b)
  drop_triple terms s = do
    s ← drop_permutation 0 terms s
    s ← drop_permutation 1 terms s
    drop_permutation 2 terms s

  -- The entry keeps the sources of other datasets, and goes where there are none.
  unfoldable pub keep_sources : Triple Bytes → Bytes → Session b → Result (Session b)
  keep_sources terms [] s = drop_triple terms s
  keep_sources terms (c ∷ val) s = do
    t ← result (set_safe b (ternary_key 0 terms) (c ∷ val) s.txn)
    ok (record s { txn = t })

  unfoldable pub remove_entry : Bytes → Triple Bytes → Result Bytes → Session b → Result (Session b)
  remove_entry origin terms (err key_not_found) s = ok s
  remove_entry origin terms (err e) s = err e
  remove_entry origin terms (ok val) s = do
    statements ← get_statements val
    val ← other_sources origin statements
    keep_sources terms val s

  -- One round of the loop of deleteQuads.
  unfoldable pub remove_triple : Bytes → Triple Bytes → Session b → Result (Session b)
  remove_triple origin terms s = remove_entry origin terms (b.get s.txn (ternary_key 0 terms)) s

  unfoldable pub remove_quads : Bytes → List Quad → Session b → Result (Session b)
  remove_quads origin [] s = ok s
  remove_quads origin (q ∷ qs) s = do
    s ← remove_triple origin (triple_of q) s
    remove_quads origin qs s

  -- A session with empty caches.
  abbrev pub fresh : b.Txn → Session b
  fresh t = record { binary = []; unary = []; txn = t; val = [] }

  -- The Commits at the end of Set and of deleteQuads.
  unfoldable pub write_back : Session b → Result b.Txn
  write_back s = do t ← result (commit_binary b s.binary s.txn); result (commit_unary b s.unary t)

  unfoldable pub delete_quads : Bytes → List Quad → b.Txn → Result b.Txn
  delete_quads origin quads t = do s ← remove_quads origin quads (fresh t); write_back s
