-- ===== src/Index/Succeed.antt =====
-- Adding a triple succeeds wherever the database takes the writes.
use forty_six.Base.{
  ℕ, zero, suc, ◌*◌, ◌+◌, ◌%◌, ◌^◌, ◌<◌, ◌≤◌, ◌≡◌, ◌∙◌, refl, Bool, List, ◌++◌, Bytes, ◌==◌,
  if◌then◌else◌, arith, length, key_not_found, Result, ok, err, ◌>>=◌,
}
use forty_six.Util.Triples.{Triple, permute, major}
use forty_six.Statement.{Statement, to_string}
use forty_six.Badger.{Database, Reads, set_safe, done}
use forty_six.Badger.Safe.{get-set_safe}
use forty_six.Caches.Unary.{UnaryCache, unary_key}
use forty_six.Caches.Unary.View.{counts}
use forty_six.Caches.Binary.{binary_key}
use forty_six.Caches.Binary.View.{count}
use forty_six.Caches.Succeed.{HasCounts, delta_succeeds}
use forty_six.Index.{
  ternary_key, Session, add_missing, add_present, add_entry, add_permutation, add_triple,
}
use forty_six.Index.Keys.{IsPlainTriple, ternary-ne-unary, ternary-ne-ternary}
use forty_six.Index.Step.{hits, hits_le, count-increment}
use forty_six.Index.Spec.{found, contains, add, touched, touched_le, Holds}
use forty_six.Index.Add.{Turns, permutation-Turns}
use forty_six.Index.Invariant.{add_triple-Holds}

-- Every write of an entry is done, in the transaction or in a new one.
abbrev pub TakesWrites : Database → Type 0
TakesWrites b = (k v : Bytes) (t : b.Txn) → (t' : b.Txn) × (set_safe b k v t ≡ done t')

module _ (b : Database) (laws : Reads b) (writes : TakesWrites b) where
  -- No binary count is above `m`.
  abbrev IsBounded : ℕ → Session b → Type 0
  IsBounded m s =
      (q : ℕ) (a c : Bytes) → (n : ℕ) × (n ≤ m) × (count b s.binary s.txn (binary_key q a c) ≡ ok n)

  counts-txn :
      (uc : UnaryCache) (t t' : b.Txn) (a : Bytes)
      → b.get t' (unary_key a) ≡ b.get t (unary_key a)
      → counts b uc t' a ≡ counts b uc t a
  unfolding counts
  counts-txn uc t t' a e = rw e refl

  -- A write of a ternary entry leaves the unary counts.
  written-HasCounts :
      (p : ℕ) (x : Triple Bytes) (v : Bytes) (uc : UnaryCache) (t t' : b.Txn)
      → p < 3
      → set_safe b (ternary_key p x) v t ≡ done t'
      → HasCounts b uc t
      → HasCounts b uc t'
  written-HasCounts p x v uc t t' hp w has a =
      let (index, h) = has a in
      (
        index,
        counts-txn uc t t' a (
              get-set_safe b laws t t' (ternary_key p x) v (unary_key a) w
              ∙ rw (ternary-ne-unary x x p a hp) refl)
            ∙ h,
      )

  Added : Session b → Result (Session b) → Type 0
  Added s r = (s' : Session b) × (r ≡ ok s') × HasCounts b s'.unary s'.txn

  missing_succeeds :
      (p : ℕ) (x : Triple Bytes) (source : Statement) (m : ℕ) (s : Session b)
      → p < 3
      → m + 1 < 2 ^ 32
      → HasCounts b s.unary s.txn
      → IsBounded m s
      → Added s (add_missing b p x source s)
  unfolding Added add_missing
  missing_succeeds p x source m s hp room has bounded =
      let y = permute major p x in
      let k' = binary_key ((p + 1) % 3 + 3) y.predicate y.subject in
      let (n, le, h) = bounded p y.subject y.predicate in
      let (r, e, has₁) = delta_succeeds b p y.subject y.predicate n s.binary s.unary s.txn has h in
      let (n', le', h') = bounded ((p + 1) % 3 + 3) y.predicate y.subject in
      let h'' =
        count-increment b p y.subject y.predicate k' n' s.binary r.0 s.unary r.1 s.txn (omega arith)
          h' e in
      let (r', e', has₂) =
        delta_succeeds b ((p + 1) % 3 + 3) y.predicate y.subject _ r.0 r.1 s.txn has₁ h'' in
      let val = if p == 0 then to_string source else s.val in
      let (t, w) = writes (ternary_key p x) val s.txn in
      (
        record { binary = r'.0; unary = r'.1; txn = t; val = val },
        rw (e, e', w) refl,
        written-HasCounts p x val r'.1 s.txn t hp w has₂,
      )

  present_succeeds :
      (p : ℕ) (x : Triple Bytes) (source : Statement) (old : Bytes) (s : Session b)
      → HasCounts b s.unary s.txn
      → Added s (add_present b p x source old s)
  unfolding Added add_present
  present_succeeds zero x source old s has =
      let val = old ++ to_string source in
      let (t, w) = writes (ternary_key 0 x) val s.txn in
      (
        record s { txn = t; val = val },
        rw w refl,
        written-HasCounts 0 x val s.unary s.txn t (omega arith) w has,
      )
  present_succeeds (suc p) x source old s has = (s, refl, has)

  entry_succeeds :
      (p : ℕ) (x : Triple Bytes) (source : Statement) (there : Bool) (g : Result Bytes) (m : ℕ)
      (s : Session b)
      → found g ≡ ok there
      → p < 3
      → m + 1 < 2 ^ 32
      → HasCounts b s.unary s.txn
      → IsBounded m s
      → Added s (add_entry b p x source g s)
  unfolding add_entry
  entry_succeeds p x source there (err key_not_found) m s f hp room has bounded =
      missing_succeeds p x source m s hp room has bounded
  entry_succeeds p x source there (ok old) m s f hp room has bounded =
      present_succeeds p x source old s has
  entry_succeeds p x source there (err _) m s f hp room has bounded = cc

  -- A round succeeds, and its counts are bounded by two more.
  permutation_succeeds :
      (p : ℕ) (x : Triple Bytes) (source : Statement) (there : Bool) (m : ℕ) (s : Session b)
      → found (b.get s.txn (ternary_key p x)) ≡ ok there
      → p < 3
      → m + 2 < 2 ^ 32
      → HasCounts b s.unary s.txn
      → IsBounded m s
      → (s' : Session b) × (add_permutation b p x source s ≡ ok s')
        × HasCounts b s'.unary s'.txn
        × IsBounded (m + 2) s'
        × Turns b laws p x there s s'
  unfolding Added add_permutation
  permutation_succeeds p x source there m s f hp room has bounded =
      let (s', e, has') =
        entry_succeeds p x source there (b.get s.txn (ternary_key p x)) m s f hp (omega arith) has
          bounded in
      let turns = permutation-Turns b laws p x source there s s' hp f e in
      (
        s',
        e,
        has',
        λ q a c.
            let (n, le, h) = bounded q a c in
            (
              (if there then 0 else hits p x (binary_key q a c)) + n,
              ground (arith, hits_le p x (binary_key q a c)),
              turns.pairs q a c n (omega arith) h,
            ),
        turns,
      )

  -- Over a database that takes every write, a quad's round of the loop of Store.Set succeeds and
  -- leaves the index of the list with its triple added, where the index of the list stands in the
  -- transaction and the caches and every id has its unary counts. The ids of the triple have no tab
  -- in them, and the list has fewer than 2^29 triples.
  pub add_triple_succeeds :
      (x : Triple Bytes) (source : Statement) (ts : List (Triple Bytes)) (s : Session b)
      → IsPlainTriple x
      → length ts < 2 ^ 29
      → Holds b ts s
      → HasCounts b s.unary s.txn
      → (s' : Session b) × (add_triple b x source s ≡ ok s')
        × Holds b (add x ts) s'
        × HasCounts b s'.unary s'.txn
  unfolding add_triple
  add_triple_succeeds x source ts s hx room h has =
      let there = contains x ts in
      let m = 6 * length ts in
      let first : IsBounded m s =
        λ q a c. (touched ts (binary_key q a c), touched_le ts (binary_key q a c), h.pairs q a c) in
      let f : (p : ℕ) → p < 3 → found (b.get s.txn (ternary_key p x)) ≡ ok there =
        λ p hp. h.entries p x hp hx in
      let (s₁, e₁, has₁, b₁, t₁) =
        permutation_succeeds 0 x source there m s (f 0 (omega arith)) (omega arith) (omega arith)
          has first in
      let (s₂, e₂, has₂, b₂, t₂) =
        permutation_succeeds 1 x source there (m + 2) s₁
          (t₁.entries _
            ∙ rw (ternary-ne-ternary x x 0 1 (omega arith) (omega arith) (λ e. omega arith))
                (f 1 (omega arith)))
          (omega arith) (omega arith) has₁ b₁ in
      let (s₃, e₃, has₃, b₃, t₃) =
        permutation_succeeds 2 x source there (m + 2 + 2) s₂
          (t₂.entries _
            ∙ rw (ternary-ne-ternary x x 1 2 (omega arith) (omega arith) (λ e. omega arith)) (
                t₁.entries _
                ∙ rw (ternary-ne-ternary x x 0 2 (omega arith) (omega arith) (λ e. omega arith))
                    (f 2 (omega arith))))
          (omega arith) (omega arith) has₂ b₂ in
      let all : (add_permutation b 0 x source s >>= λ s.
      add_permutation b 1 x source s >>= λ s. add_permutation b 2 x source s)
          ≡ ok s₃ =
        rw (e₁, e₂) e₃ in
      (s₃, all, add_triple-Holds b laws x source ts s s₃ hx room h all, has₃)
