-- ===== src/Index/Step.antt =====
-- One permutation of a new triple: its entry is written, and two binary counts grow by one.
use forty_six.Base.{
  none, some, ok-injective, ℕ, ◌+◌, ◌%◌, ◌^◌, ◌<◌, ◌≡◌, ◌∙◌, refl, ap, subst, true, Bytes, bytes_eq,
  bytes_eq_iff, ◌==◌, if◌then◌else◌, arith, ok, >>=-eq-ok,
}
use forty_six.Util.Triples.{Triple, permute, major}
use forty_six.Statement.{Statement, to_string}
use forty_six.Badger.{Database, Reads, Outcome, done, failed, panicked, set_safe}
use forty_six.Badger.Safe.{get-set_safe}
use forty_six.Caches.Unary.{UnaryCache}
use forty_six.Caches.Binary
use forty_six.Caches.Binary.{BinaryCache, binary_key}
use forty_six.Caches.Binary.View.{count, count-delta}
use forty_six.Index.{ternary_key, result, Session, add_missing}
use forty_six.Index.Keys.{ternary-ne-binary}

-- one where the keys are equal
abbrev pub hit : Bytes → Bytes → ℕ
hit k k' = if bytes_eq k k' then 1 else 0

-- how often a binary key is among the two that one permutation of a triple counts
unfoldable pub hits : ℕ → Triple Bytes → Bytes → ℕ
hits p terms k =
    let x = permute major p terms in
    hit (binary_key ((p + 1) % 3 + 3) x.predicate x.subject) k
    + hit (binary_key p x.subject x.predicate) k

pub hits_le : (p : ℕ) (x : Triple Bytes) (k : Bytes) → hits p x k < 3
unfolding hits
hits_le p x k = ground arith

pub result-done {ℓ} : {T : Type ℓ} (r : Outcome T) (t : T) → result r ≡ ok t → r ≡ done t
result-done (done u) t h = cc
result-done (failed none e) t h = cc
result-done (failed (some u) e) t h = cc
result-done panicked t h = cc

module _ (b : Database) where
  open b use {Txn}

  -- The count at a key depends on nothing else of the transaction than its entry.
  pub count-txn :
      (bc : BinaryCache) (t t' : Txn) (k : Bytes)
      → b.get t' k ≡ b.get t k
      → count b bc t' k ≡ count b bc t k
  unfolding count
  count-txn bc t t' k e = rw e

  pub count-increment :
      (p : ℕ) (a c k : Bytes) (n : ℕ) (bc bc' : BinaryCache) (uc uc' : UnaryCache) (t : Txn)
      → n + 1 < 2 ^ 32
      → count b bc t k ≡ ok n
      → Binary.increment b p a c bc uc t ≡ ok (bc', uc')
      → count b bc' t k ≡ ok (hit (binary_key p a c) k + n)
  count-increment p a c k n bc bc' uc uc' t room hn h =
      ground
        (arith, count-delta b p a c k true bc bc' uc uc' t h, bytes_eq_iff (binary_key p a c) k)

  -- The calls of a round for a new key.
  abbrev Steps : ℕ → Triple Bytes → Statement → Session b → Session b → Type 0
  Steps p terms source s s' =
      let x = permute major p terms in
      (r : BinaryCache × UnaryCache) × (Binary.increment b p x.subject x.predicate s.binary s.unary
          s.txn
        ≡ ok r)
      × (Binary.increment b ((p + 1) % 3 + 3) x.predicate x.subject r.0 r.1 s.txn
          ≡ ok (s'.binary, s'.unary))
      × (s'.val ≡ (if p == 0 then to_string source else s.val))
      × (set_safe b (ternary_key p terms) s'.val s.txn ≡ done s'.txn)

  add_missing-Steps :
      (p : ℕ) (terms : Triple Bytes) (source : Statement) (s s' : Session b)
      → add_missing b p terms source s ≡ ok s'
      → Steps p terms source s s'
  unfolding add_missing
  add_missing-Steps p terms source s s' h =
      let x = permute major p terms in
      let (r, e, h₁) =
        >>=-eq-ok (Binary.increment b p x.subject x.predicate s.binary s.unary s.txn) _ h in
      let (r', e', h₂) =
        >>=-eq-ok (Binary.increment b ((p + 1) % 3 + 3) x.predicate x.subject r.0 r.1 s.txn) _ h₁ in
      let (t, e'', h₃) =
        >>=-eq-ok
          (result
            (set_safe b (ternary_key p terms) (if p == 0 then to_string source else s.val) s.txn))
          _ h₂ in
      subst (Steps p terms source s) (ok-injective _ s' h₃) (r, e, e', refl, result-done _ t e'')

module _ (b : Database) (laws : Reads b) where
  -- what a round for a new key does to the entries and to the binary counts
  pub record Grows (p : ℕ) (x : Triple Bytes) (source : Statement) (s s' : Session b) : Type 0 where
    pub val : s'.val ≡ (if p == 0 then to_string source else s.val)
    pub entries :
        (j : Bytes)
        → b.get s'.txn j ≡ (if bytes_eq (ternary_key p x) j then ok s'.val else b.get s.txn j)
    pub pairs :
        (q : ℕ) (a c : Bytes) (n : ℕ)
        → n + 2 < 2 ^ 32
        → count b s.binary s.txn (binary_key q a c) ≡ ok n
        → count b s'.binary s'.txn (binary_key q a c) ≡ ok (hits p x (binary_key q a c) + n)

  pub add_missing-Grows :
      (p : ℕ) (x : Triple Bytes) (source : Statement) (s s' : Session b)
      → p < 3
      → add_missing b p x source s ≡ ok s'
      → Grows p x source s s'
  add_missing-Grows p x source s s' hp h =
      let (r, first, second, v, write) = add_missing-Steps b p x source s s' h in
      let read : (j : Bytes)
          → b.get s'.txn j ≡ (if bytes_eq (ternary_key p x) j then ok s'.val else b.get s.txn j) =
        λ j. get-set_safe b laws s.txn s'.txn (ternary_key p x) s'.val j write in
      record {
        val = v;
        entries = read;
        pairs = λ q a c n room hn.
            let y = permute major p x in
            let k = binary_key q a c in
            let m = hit (binary_key p y.subject y.predicate) k in
            let once =
              count-increment b p y.subject y.predicate k n s.binary r.0 s.unary r.1 s.txn
                (omega arith) hn first in
            let twice =
              count-increment b ((p + 1) % 3 + 3) y.predicate y.subject k (m + n) r.0 s'.binary r.1
                s'.unary s.txn (ground arith) once second in
            unfold hits in
            (count-txn b s'.binary s.txn s'.txn k (read k ∙ rw (ternary-ne-binary x x p q a c hp))
              ∙ twice
              ∙ ap ok (omega arith));
      }
