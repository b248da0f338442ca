-- ===== src/Index/Drop.antt =====
-- One permutation of a triple that goes: its entry is deleted, and two binary counts fall by one.
use forty_six.Base.{
  ok-injective, ℕ, zero, suc, ◌+◌, ◌-◌, ◌%◌, ◌<◌, ◌≡◌, ◌∙◌, refl, ap, subst, false, Option, none,
  some, Bytes, bytes_eq, bytes_eq_iff, if◌then◌else◌, arith, key_not_found, ok, err, >>=-eq-ok,
}
use forty_six.Util.Triples.{Triple, permute, at}
use forty_six.Badger.{Database, Reads, Outcome, done, failed, panicked, delete_safe}
use forty_six.Badger.Safe.{get-delete_safe, delete_safe-ne-missing}
use forty_six.Caches.Unary.{UnaryCache}
use forty_six.Caches.Binary
use forty_six.Caches.Binary.{BinaryCache, binary_key}
use forty_six.Caches.Binary.View.{count, count-delta}
use forty_six.Index.{ternary_key, Session, after_drop, drop_permutation, drop_triple}
use forty_six.Index.Keys.{ternary-ne-binary}
use forty_six.Index.Step.{hit, hits, count-txn}

-- how often a binary key is among the two that deleteQuads counts down for one permutation
unfoldable pub drops : ℕ → Triple Bytes → Bytes → ℕ
drops p x k =
    hit (binary_key p (at x p) (at x ((p + 1) % 3))) k
    + hit (binary_key (p + 3) (at x p) (at x ((p + 2) % 3))) k

-- Over the three permutations, the pairs that are counted down are those that Set counts up.
pub drops-hits :
    (x : Triple Bytes) (k : Bytes)
    → drops 0 x k + (drops 1 x k + drops 2 x k) ≡ hits 0 x k + hits 1 x k + hits 2 x k
unfolding drops hits permute
drops-hits x k = omega arith

module _ (b : Database) where
  open b use {Txn}

  count-decrement :
      (p : ℕ) (a c k : Bytes) (n : ℕ) (bc bc' : BinaryCache) (uc uc' : UnaryCache) (t : Txn)
      → count b bc t k ≡ ok n
      → Binary.decrement b p a c bc uc t ≡ ok (bc', uc')
      → count b bc' t k ≡ ok (n - hit (binary_key p a c) k)
  count-decrement p a c k n bc bc' uc uc' t hn h =
      ground
        (arith, count-delta b p a c k false bc bc' uc uc' t h, bytes_eq_iff (binary_key p a c) k)

  after_drop-done :
      (p : ℕ) (s s' : Session b) (r : Outcome Txn)
      → ((left : Option Txn) → r ≡ failed left key_not_found → ⊥)
      → after_drop b p s r ≡ ok s'
      → (t : Txn) × (r ≡ done t) × (record s { txn = t } ≡ s')
  unfolding after_drop
  after_drop-done p s s' (done t) f h = (t, refl, ok-injective _ s' h)
  after_drop-done zero s s' (failed l e) f h = cc
  after_drop-done (suc p) s s' (failed l key_not_found) f h = absurd (f l refl)
  after_drop-done (suc p) s s' (failed none _) f h = cc
  after_drop-done (suc p) s s' (failed (some t) _) f h = cc
  after_drop-done zero s s' panicked f h = cc
  after_drop-done (suc p) s s' panicked f h = cc

module _ (b : Database) (laws : Reads b) where
  -- what a round of deleteQuads does to the entries and to the binary counts
  pub record Shrinks (p : ℕ) (x : Triple Bytes) (s s' : Session b) : Type 0 where
    pub entries :
        (j : Bytes)
        → b.get s'.txn j
          ≡ (if bytes_eq (ternary_key p x) j then err key_not_found else b.get s.txn j)
    pub pairs :
        (q : ℕ) (a c : Bytes) (n : ℕ)
        → count b s.binary s.txn (binary_key q a c) ≡ ok n
        → count b s'.binary s'.txn (binary_key q a c) ≡ ok (n - drops p x (binary_key q a c))

  deleted-Shrinks :
      (p : ℕ) (x : Triple Bytes) (s : Session b) (r r' : BinaryCache × UnaryCache) (t : b.Txn)
      → p < 3
      → Binary.decrement b p (at x p) (at x ((p + 1) % 3)) s.binary s.unary s.txn ≡ ok r
      → Binary.decrement b (p + 3) (at x p) (at x ((p + 2) % 3)) r.0 r.1 s.txn ≡ ok r'
      → delete_safe b (ternary_key p x) s.txn ≡ done t
      → Shrinks p x s (record s { binary = r'.0; unary = r'.1; txn = t })
  deleted-Shrinks p x s r r' t hp first second gone =
      let read : (j : Bytes)
          → b.get t j
            ≡ (if bytes_eq (ternary_key p x) j then err key_not_found else b.get s.txn j) =
        λ j. get-delete_safe b laws s.txn t (ternary_key p x) j gone in
      record {
        entries = read;
        pairs = λ q a c n hn.
            let k = binary_key q a c in
            let m = n - hit (binary_key p (at x p) (at x ((p + 1) % 3))) k in
            let once =
              count-decrement b p (at x p) (at x ((p + 1) % 3)) k n s.binary r.0 s.unary r.1 s.txn
                hn first in
            let twice =
              count-decrement b (p + 3) (at x p) (at x ((p + 2) % 3)) k m r.0 r'.0 r.1 r'.1 s.txn
                once second in
            unfold drops in
            (count-txn b r'.0 s.txn t k (read k ∙ rw (ternary-ne-binary x x p q a c hp))
              ∙ twice
              ∙ ap ok (omega arith));
      }

  drop_permutation-Shrinks :
      (p : ℕ) (x : Triple Bytes) (s s' : Session b)
      → p < 3
      → drop_permutation b p x s ≡ ok s'
      → Shrinks p x s s'
  unfolding drop_permutation
  drop_permutation-Shrinks p x s s' hp h =
      let (r, e, h₁) =
        >>=-eq-ok (Binary.decrement b p (at x p) (at x ((p + 1) % 3)) s.binary s.unary s.txn) _ h in
      let (r', e', h₂) =
        >>=-eq-ok (Binary.decrement b (p + 3) (at x p) (at x ((p + 2) % 3)) r.0 r.1 s.txn) _ h₁ in
      let (t, e'', same) =
        after_drop-done b p (record s { binary = r'.0; unary = r'.1 }) s'
          (delete_safe b (ternary_key p x) s.txn)
          (λ left. delete_safe-ne-missing b laws s.txn (ternary_key p x) left) h₂ in
      subst (Shrinks p x s) same (deleted-Shrinks p x s r r' t hp e e' e'')

  -- The three rounds.
  pub drop_triple-Shrinks :
      (x : Triple Bytes) (s s' : Session b)
      → drop_triple b x s ≡ ok s'
      → (s₁ s₂ : Session b) × Shrinks 0 x s s₁ × Shrinks 1 x s₁ s₂ × Shrinks 2 x s₂ s'
  unfolding drop_triple
  drop_triple-Shrinks x s s' h =
      let (s₁, e₁, k₁) = >>=-eq-ok (drop_permutation b 0 x s) _ h in
      let (s₂, e₂, k₂) = >>=-eq-ok (drop_permutation b 1 x s₁) _ k₁ in
      (
        s₁,
        s₂,
        drop_permutation-Shrinks 0 x s s₁ (omega arith) e₁,
        drop_permutation-Shrinks 1 x s₁ s₂ (omega arith) e₂,
        drop_permutation-Shrinks 2 x s₂ s' (omega arith) k₂,
      )
