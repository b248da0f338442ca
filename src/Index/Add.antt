-- ===== src/Index/Add.antt =====
-- Adding a triple adds it to what the index holds.
use forty_six.Base.{
  ok-injective, ℕ, zero, suc, ◌+◌, ◌^◌, ◌<◌, ◌≡◌, ◌∙◌, refl, ap, subst, Bool, true, false, ◌++◌,
  Bytes, bytes_eq, bytes_eq_iff, if◌then◌else◌, arith, key_not_found, Result, ok, err, >>=-eq-ok,
}
use forty_six.Util.Triples.{Triple}
use forty_six.Statement.{Statement, to_string}
use forty_six.Badger.{Database, Reads, set_safe, done}
use forty_six.Badger.Safe.{get-set_safe}
use forty_six.Caches.Binary.{binary_key}
use forty_six.Caches.Binary.View.{count}
use forty_six.Index.{
  ternary_key, result, Session, add_present, add_entry, add_permutation, add_triple,
}
use forty_six.Index.Keys.{ternary-ne-binary, ternary-ne-ternary}
use forty_six.Index.Step.{hits, count-txn, Grows, add_missing-Grows, result-done}
use forty_six.Index.Spec.{found}

module _ (b : Database) (laws : Reads b) where
  -- What a round does for a key that is there or not.
  pub record Turns (p : ℕ) (x : Triple Bytes) (there : Bool) (s s' : Session b) : Type 0 where
    pub entries :
        (j : Bytes)
        → found (b.get s'.txn j)
          ≡ (if bytes_eq (ternary_key p x) j then ok true else found (b.get s.txn j))
    pub pairs :
        (q : ℕ) (a c : Bytes) (n : ℕ)
        → n + 2 < 2 ^ 32
        → count b s.binary s.txn (binary_key q a c) ≡ ok n
        → count b s'.binary s'.txn (binary_key q a c)
          ≡ ok ((if there then 0 else hits p x (binary_key q a c)) + n)

  missing-Turns :
      (p : ℕ) (x : Triple Bytes) (source : Statement) (s s' : Session b)
      → Grows b laws p x source s s'
      → Turns p x false s s'
  missing-Turns p x source s s' g = record {
    entries = λ j. ground (arith, g.entries j);
    pairs = g.pairs;
  }

  -- An entry that is written over is there before and after.
  rewritten-Turns :
      (x : Triple Bytes) (old val : Bytes) (s : Session b) (t : b.Txn)
      → b.get s.txn (ternary_key 0 x) ≡ ok old
      → set_safe b (ternary_key 0 x) val s.txn ≡ done t
      → Turns 0 x true s (record s { txn = t; val = val })
  rewritten-Turns x old val s t e w =
      let read : (j : Bytes)
          → b.get t j ≡ (if bytes_eq (ternary_key 0 x) j then ok val else b.get s.txn j) =
        λ j. get-set_safe b laws s.txn t (ternary_key 0 x) val j w in
      record {
        entries = λ j. ground (arith, read j, e);
        pairs = λ q a c n room hn.
            count-txn b s.binary s.txn t (binary_key q a c)
              (read (binary_key q a c) ∙ rw (ternary-ne-binary x x 0 q a c (omega arith)))
            ∙ hn
            ∙ ap ok (omega arith);
      }

  kept-Turns :
      (p : ℕ) (x : Triple Bytes) (old : Bytes) (s : Session b)
      → b.get s.txn (ternary_key p x) ≡ ok old
      → Turns p x true s s
  kept-Turns p x old s e = record {
    entries = λ j. ground (arith, e, bytes_eq_iff (ternary_key p x) j);
    pairs = λ q a c n room hn. ground arith;
  }

  present-Turns :
      (p : ℕ) (x : Triple Bytes) (source : Statement) (old : Bytes) (s s' : Session b)
      → b.get s.txn (ternary_key p x) ≡ ok old
      → add_present b p x source old s ≡ ok s'
      → Turns p x true s s'
  unfolding add_present
  present-Turns zero x source old s s' e h =
      let val = old ++ to_string source in
      let (t, w, k) = >>=-eq-ok (result (set_safe b (ternary_key 0 x) val s.txn)) _ h in
      subst (Turns 0 x true s) (ok-injective _ s' k)
        (rewritten-Turns x old val s t e (result-done _ t w))
  present-Turns (suc p) x source old s s' e h =
      subst (Turns (suc p) x true s) (ok-injective s s' h) (kept-Turns (suc p) x old s e)

  entry-Turns :
      (p : ℕ) (x : Triple Bytes) (source : Statement) (there : Bool) (r : Result Bytes)
      (s s' : Session b)
      → p < 3
      → b.get s.txn (ternary_key p x) ≡ r
      → found r ≡ ok there
      → add_entry b p x source r s ≡ ok s'
      → Turns p x there s s'
  unfolding add_entry
  entry-Turns p x source there (err key_not_found) s s' hp e f h =
      subst (λ f. Turns p x f s s') (ok-injective false there f)
        (missing-Turns p x source s s' (add_missing-Grows b laws p x source s s' hp h))
  entry-Turns p x source there (ok old) s s' hp e f h =
      subst (λ f. Turns p x f s s') (ok-injective true there f)
        (present-Turns p x source old s s' e h)
  entry-Turns p x source there (err _) s s' hp e f h = cc

  pub permutation-Turns :
      (p : ℕ) (x : Triple Bytes) (source : Statement) (there : Bool) (s s' : Session b)
      → p < 3
      → found (b.get s.txn (ternary_key p x)) ≡ ok there
      → add_permutation b p x source s ≡ ok s'
      → Turns p x there s s'
  unfolding add_permutation
  permutation-Turns p x source there s s' hp f h =
      entry-Turns p x source there (b.get s.txn (ternary_key p x)) s s' hp refl f h

  -- The three rounds.
  unfoldable pub Rounds : Triple Bytes → Bool → Session b → Session b → Type 0
  Rounds x there s s' =
      (s₁ s₂ : Session b) × Turns 0 x there s s₁ × Turns 1 x there s₁ s₂ × Turns 2 x there s₂ s'

  pub add_triple-Rounds :
      (x : Triple Bytes) (source : Statement) (there : Bool) (s s' : Session b)
      → ((p : ℕ) → p < 3 → found (b.get s.txn (ternary_key p x)) ≡ ok there)
      → add_triple b x source s ≡ ok s'
      → Rounds x there s s'
  unfolding add_triple Rounds
  add_triple-Rounds x source there s s' f h =
      let (s₁, e₁, k₁) = >>=-eq-ok (add_permutation b 0 x source s) _ h in
      let (s₂, e₂, k₂) = >>=-eq-ok (add_permutation b 1 x source s₁) _ k₁ in
      let t₁ = permutation-Turns 0 x source there s s₁ (omega arith) (f 0 (omega arith)) e₁ in
      let t₂ =
        permutation-Turns 1 x source there s₁ s₂ (omega arith)
          (t₁.entries _
            ∙ rw (ternary-ne-ternary x x 0 1 (omega arith) (omega arith) (λ e. omega arith))
                (f 1 (omega arith)))
          e₂ in
      let t₃ =
        permutation-Turns 2 x source there s₂ s' (omega arith)
          (t₂.entries _
            ∙ rw (ternary-ne-ternary x x 1 2 (omega arith) (omega arith) (λ e. omega arith)) (
                t₁.entries _
                ∙ rw (ternary-ne-ternary x x 0 2 (omega arith) (omega arith) (λ e. omega arith))
                    (f 2 (omega arith))))
          k₂ in
      (s₁, s₂, t₁, t₂, t₃)
