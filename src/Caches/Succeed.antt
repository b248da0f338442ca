-- ===== src/Caches/Succeed.antt =====
-- An Increment succeeds wherever the counts that it reads are there.
use forty_six.Base.{
  ℕ, ◌≡◌, ◌∙◌, refl, true, Bool-cases, inl, inr, List, Option, none, some, Bytes, bytes_eq, ◌==◌,
  key_not_found, Result, ok, err, ◌>>=◌,
}
use forty_six.Badger.{Database}
use forty_six.Dict.{lookup, insert}
use forty_six.Caches.Words.{decode_index}
use forty_six.Caches.Unary
use forty_six.Caches.Unary.{
  UnaryCache, or_zeros, get_index, cached_index, unary_key, adjust, increment_word, zeros,
}
use forty_six.Caches.Unary.View
use forty_six.Caches.Unary.View.{counts, counts-increment}
use forty_six.Caches.Binary
use forty_six.Caches.Binary.{
  BinaryCache, binary_key, delta, delta_entry, delta_cached, delta_stored, delta_loaded,
}
use forty_six.Caches.Binary.View.{count}

module _ (b : Database) where
  open b use {Txn}

  -- Every id has six counts, in the cache or in the database or none at all.
  abbrev pub HasCounts : UnaryCache → Txn → Type 0
  HasCounts uc t = (a : Bytes) → (index : List ℕ) × (counts b uc t a ≡ ok index)

  indexed :
      (a : Bytes) (uc : UnaryCache) (t : Txn) (index : List ℕ)
      → counts b uc t a ≡ ok index
      → (r : List ℕ × UnaryCache) × (or_zeros uc (get_index b uc a t) ≡ ok r)
  unfolding counts get_index
  indexed a uc t index h = cases (lookup a uc) h
    where
      from_entry :
          (g : Result Bytes)
          → View.stored g ≡ ok index
          → (r : List ℕ × UnaryCache) × (or_zeros uc
                (g >>= λ val. decode_index val >>= λ index. ok (index, insert a index uc))
              ≡ ok r)
      from_entry (ok val) k = ((index, insert a index uc), rw k refl)
      from_entry (err key_not_found) k = ((zeros, uc), refl)
      from_entry (err _) k = cc

      cases :
          (o : Option (List ℕ))
          → View.shadow o (View.stored (b.get t (unary_key a))) ≡ ok index
          → (r : List ℕ × UnaryCache) × (or_zeros uc (cached_index b o uc a t) ≡ ok r)
      cases (some i) k = ((i, uc), refl)
      cases none k = from_entry (b.get t (unary_key a)) k

  increment_ok :
      (p : ℕ) (a : Bytes) (uc : UnaryCache) (t : Txn) (r : List ℕ × UnaryCache)
      → or_zeros uc (get_index b uc a t) ≡ ok r
      → Unary.increment b p a uc t ≡ ok (insert a (adjust p increment_word r.0) r.1)
  unfolding Unary.increment
  increment_ok p a uc t r e = rw e refl

  mapped :
      (f : List ℕ → List ℕ) (r : Result (List ℕ)) (index : List ℕ)
      → r ≡ ok index
      → View.map_ok f r ≡ ok (f index)
  mapped f r index e = rw e refl

  -- An Increment of the unary cache succeeds, and leaves every id with six counts.
  pub increment_succeeds :
      (p : ℕ) (a : Bytes) (uc : UnaryCache) (t : Txn)
      → HasCounts uc t
      → (uc' : UnaryCache) × (Unary.increment b p a uc t ≡ ok uc') × HasCounts uc' t
  increment_succeeds p a uc t has =
      let (index, h) = has a in
      let (r, e) = indexed a uc t index h in
      let uc' = insert a (adjust p increment_word r.0) r.1 in
      let done = increment_ok p a uc t r e in
      (
        uc',
        done,
        λ a'. elim (Bool-cases (bytes_eq a a')) [
          | inl q ↦ (
            adjust p increment_word index,
            counts-increment b p a a' uc uc' t done
                ∙ rw q (mapped (adjust p increment_word) _ index h),
          )
          | inr q ↦
              let (index', h') = has a' in
              (index', counts-increment b p a a' uc uc' t done ∙ rw q h')
        ],
      )

  -- what an increment of a pair needs and leaves
  abbrev IsDone : Result (BinaryCache × UnaryCache) → Txn → Type 0
  IsDone r t = (x : BinaryCache × UnaryCache) × (r ≡ ok x) × HasCounts x.1 t

  with_unary :
      (p : ℕ) (a : Bytes) (bc : BinaryCache) (uc : UnaryCache) (t : Txn)
      → HasCounts uc t
      → IsDone (do uc' ← Unary.increment b p a uc t; ok (bc, uc')) t
  with_unary p a bc uc t has =
      let (uc', e, has') = increment_succeeds p a uc t has in ((bc, uc'), rw e refl, has')

  -- An increment of a pair of ids whose count is there succeeds.
  pub delta_succeeds :
      (p : ℕ) (a c : Bytes) (n : ℕ) (bc : BinaryCache) (uc : UnaryCache) (t : Txn)
      → HasCounts uc t
      → count b bc t (binary_key p a c) ≡ ok n
      → IsDone (delta b p a c true bc uc t) t
  unfolding count delta delta_cached delta_stored delta_loaded
  delta_succeeds p a c n bc uc t has h = cases (lookup (binary_key p a c) bc) h
    where
      key : Bytes
      key = binary_key p a c

      from_entry :
          (g : Result Bytes)
          → Binary.View.stored g ≡ ok n
          → IsDone (delta_stored b p a key true g bc uc t) t
      from_entry (ok val) k = ((insert key (increment_word n) bc, uc), rw k refl, has)
      from_entry (err key_not_found) k = with_unary p a (insert key 1 bc) uc t has
      from_entry (err _) k = cc

      cases :
          (o : Option ℕ)
          → Binary.View.shadow o (Binary.View.stored (b.get t key)) ≡ ok n
          → IsDone (delta_entry b p a key true o bc uc t) t
      cases (some m) k = elim (Bool-cases (increment_word m == 1)) [
        | inl q ↦ rw q (with_unary p a (insert key (increment_word m) bc) uc t has)
        | inr q ↦ ((insert key (increment_word m) bc, uc), rw q refl, has)
      ]
      cases none k = from_entry (b.get t key) k
