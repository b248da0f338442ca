-- ===== src/Caches/Commit/Binary.antt =====
-- Commit of the binary cache writes the counts that the cache stands for.
use forty_six.Base.{
  ℕ, ◌<◌, ◌^◌, ◌≡◌, refl, [], ◌∷◌, Option, none, some, Bytes, ◌==◌, Bool-cases, Option-cases, inl,
  inr, bytes_eq, bytes_eq_iff, arith, if◌then◌else◌, key_not_found, Result, ok, err,
}
use forty_six.Badger.{
  Database, Reads, Outcome, done, failed, panicked, ◌>>=◌, set_safe, delete_safe,
}
use forty_six.Badger.Safe.{get-set_safe, get-delete_safe, delete_safe-ne-missing}
use forty_six.Dict.{lookup, Distinct}
use forty_six.Util.Ids.{put_uint32}
use forty_six.Caches.Binary.{BinaryCache}
use forty_six.Caches.Words.{decode_count-put_uint32}
use forty_six.Caches.Binary.View.{count}
use forty_six.Caches.Commit.{Rest, commit_loop, after_binary_delete, commit_count, commit_binary}

-- what a cached count of `n` is written as
abbrev pub written : ℕ → Result Bytes
written n = if n == 0 then err key_not_found else ok (put_uint32 n)

abbrev pub committed : Option ℕ → Result Bytes → Result Bytes
committed (some n) r = written n
committed none r = r

module _ (b : Database) (laws : Reads b) where
  open b use {Txn, get}

  -- The round of one entry writes that entry and goes on without an error.
  abbrev Goes : Rest b → Bytes → Result Bytes → Txn → Txn → Type 0
  Goes next key r t t' =
      (u : Txn) × (next (some u) none ≡ done t')
      × ((j : Bytes) → get u j ≡ (if bytes_eq key j then r else get t j))

  set-Goes :
      (next : Rest b) (key val : Bytes) (t t' : Txn) (r : Outcome Txn)
      → set_safe b key val t ≡ r
      → (r >>= λ u. next (some u) none) ≡ done t'
      → Goes next key (ok val) t t'
  set-Goes next key val t t' (done u) e h = (u, h, λ j. get-set_safe b laws t u key val j e)
  set-Goes next key val t t' (failed l x) e h = cc
  set-Goes next key val t t' panicked e h = cc

  delete-Goes :
      (next : Rest b) (key : Bytes) (t t' : Txn) (r : Outcome Txn)
      → delete_safe b key t ≡ r
      → after_binary_delete b next r ≡ done t'
      → Goes next key (err key_not_found) t t'
  unfolding after_binary_delete
  delete-Goes next key t t' (done u) e h = (u, h, λ j. get-delete_safe b laws t u key j e)
  delete-Goes next key t t' (failed l key_not_found) e h =
      absurd (delete_safe-ne-missing b laws t key l e)
  delete-Goes next key t t' (failed l _) e h = cc
  delete-Goes next key t t' panicked e h = cc

  commit_count-Goes :
      (next : Rest b) (key : Bytes) (n : ℕ) (t t' : Txn)
      → commit_count b next (key, n) t ≡ done t'
      → Goes next key (written n) t t'
  unfolding commit_count
  commit_count-Goes next key n t t' h = elim (Bool-cases (n == 0)) [
    | inl e ↦ rw e (delete-Goes next key t t' (delete_safe b key t) refl (rw e at h))
    | inr e ↦
        rw e
          (set-Goes next key (put_uint32 n) t t' (set_safe b key (put_uint32 n) t) refl (rw e at h))
  ]

  loop-committed :
      (bc : BinaryCache) (t t' : Txn) (j : Bytes)
      → Distinct bc
      → commit_loop b (commit_count b) bc (some t) none ≡ done t'
      → get t' j ≡ committed (lookup j bc) (get t j)
  unfolding commit_loop lookup
  loop-committed [] t t' j d h = cc
  loop-committed ((key, n) ∷ bc) t t' j (fresh, d) h =
      let (u, rest, read) = commit_count-Goes (commit_loop b (commit_count b) bc) key n t t' h in
      ground (arith, loop-committed bc u t' j d rest, read j, fresh, bytes_eq_iff key j)

  -- After a Commit of the binary cache that returns no error, a key with a count above zero in the
  -- cache holds that count, a key with a count of zero is not found, and every other key is as
  -- before, whatever the order of the cache's entries, none of whose keys comes twice.
  pub get-commit_binary :
      (bc : BinaryCache) (t t' : Txn) (j : Bytes)
      → Distinct bc
      → commit_binary b bc t ≡ done t'
      → get t' j ≡ committed (lookup j bc) (get t j)
  unfolding commit_binary
  get-commit_binary = loop-committed

  -- The counts that the cache stands for over the old transaction are those that stand in the new one
  -- after a Commit of the binary cache that returns no error. All counts of the cache have 32 bits, and
  -- none of its keys comes twice.
  pub count-commit_binary :
      (bc : BinaryCache) (t t' : Txn) (j : Bytes)
      → Distinct bc
      → ((n : ℕ) → lookup j bc ≡ some n → n < 2 ^ 32)
      → commit_binary b bc t ≡ done t'
      → count b [] t' j ≡ count b bc t j
  count-commit_binary bc t t' j d words h =
      let read = get-commit_binary bc t t' j d h in
      elim (Option-cases (lookup j bc)) [
        | inl e ↦ unfold count lookup in ground (arith, e, read)
        | inr (n, e) ↦
            unfold count lookup in ground (arith, e, read, decode_count-put_uint32 n (words n e))
      ]
