-- ===== src/Caches/Commit/Unary.antt =====
-- Commit of the unary cache writes the counts that the cache stands for, unless a delete fails.
use forty_six.Base.{
  ℕ, ◌≡◌, ◌≢◌, ◌∙◌, refl, ap, true, false, List, [], ◌∷◌, Option, none, some, Bytes, Bool-cases,
  inl, inr, bytes_eq, bytes_eq_iff, arith, if◌then◌else◌, Error, key_not_found, Result, ok, err,
  append-nil,
}
use forty_six.Badger.{
  Database, Reads, Outcome, done, failed, panicked, ◌>>=◌, set_safe, delete_safe,
}
use forty_six.Badger.Safe.{get-set_safe, get-delete_safe}
use forty_six.Dict.{lookup, Distinct}
use forty_six.Util.Keys.{unary_prefix}
use forty_six.Util.Keys.Layout.{assemble_key-join}
use forty_six.Text.{join}
use forty_six.Caches.Words.{put_words}
use forty_six.Caches.Unary.{UnaryCache, unary_key}
use forty_six.Caches.Commit.{
  Rest, commit_loop, after_unary_delete, all_zero, commit_index, commit_unary,
}

-- a unary key is its prefix byte and the id
unary_key-cons : (a : Bytes) → unary_key a ≡ unary_prefix ∷ a
unfolding join
unary_key-cons a =
    assemble_key-join unary_prefix false a [] ∙ ap (λ r. unary_prefix ∷ r) (append-nil a)

unary_key-eq : (a c : Bytes) → bytes_eq (unary_key a) (unary_key c) ≡ bytes_eq a c
unfolding bytes_eq
unary_key-eq a c = rw (unary_key-cons a, unary_key-cons c)

-- what cached counts are written as
abbrev pub written : List ℕ → Result Bytes
written ns = if all_zero ns then err key_not_found else ok (put_words ns)

abbrev pub committed : Option (List ℕ) → Result Bytes → Result Bytes
committed (some ns) r = written ns
committed none r = r

-- No deleteSafe fails.
abbrev pub DeletesSucceed : Database → Type 0
DeletesSucceed b = (t : b.Txn) (k : Bytes) → (u : b.Txn) × (delete_safe b k t ≡ done u)

module _ (b : Database) (laws : Reads b) where
  open b use {Txn, get}

  abbrev Goes : Rest b → Bytes → Result Bytes → Txn → Txn → Type 0
  Goes next key r t t' =
      (u : Txn) × (next (some u) none ≡ done t')
      × ((j : Bytes) → get u j ≡ (if bytes_eq key j then r else get t j))

  set-Goes :
      (next : Rest b) (key val : Bytes) (t t' : Txn) (r : Outcome Txn)
      → set_safe b key val t ≡ r
      → (r >>= λ u. next (some u) none) ≡ done t'
      → Goes next key (ok val) t t'
  set-Goes next key val t t' (done u) e h = (u, h, λ j. get-set_safe b laws t u key val j e)
  set-Goes next key val t t' (failed l x) e h = cc
  set-Goes next key val t t' panicked e h = cc

  module _ (succeed : DeletesSucceed b) where
    commit_index-Goes :
        (next : Rest b) (a : Bytes) (ns : List ℕ) (t t' : Txn)
        → commit_index b next (a, ns) t ≡ done t'
        → Goes next (unary_key a) (written ns) t t'
    unfolding commit_index
    commit_index-Goes next a ns t t' h = elim (Bool-cases (all_zero ns)) [
      | inl e ↦
          let (u, k) = succeed t (unary_key a) in
          rw e (
            u,
            unfold after_unary_delete in rw k at (rw e at h),
            λ j. get-delete_safe b laws t u (unary_key a) j k,
          )
      | inr e ↦ rw e (
          set-Goes next (unary_key a) (put_words ns) t t'
            (set_safe b (unary_key a) (put_words ns) t) refl (rw e at h))
    ]

    loop-committed :
        (uc : UnaryCache) (t t' : Txn) (a : Bytes)
        → Distinct uc
        → commit_loop b (commit_index b) uc (some t) none ≡ done t'
        → get t' (unary_key a) ≡ committed (lookup a uc) (get t (unary_key a))
    unfolding commit_loop lookup
    loop-committed [] t t' a d h = cc
    loop-committed ((c, ns) ∷ uc) t t' a (fresh, d) h =
        let (u, rest, read) = commit_index-Goes (commit_loop b (commit_index b) uc) c ns t t' h in
        ground (
          arith,
          loop-committed uc u t' a d rest,
          read (unary_key a),
          unary_key-eq c a,
          fresh,
          bytes_eq_iff c a,
        )

    -- Where no deleteSafe fails, a Commit of the unary cache that returns no error leaves the six
    -- counts of an id in the cache in its entry, or no entry if all are zero, and leaves the entry of
    -- every other id as it was, whatever the order of the cache's entries, none of whose ids comes
    -- twice.
    pub get-commit_unary :
        (uc : UnaryCache) (t t' : Txn) (a : Bytes)
        → Distinct uc
        → commit_unary b uc t ≡ done t'
        → get t' (unary_key a) ≡ committed (lookup a uc) (get t (unary_key a))
    unfolding commit_unary
    get-commit_unary = loop-committed

-- A failed delete in the unary cache's Commit is lost: where the id of the first entry has only zeros
-- and its deleteSafe fails with an error other than a missing key and gives the transaction back, and
-- the second entry is written, Commit of the two returns no error.
pub commit_unary_swallows :
    (b : Database) (a c : Bytes) (ns ms : List ℕ) (t u t' : b.Txn) (e : Error)
    → all_zero ns ≡ true
    → all_zero ms ≡ false
    → e ≢ key_not_found
    → delete_safe b (unary_key a) t ≡ failed (some u) e
    → set_safe b (unary_key c) (put_words ms) u ≡ done t'
    → commit_unary b ((a, ns) ∷ (c, ms) ∷ []) t ≡ done t'
unfolding commit_unary commit_loop commit_index after_unary_delete
commit_unary_swallows b a c ns ms t u t' e hn hm he hd hs = ground arith
