-- ===== src/Caches/Commit.antt =====
-- unaryCache.Commit and binaryCache.Commit of caches.go.
pub mod Unary
pub mod Binary
use forty_six.Base.{
  ℕ, List, [], ◌∷◌, Option, none, some, Bool, true, false, Bytes, ltb, ◌==◌, if◌then◌else◌, Error,
  key_not_found,
}
use forty_six.Badger.{Database, Outcome, done, failed, panicked, ◌>>=◌, set_safe, delete_safe}
use forty_six.Util.Ids.{put_uint32}
use forty_six.Caches.Words.{put_words}
use forty_six.Caches.Unary.{UnaryCache, unary_key}
use forty_six.Caches.Binary.{BinaryCache}

-- the loop that looks for a count above zero
unfoldable pub all_zero : List ℕ → Bool
all_zero [] = true
all_zero (n ∷ ns) = if ltb 0 n then false else all_zero ns

module _ (b : Database) where
  -- The rest of a loop takes the variables `txn` and `err`, whose value at the end is returned.
  abbrev pub Rest : Type 0
  Rest = Option b.Txn → Option Error → Outcome b.Txn

  -- `for … range`: each round's transaction is the next one's. The next round panics on a nil
  -- transaction, and so does the caller that is given one with no error.
  unfoldable pub commit_loop {ℓ} : {E : Type ℓ} → (Rest → E → b.Txn → Outcome b.Txn) → List E → Rest
  commit_loop entry [] t (some e) = failed t e
  commit_loop entry [] (some t) none = done t
  commit_loop entry [] none none = panicked
  commit_loop entry (x ∷ xs) (some t) e = entry (commit_loop entry xs) x t
  commit_loop entry (x ∷ xs) none e = panicked

  -- What Commit of the binary cache does behind a deleteSafe.
  unfoldable pub after_binary_delete : Rest → Outcome b.Txn → Outcome b.Txn
  after_binary_delete next (done t) = next (some t) none
  after_binary_delete next (failed t key_not_found) = next t (some key_not_found)
  after_binary_delete next (failed t e) = failed t e
  after_binary_delete next panicked = panicked

  unfoldable pub commit_count : Rest → Bytes × ℕ → b.Txn → Outcome b.Txn
  commit_count next (key, count) t =
      if count == 0
      then after_binary_delete next (delete_safe b key t)
      else (do t' ← set_safe b key (put_uint32 count) t; next (some t') none)

  unfoldable pub commit_binary : BinaryCache → b.Txn → Outcome b.Txn
  commit_binary bc t = commit_loop commit_count bc (some t) none

  -- What Commit of the unary cache does behind a deleteSafe: at a missing key it returns, and any
  -- other error is overwritten in the next round.
  unfoldable pub after_unary_delete : Rest → Outcome b.Txn → Outcome b.Txn
  after_unary_delete next (done t) = next (some t) none
  after_unary_delete next (failed (some t) key_not_found) = done t
  after_unary_delete next (failed none key_not_found) = panicked
  after_unary_delete next (failed t e) = next t (some e)
  after_unary_delete next panicked = panicked

  unfoldable pub commit_index : Rest → Bytes × List ℕ → b.Txn → Outcome b.Txn
  commit_index next (term, index) t =
      if all_zero index
      then after_unary_delete next (delete_safe b (unary_key term) t)
      else (do t' ← set_safe b (unary_key term) (put_words index) t; next (some t') none)

  unfoldable pub commit_unary : UnaryCache → b.Txn → Outcome b.Txn
  commit_unary uc t = commit_loop commit_index uc (some t) none
