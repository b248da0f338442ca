-- ===== src/Tests/Caches.antt =====
-- The theorems on transactions and on the caches at concrete inputs.
use forty_six.Base.{
  ℕ, zero, suc, ◌≡◌, ◌<◌, ◌^◌, refl, true, List, [], ◌∷◌, some, Bytes, codes, arith, key_not_found,
  fault, Result, ok, err, bytes_eq, if◌then◌else◌, bytes_eq_self,
}
use forty_six.Badger.{Database, done, set_safe, delete_safe}
use forty_six.Badger.Safe.{get-set_safe}
use forty_six.Dict.{lookup, insert}
use forty_six.Util.Ids.{put_uint32}
use forty_six.Caches.Words.{put_words}
use forty_six.Caches.Unary
use forty_six.Caches.Unary.{UnaryCache, adjust, increment_word, decrement_word, unary_key}
use forty_six.Caches.Unary.View.{map_ok}
use forty_six.Caches.Binary.{BinaryCache, binary_key, delta}
use forty_six.Caches.Binary.View.{count, adjust_word, count-delta, crossing, delta-crossing}
use forty_six.Caches.Commit.{
  commit_binary, commit_unary, commit_loop, commit_count, commit_index, all_zero,
}
use forty_six.Caches.Commit
use forty_six.Caches.Commit.Binary.{get-commit_binary, count-commit_binary}
use forty_six.Caches.Commit.Unary.{DeletesSucceed, get-commit_unary, commit_unary_swallows}
use forty_six.Tests.Disk.{disk, disk-Reads, blank, Table}

abbrev with_entry : Bytes → Result Bytes → Table → Table
with_entry k r m = λ j. if bytes_eq k j then r else m j

-- A full transaction: the write goes to a new one, which has room for one more.
get-set_safe_example :
    with_entry (codes "k") (ok (codes "v")) blank (codes "k")
    ≡ (if bytes_eq (codes "k") (codes "k") then ok (codes "v") else blank (codes "k"))
get-set_safe_example =
    get-set_safe disk disk-Reads (0, blank) (1, with_entry (codes "k") (ok (codes "v")) blank)
      (codes "k") (codes "v") (codes "k") (unfold set_safe in refl)

abbrev one_each : List ℕ
one_each = 1 ∷ 1 ∷ 1 ∷ 1 ∷ 1 ∷ 1 ∷ []

abbrev fresh_unary : UnaryCache
fresh_unary = (codes "AAAB", 1 ∷ 0 ∷ 0 ∷ 0 ∷ 0 ∷ 0 ∷ []) ∷ []

abbrev pair : Bytes
pair = binary_key 0 (codes "AAAB") (codes "AAAC")

abbrev fresh_binary : BinaryCache
fresh_binary = (pair, 1) ∷ []

-- the first Increment of a pair of ids
first_delta :
    delta disk 0 (codes "AAAB") (codes "AAAC") true [] [] (2, blank)
    ≡ ok (fresh_binary, fresh_unary)
unfolding delta Unary.increment Unary.get_index lookup insert
first_delta = refl

count-delta_example : count disk fresh_binary (2, blank) pair ≡ (
    if bytes_eq pair pair
    then map_ok (adjust_word true) (count disk [] (2, blank) pair)
    else count disk [] (2, blank) pair)
count-delta_example =
    count-delta disk 0 (codes "AAAB") (codes "AAAC") pair true [] fresh_binary [] fresh_unary
      (2, blank) first_delta

delta-crossing_example : crossing disk 0 (codes "AAAB") true 0 [] (2, blank) ≡ ok fresh_unary
delta-crossing_example =
    delta-crossing disk 0 (codes "AAAB") (codes "AAAC") true 0 [] fresh_binary [] fresh_unary
      (2, blank) (omega arith) (λ val h. cc) (unfold count lookup in refl) first_delta

abbrev after : Table
after = with_entry pair (ok (put_uint32 1)) blank

binary_commit : commit_binary disk fresh_binary (2, blank) ≡ done (1, after)
unfolding commit_binary commit_loop commit_count set_safe
binary_commit = refl

get-commit_binary_example :
    after pair ≡ Commit.Binary.committed (lookup pair fresh_binary) (blank pair)
get-commit_binary_example =
    get-commit_binary disk disk-Reads fresh_binary (2, blank) (1, after) pair
      (unfold lookup in refl, tt) binary_commit

words : (n : ℕ) → lookup pair fresh_binary ≡ some n → n < 2 ^ 32
unfolding lookup
words n h = ground (arith, h, bytes_eq_self pair)

count-commit_binary_example :
    count disk [] (1, after) pair ≡ count disk fresh_binary (2, blank) pair
count-commit_binary_example =
    count-commit_binary disk disk-Reads fresh_binary (2, blank) (1, after) pair
      (unfold lookup in refl, tt) words binary_commit

abbrev after_unary : Table
after_unary =
    with_entry (unary_key (codes "AAAB")) (ok (put_words (1 ∷ 0 ∷ 0 ∷ 0 ∷ 0 ∷ 0 ∷ []))) blank

deletes_succeed : DeletesSucceed disk
deletes_succeed (zero, m) k = ((1, with_entry k (err key_not_found) m), unfold delete_safe in refl)
deletes_succeed (suc n, m) k = ((n, with_entry k (err key_not_found) m), unfold delete_safe in refl)

get-commit_unary_example :
    after_unary (unary_key (codes "AAAB"))
    ≡ Commit.Unary.committed (lookup (codes "AAAB") fresh_unary) (blank (unary_key (codes "AAAB")))
get-commit_unary_example =
    get-commit_unary disk disk-Reads deletes_succeed fresh_unary (2, blank) (1, after_unary)
      (codes "AAAB") (unfold lookup in refl, tt)
      (unfold commit_unary commit_loop commit_index set_safe all_zero in refl)

-- a database whose deletes fail
abbrev broken : Database
broken = record {
  Db = Table;
  Txn = Table;
  begin = λ db. db;
  get = λ t k. t k;
  set_entry = λ t k v. ok (with_entry k (ok v) t);
  delete = λ t k. err (fault 7);
  commit = λ t. ok t;
}
