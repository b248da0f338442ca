-- ===== src/Badger.antt =====
-- The key-value database that the program stands on, as an interface: transactions of the package
-- badger, and setSafe and deleteSafe of util.go, which go on in a new transaction where one is full.
pub mod Safe
pub mod Cursor
use forty_six.Base.{
  ℕ, ◌≡◌, ◌≢◌, Option, none, some, List, Bytes, bytes_eq, if◌then◌else◌, Error, key_not_found,
  txn_too_big, Result, ok, err,
}

-- A transaction is passed on from one call to the next; it holds the snapshot that it was begun on
-- and its own writes. `commit` gives the database with those writes, of which `begin` begins the
-- next transaction: no other transaction writes in between.
pub record Database : Type 1 where
  pub Db : Type 0
  pub Txn : Type 0
  -- db.NewTransaction
  pub begin : Db → Txn
  -- txn.Get and item.Value
  pub get : Txn → Bytes → Result Bytes
  -- txn.SetEntry of an entry whose meta byte is the first of its key
  pub set_entry : Txn → Bytes → Bytes → Result Txn
  pub delete : Txn → Bytes → Result Txn
  pub commit : Txn → Result Db

-- What badger documents: a transaction reads its own writes, and what it has committed is read by
-- the transactions that are begun later.
pub record Reads (b : Database) : Type 0 where
  pub get-set_entry :
      (t t' : b.Txn) (k v j : Bytes)
      → b.set_entry t k v ≡ ok t'
      → b.get t' j ≡ (if bytes_eq k j then ok v else b.get t j)
  pub get-delete :
      (t t' : b.Txn) (k j : Bytes)
      → b.delete t k ≡ ok t'
      → b.get t' j ≡ (if bytes_eq k j then err key_not_found else b.get t j)
  pub get-commit :
      (t : b.Txn) (db : b.Db) (j : Bytes) → b.commit t ≡ ok db → b.get (b.begin db) j ≡ b.get t j
  -- only Get reports a missing key: Delete writes a marker, whether or not the key is there
  pub delete-ne-missing : (t : b.Txn) (k : Bytes) → b.delete t k ≢ err key_not_found
  pub commit-ne-missing : (t : b.Txn) → b.commit t ≢ err key_not_found

-- Go's result (txn, err): a transaction, or an error with the transaction that is returned beside
-- it, which may be nil. `panicked` is the use of a nil transaction.
pub data Outcome {ℓ} (T : Type ℓ) : Type ℓ where
  done : T → Outcome T
  failed : Option T → Error → Outcome T
  panicked : Outcome T

infixl 5 ◌>>=◌
abbrev pub ◌>>=◌ {ℓ} : {T : Type ℓ} → Outcome T → (T → Outcome T) → Outcome T
done t >>= f = f t
failed t e >>= f = failed t e
panicked >>= f = panicked

module _ (b : Database) where
  open b use {Txn, begin, set_entry, delete, commit}

  -- The retry in a new transaction, in which an error comes back with that transaction.
  pub again : Result Txn → Txn → Outcome Txn
  again (ok t') t = done t'
  again (err e) t = failed (some t) e

  -- The common end of setSafe and deleteSafe: `write` is the call, `r` its result on `t`.
  pub retry : (Txn → Result Txn) → Txn → Result Txn → Outcome Txn
  unfolding again
  retry write t (ok t') = done t'
  retry write t (err txn_too_big) = elim (commit t) [
    | ok db ↦ again (write (begin db)) (begin db)
    | err e ↦ failed none e
  ]
  retry write t (err e) = failed (some t) e

  unfoldable pub set_safe : Bytes → Bytes → Txn → Outcome Txn
  unfolding retry
  set_safe key val t = retry (λ t. set_entry t key val) t (set_entry t key val)

  unfoldable pub delete_safe : Bytes → Txn → Outcome Txn
  unfolding retry
  delete_safe key t = retry (λ t. delete t key) t (delete t key)
