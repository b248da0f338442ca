-- ===== src/Badger/Safe.antt =====
-- setSafe and deleteSafe write what they are asked to, whether or not the transaction was full.
use forty_six.Base.{
  ◌≡◌, ◌≢◌, ap, ◌∙◌, ◌⊎◌, inl, inr, refl, Bytes, bytes_eq, if◌then◌else◌, arith, key_not_found,
  txn_too_big, Result, ok, err, Option, none,
}
use forty_six.Badger.{Database, Reads, done, failed, again, retry, set_safe, delete_safe}

module _ (b : Database) where
  open b use {Db, Txn, begin, commit}

  again-done : (r : Result Txn) (t t' : Txn) → again b r t ≡ done t' → r ≡ ok t'
  unfolding again
  again-done (ok u) t t' h = cc
  again-done (err e) t t' h = cc

  -- A write that was done was done at once, or in a new transaction behind a commit.
  retry-done :
      (write : Txn → Result Txn) (t t' : Txn) (r : Result Txn)
      → retry b write t r ≡ done t'
      → (r ≡ ok t') ⊎ ((db : Db) × (commit t ≡ ok db) × (write (begin db) ≡ ok t'))
  unfolding retry
  retry-done write t t' (ok u) h = inl (cc)
  retry-done write t t' (err txn_too_big) h = inr (committed (commit t) refl h)
    where
      committed :
          (r : Result Db)
          → commit t ≡ r
          → (elim r [ ok db ↦ again b (write (begin db)) (begin db) | err e ↦ failed none e ])
            ≡ done t'
          → (db : Db) × (commit t ≡ ok db) × (write (begin db) ≡ ok t')
      committed (ok db) e k = (db, e, again-done (write (begin db)) (begin db) t' k)
      committed (err e) q k = cc
  retry-done write t t' (err _) h = cc

module _ (b : Database) (laws : Reads b) where
  open b use {Db, Txn, begin, get, set_entry, delete, commit}
  open laws use {get-set_entry, get-delete, get-commit}

  -- A read after setSafe that returned no error sees the value at the key and, at any other key, what
  -- was there before, also where the full transaction had to be committed on the way.
  pub get-set_safe :
      (t t' : Txn) (k v j : Bytes)
      → set_safe b k v t ≡ done t'
      → get t' j ≡ (if bytes_eq k j then ok v else get t j)
  unfolding set_safe
  get-set_safe t t' k v j h = elim (retry-done b (λ t. set_entry t k v) t t' (set_entry t k v) h) [
    | inl e ↦ get-set_entry t t' k v j e
    | inr (db, c, e) ↦
        get-set_entry (begin db) t' k v j e
        ∙ ap (λ r. if bytes_eq k j then ok v else r) (get-commit t db j c)
  ]

  -- The same of deleteSafe, after which the key is not found.
  pub get-delete_safe :
      (t t' : Txn) (k j : Bytes)
      → delete_safe b k t ≡ done t'
      → get t' j ≡ (if bytes_eq k j then err key_not_found else get t j)
  unfolding delete_safe
  get-delete_safe t t' k j h = elim (retry-done b (λ t. delete t k) t t' (delete t k) h) [
    | inl e ↦ get-delete t t' k j e
    | inr (db, c, e) ↦
        get-delete (begin db) t' k j e
        ∙ ap (λ r. if bytes_eq k j then err key_not_found else r) (get-commit t db j c)
  ]

  again-ne-missing :
      (r : Result Txn) (t : Txn) (left : Option Txn)
      → r ≢ err key_not_found
      → again b r t ≢ failed left key_not_found
  unfolding again
  again-ne-missing (ok u) t left h q = cc
  again-ne-missing (err e) t left h q = h (ground arith)

  retry-ne-missing :
      (write : Txn → Result Txn) (t : Txn) (r : Result Txn) (left : Option Txn)
      → r ≢ err key_not_found
      → ((u : Txn) → write u ≢ err key_not_found)
      → retry b write t r ≢ failed left key_not_found
  unfolding retry
  retry-ne-missing write t (ok u) left h hw q = cc
  retry-ne-missing write t (err txn_too_big) left h hw q =
      committed (commit t) (laws.commit-ne-missing t) q
    where
      committed :
          (r : Result Db)
          → r ≢ err key_not_found
          → (elim r [ ok db ↦ again b (write (begin db)) (begin db) | err e ↦ failed none e ])
            ≢ failed left key_not_found
      committed (ok db) k q = again-ne-missing (write (begin db)) (begin db) left (hw (begin db)) q
      committed (err e) k q = k (ground arith)
  retry-ne-missing write t (err e) left h hw q = h (ground arith)

  -- deleteSafe never ends in the error of a missing key.
  pub delete_safe-ne-missing :
      (t : Txn) (k : Bytes) (left : Option Txn) → delete_safe b k t ≢ failed left key_not_found
  unfolding delete_safe
  delete_safe-ne-missing t k left =
      retry-ne-missing (λ u. delete u k) t (delete t k) left (laws.delete-ne-missing t k)
        (λ u. laws.delete-ne-missing u k)
