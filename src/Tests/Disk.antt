-- ===== src/Tests/Disk.antt =====
-- A database of the interface: a transaction is a table of entries and the room that it has left.
use forty_six.Base.{
  arith, ◌≢◌, ℕ, zero, suc, ◌≡◌, Bytes, bytes_eq, if◌then◌else◌, key_not_found, txn_too_big, Result,
  ok, err,
}
use forty_six.Badger.{Database, Reads}

abbrev pub Table : Type 0
Table = Bytes → Result Bytes

abbrev pub write : ℕ → Table → Bytes → Result Bytes → Result (ℕ × Table)
write zero m k r = err txn_too_big
write (suc n) m k r = ok (n, λ j. if bytes_eq k j then r else m j)

-- A new transaction has room for two writes.
abbrev pub disk : Database
disk = record {
  Db = Table;
  Txn = ℕ × Table;
  begin = λ db. (2, db);
  get = λ t k. t.1 k;
  set_entry = λ t k v. write t.0 t.1 k (ok v);
  delete = λ t k. write t.0 t.1 k (err key_not_found);
  commit = λ t. ok t.1;
}

write-get :
    (n : ℕ) (m : Table) (t : ℕ × Table) (k j : Bytes) (r : Result Bytes)
    → write n m k r ≡ ok t
    → t.1 j ≡ (if bytes_eq k j then r else m j)
write-get zero m t k j r h = cc
write-get (suc n) m t k j r h = ground (arith, h)

same : (m m' : Table) (j : Bytes) → ok m ≡ ok m' → m' j ≡ m j
same m m' j h = cc

write-ne-missing :
    (n : ℕ) (m : Table) (k : Bytes) (r : Result Bytes) → write n m k r ≢ err key_not_found
write-ne-missing zero m k r h = ground (arith, h)
write-ne-missing (suc n) m k r h = cc

committed-ne-missing : (m : Table) → ◌≢◌ {A = Result Table} (ok m) (err key_not_found)
committed-ne-missing m h = cc

pub disk-Reads : Reads disk
disk-Reads = record {
  get-set_entry = λ t t' k v j h. write-get t.0 t.1 t' k j (ok v) h;
  get-delete = λ t t' k j h. write-get t.0 t.1 t' k j (err key_not_found) h;
  get-commit = λ t db j h. same t.1 db j h;
  delete-ne-missing = λ t k h. write-ne-missing t.0 t.1 k (err key_not_found) h;
  commit-ne-missing = λ t h. committed-ne-missing t.1 h;
}

-- no entry
abbrev pub blank : Table
blank k = err key_not_found
