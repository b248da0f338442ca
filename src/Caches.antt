-- ===== src/Caches.antt =====
-- caches.go: the counts of the unary and binary index keys, read from a transaction on first use,
-- changed in memory, and written back by Commit.
pub mod Words
pub mod Unary
pub mod Binary
pub mod Commit
pub mod Succeed
