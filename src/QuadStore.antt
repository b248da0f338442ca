-- ===== src/QuadStore.antt =====
-- store.go: the persistence of datasets, in memory and as tab-separated values in the database.
pub mod Sort
pub mod Memory
pub mod Encoding
pub mod Scan
use forty_six.Base.{List, Bytes}

-- [4]ID: the ids of a quad.
pub record Quad : Type 0 where
  pub subject : Bytes
  pub predicate : Bytes
  pub object : Bytes
  pub graph : Bytes
