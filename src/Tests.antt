-- ===== src/Tests.antt =====
-- The theorems applied at concrete inputs, over a concrete database.
pub mod Disk
pub mod Util
pub mod Sources
pub mod Caches
pub mod Index
pub mod Dictionary
pub mod Store
pub mod Constraint
pub mod Api
pub mod Order
pub mod Queries
pub mod Search
