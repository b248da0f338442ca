-- ===== src/Api.antt =====
-- The server of the directory api.
pub mod Rpc
pub mod Http
