-- ===== src/Net.antt =====
-- The network clients of app/src.
pub mod Socket
