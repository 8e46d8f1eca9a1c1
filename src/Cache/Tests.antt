-- ===== src/Cache/Tests.antt =====
-- Runs and instances of the theorems on a small store.
pub mod Keys
pub mod Stores
pub mod Restores
pub mod Backends
