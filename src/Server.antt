-- ===== src/Server.antt =====
-- crates/tr-infer/src/server: the prefix cache as the server uses it.
pub mod Staging
pub mod Prefix
pub mod Restore
pub mod Save
pub mod Writer
mod Tests
pub mod Ready
pub mod Continuous
pub mod Reserve
pub mod Generate
