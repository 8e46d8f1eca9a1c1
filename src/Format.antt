-- ===== src/Format.antt =====
-- The crate crates/tr-format: the files of a model pack.
pub mod Sha256
mod Tests
