-- ===== src/Model.antt =====
-- crates/tr-model: the sequences that are resident at the same time.
pub mod Sequence
pub mod Spec
pub mod Tests
