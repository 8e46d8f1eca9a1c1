-- ===== src/Cache.antt =====
-- The crate crates/tr-cache: role-tagged objects behind prefix keys, and the index over them.
pub mod Result
pub mod Role
pub mod Policy
pub mod Key
pub mod Buf
pub mod Object
pub mod Backend
pub mod Index
pub mod Restore
pub mod Store
pub mod Tests
