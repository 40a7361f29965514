-- ===== src/RwLock.antt =====
-- lock/rwlock.go: the read-write lock.
pub mod Types
pub mod Keys
pub mod Scripts
pub mod Ops
pub mod View
pub mod Spec
pub mod Refine
mod Fields
pub mod Exclusion
pub mod Kept
pub mod History
pub mod Readers
pub mod Writers
pub mod Nested
pub mod Waiting
mod Tests
