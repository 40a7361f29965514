-- ===== src/Lock.antt =====
-- lock/: the distributed lock of lock.go, with the types of types.go.
pub mod Types
pub mod Keys
pub mod Scripts
pub mod Ops
pub mod View
pub mod Spec
pub mod Refine
pub mod Exclusion
pub mod Lapse
pub mod Loop
pub mod Held
pub mod Unlock
pub mod Lease
pub mod Renewal
pub mod Others
pub mod Reentrant
pub mod Tests
