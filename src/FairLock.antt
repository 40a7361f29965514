-- ===== src/FairLock.antt =====
-- lock/fair_lock.go: the lock with a queue of waiting members.
pub mod Types
pub mod Scripts
pub mod Ops
pub mod View
mod Order
pub mod Keeps
pub mod Queueing
pub mod Cleaning
pub mod Turns
pub mod First
pub mod Stats
pub mod Calls
mod Tests
