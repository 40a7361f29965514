-- ===== src/Queue.antt =====
-- reliablequeue/: the reliable queue.
pub mod Types
pub mod Keys
pub mod Slots
pub mod View
pub mod Spec
pub mod Refine
pub mod Sound
mod Tests
pub mod Scripts
pub mod Ops
