-- ===== src/RwLock/Refine.antt =====
-- The scripts of the read-write lock, and the remote calls that run them, against the
-- specification.
mod Guard
pub mod Read
pub mod Write
