-- ===== src/RwLock/Ops.antt =====
-- The methods of lock/rwlock.go. Neither lock object keeps any state of its own; the clock is read
-- where the Go code reads it.
mod Loop
mod Read
mod Write
mod Expiry
unfoldable pub use Loop.*
unfoldable pub use Read.*
unfoldable pub use Write.*
unfoldable pub use Expiry.*
