-- ===== src/Lock/Ops.antt =====
-- The methods of lock/lock.go. A lock object keeps its hold count and the renewal tasks that run on
-- its channels; the clock is read where the Go code reads it.
mod Info
mod Acquire
mod Release
mod Expiry
unfoldable pub use Info.*
unfoldable pub use Acquire.*
unfoldable pub use Release.*
unfoldable pub use Expiry.*
