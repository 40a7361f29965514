-- ===== src/Queue/Ops.antt =====
-- The methods of reliablequeue/queue.go. The clock is read where the Go code reads it: each reading
-- is an argument. So is a new message's UUID, and what other clients do while BRPOP blocks.
mod Delivery
mod Finish
mod Upkeep
unfoldable pub use Delivery.*
unfoldable pub use Finish.*
unfoldable pub use Upkeep.*
