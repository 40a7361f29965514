-- ===== src/Queue/Refine.antt =====
-- The methods of queue.go against the specification.
pub mod Online
pub mod Offer
pub mod Poll
pub mod Finish
pub mod Timeouts
pub mod DeadLetters
pub mod Reads
