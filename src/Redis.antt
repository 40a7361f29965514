-- ===== src/Redis.antt =====
-- The Redis server and its Go client, which are not part of the repository: the documented effect
-- of each command that the program sends, the interface that a server offers, scripts and
-- transactions, and what the network does to a call.
pub mod Value
pub mod Command
pub mod Server
pub mod Client
pub mod Expiry
pub mod Memory
pub mod Rename
pub mod Counts
pub mod Hashes
