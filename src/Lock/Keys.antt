-- ===== src/Lock/Keys.antt =====
-- The key names of lock/lock.go, and the identity under which a lock is held.
use remix.Base.{◌++◌, Text, bytes}

unfoldable pub lock_key : Text → Text
lock_key name = bytes "lock:" ++ name

unfoldable pub stats_key : Text → Text
stats_key name = bytes "lock:" ++ (name ++ bytes ":stats")

unfoldable pub queue_key : Text → Text
queue_key name = bytes "lock:" ++ (name ++ bytes ":queue")

-- "<owner>:<thread>", by which Go compares holders.
unfoldable pub holder : Text → Text → Text
holder owner thread_id = owner ++ (bytes ":" ++ thread_id)

abbrev pub total_acquired : Text
total_acquired = bytes "total_acquired"

abbrev pub total_released : Text
total_released = bytes "total_released"
