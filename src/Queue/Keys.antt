-- ===== src/Queue/Keys.antt =====
-- The key names of reliablequeue/queue.go.
use remix.Base.{◌++◌, Text, bytes}

-- "reliable_queue:<name>:", with which the name of every key begins.
unfoldable pub prefix : Text → Text
prefix name = bytes "reliable_queue:" ++ (name ++ bytes ":")

unfoldable pub queue_key : Text → Text
queue_key name = prefix name ++ bytes "pending"

unfoldable pub processing_key : Text → Text
processing_key name = prefix name ++ bytes "processing"

unfoldable pub dead_letter_key : Text → Text
dead_letter_key name = prefix name ++ bytes "dead_letter"

unfoldable pub delayed_key : Text → Text
delayed_key name = prefix name ++ bytes "delayed"

unfoldable pub stats_key : Text → Text
stats_key name = prefix name ++ bytes "stats"

unfoldable pub message_key : Text → Text → Text
message_key name id = prefix name ++ (bytes "message:" ++ id)

-- The fields of the statistics.
abbrev pub total_enqueued : Text
total_enqueued = bytes "total_enqueued"

abbrev pub total_processed : Text
total_processed = bytes "total_processed"

abbrev pub total_failed : Text
total_failed = bytes "total_failed"
