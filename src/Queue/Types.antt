-- ===== src/Queue/Types.antt =====
-- reliablequeue/types.go: messages, configuration and statistics; times and durations are
-- nanoseconds, times since the Go zero time.
use remix.Base.{ℕ, ◌-◌, ◌*◌, ◌/◌, ◌≤◌, ◌≡◌, Bool, true, Option, none, some, Text, arith}
use remix.Redis.Client.{Fault}

pub record Message : Type 0 where
  pub id : Text
  pub body : Text
  pub enqueue_time : ℕ
  pub visible_time : ℕ
  pub dequeue_time : ℕ
  pub retry_count : ℕ
  pub max_retries : ℕ

pub record Config : Type 0 where
  pub visibility_timeout : ℕ
  pub max_retries : ℕ
  pub retry_delay : ℕ
  pub cleanup_interval : ℕ
  pub enable_dead_letter : Bool

abbrev pub second : ℕ
second = 1000000000

unfoldable pub default_config : Config
default_config = record {
  visibility_timeout = 30 * second;
  max_retries = 3;
  retry_delay = 1 * second;
  cleanup_interval = 60 * second;
  enable_dead_letter = true;
}

-- The struct of queue.go; the client and the channels of the clean-up task stand apart.
pub record Queue : Type 0 where
  pub name : Text
  pub config : Config
  pub open config use {
    visibility_timeout, max_retries, retry_delay, cleanup_interval, enable_dead_letter,
  }

pub record QueueStats : Type 0 where
  pub pending_messages : ℕ
  pub processing_messages : ℕ
  pub dead_letter_messages : ℕ
  pub total_enqueued : ℕ
  pub total_processed : ℕ
  pub total_failed : ℕ

-- `time.Time.Unix`, for times after 1970.
abbrev pub unix_epoch : ℕ
unix_epoch = 62135596800

unfoldable pub unix : ℕ → ℕ
unix t = t / second - unix_epoch

pub unix_mono : (s t : ℕ) → s ≤ t → unix s ≤ unix t
unfolding unix
unix_mono s t h = omega arith

-- What a method was doing when a call failed: the contexts of its `fmt.Errorf`.
pub data Doing : Type 0 where
  offering moving_delayed polling getting_data moving_to_processing acking checking : Doing
  nacking getting_dead_keys getting_timeouts handling_timeout requeueing getting_stats : Doing

pub data Error : Type 0 where
  plain : Fault → Error
  failed : Doing → Fault → Error
  marshal_failed : Error
  unmarshal_failed : Error
  not_in_processing : Error
  not_in_dead_letter : Error

-- `encoding/json` on one type: writing may fail, and what was written is read back.
pub record Codec (A : Type 0) : Type 0 where
  pub marshal : A → Option Text
  pub unmarshal : Text → Option A
  pub round_trip : (a : A) (s : Text) → marshal a ≡ some s → unmarshal s ≡ some a

-- `NewReliableQueue`, but for the start of the clean-up task.
unfoldable pub new_reliable_queue : Text → Option Config → Queue
new_reliable_queue name none = record { name = name; config = default_config }
new_reliable_queue name (some config) = record { name = name; config = config }
