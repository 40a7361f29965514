-- ===== src/Lock/Types.antt =====
-- lock/types.go: configuration, the stored lock information and the errors; and the JSON in which
-- Go and Lua share it. Times and durations are nanoseconds, times since the Unix epoch.
use remix.Base.{ℕ, ◌*◌, ◌/◌, ◌≡◌, Bool, true, false, Option, none, some, Text}
use remix.Redis.Client.{Fault}

pub record LockConfig : Type 0 where
  pub lease_duration : ℕ
  pub wait_timeout : ℕ
  pub retry_interval : ℕ
  pub reentrant : Bool
  pub fair : Bool
  pub auto_renewal : Bool
  pub renewal_interval : ℕ

abbrev pub second : ℕ
second = 1000000000

abbrev pub millisecond : ℕ
millisecond = 1000000

unfoldable pub default_lock_config : LockConfig
default_lock_config =
    let lease_duration = 30 * second in
    record {
      lease_duration = lease_duration;
      wait_timeout = 10 * second;
      retry_interval = 100 * millisecond;
      reentrant = true;
      fair = false;
      auto_renewal = true;
      renewal_interval = lease_duration / 3;
    }

pub record LockInfo : Type 0 where
  pub name : Text
  pub owner : Text
  pub thread_id : Text
  pub hold_count : ℕ
  pub acquire_time : ℕ
  pub expire_time : ℕ
  pub last_renewal_time : ℕ

-- `time.Time.Unix`, and a duration in whole seconds.
abbrev pub seconds : ℕ → ℕ
seconds t = t / second

-- The errors: those of types.go, a call that failed, and the errors of reading JSON and numbers. `cancelled` is the
-- context's own error. Three belong to the model: `starved`, a list of rounds that was used up;
-- `stuck`, a call that waits without end; `panicked`, the close of a closed channel, which ends the
-- program.
pub data Error : Type 0 where
  lock_timeout not_held not_found invalid_operation : Error
  acquire_failed release_failed force_unlock_failed info_failed join_failed check_failed
        ttl_failed :
      Fault → Error
  plain : Fault → Error
  marshal_failed unmarshal_failed number_unread cancelled starved stuck panicked : Error

-- A time in a document: Go's `time.Time` is a text (RFC 3339), Lua writes a number.
pub data Stamp : Type 0 where
  rfc3339 : Text → Stamp
  number : ℕ → Stamp

-- The JSON object of a lock.
pub record Document : Type 0 where
  pub name : Text
  pub owner : Text
  pub thread_id : Text
  pub hold_count : ℕ
  pub acquire_time : Stamp
  pub expire_time : Stamp
  pub last_renewal_time : Stamp

-- What Go's `encoding/json` and `time`, and Lua's cjson and `tonumber`, have in common: JSON text
-- is read as it was written; a time is read from the text that formats it; and that text, which has
-- dashes and colons, is no number.
pub record Json : Type 0 where
  pub encode : Document → Option Text
  pub decode : Text → Option Document
  pub decode-encode : (x : Document) (s : Text) → encode x ≡ some s → decode s ≡ some x
  pub format_time : ℕ → Text
  pub parse_time : Text → Option ℕ
  pub parse-format : (t : ℕ) → parse_time (format_time t) ≡ some t
  pub to_number : Text → Option ℕ
  pub to_number-format : (t : ℕ) → to_number (format_time t) ≡ none

module _ (j : Json) where
  open j use {encode, decode, format_time, parse_time, to_number}

  -- `json.Marshal(lockInfo)`.
  unfoldable pub document_of : LockInfo → Document
  document_of i = record {
    name = i.name;
    owner = i.owner;
    thread_id = i.thread_id;
    hold_count = i.hold_count;
    acquire_time = rfc3339 (format_time i.acquire_time);
    expire_time = rfc3339 (format_time i.expire_time);
    last_renewal_time = rfc3339 (format_time i.last_renewal_time);
  }

  -- `time.Time.UnmarshalJSON`, which takes no number.
  abbrev pub go_time : Stamp → Option ℕ
  go_time (rfc3339 s) = parse_time s
  go_time (number n) = none

  abbrev pub info_with : Document → Option ℕ → Option ℕ → Option ℕ → Option LockInfo
  info_with x (some a) (some e) (some l) = some (record {
    name = x.name;
    owner = x.owner;
    thread_id = x.thread_id;
    hold_count = x.hold_count;
    acquire_time = a;
    expire_time = e;
    last_renewal_time = l;
  })
  info_with x _ _ _ = none

  -- `json.Unmarshal` into a `LockInfo`.
  unfoldable pub info_of : Document → Option LockInfo
  info_of x =
      info_with x (go_time x.acquire_time) (go_time x.expire_time) (go_time x.last_renewal_time)

  -- Lua's `tonumber` on a field of a decoded document.
  abbrev pub lua_number : Stamp → Option ℕ
  lua_number (rfc3339 s) = to_number s
  lua_number (number n) = some n
