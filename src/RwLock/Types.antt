-- ===== src/RwLock/Types.antt =====
-- The JSON objects that the scripts of lock/rwlock.go write, as Lua and Go read them.
use remix.Base.{ℕ, ◌≡◌, Bool, true, false, ◌&&◌, [], Option, none, some, Text}
use remix.Lock.Types.{Json, Stamp, number, lua_number, go_time}

-- A field that is not in the object is `none`.
pub record Object : Type 0 where
  pub name : Option Text
  pub owner : Option Text
  pub thread_id : Option Text
  pub hold_count : Option ℕ
  pub acquire_time : Option Stamp
  pub expire_time : Option Stamp
  pub last_renewal_time : Option Stamp

-- cjson and `encoding/json` on these objects: what was written is read back.
pub record Objects : Type 0 where
  pub encode : Object → Text
  pub decode : Text → Option Object
  pub decode-encode : (x : Object) → decode (encode x) ≡ some x

-- The tables `read_info` and `write_info` of the scripts.
unfoldable pub lock_object : Text → Text → Text → ℕ → ℕ → Object
lock_object name owner thread_id acquire_time expire_time = record {
  name = some name;
  owner = some owner;
  thread_id = some thread_id;
  hold_count = none;
  acquire_time = some (number acquire_time);
  expire_time = some (number expire_time);
  last_renewal_time = none;
}

module _ (j : Json) where
  -- Lua's `tonumber` on a field.
  abbrev pub number_of : Option Stamp → Option ℕ
  number_of none = none
  number_of (some t) = lua_number j t

  -- A time that Go can read; a missing field leaves Go's zero time.
  abbrev pub is_read : Option Stamp → Bool
  is_read none = true
  is_read (some t) = elim (go_time j t) [ none ↦ false | some _ ↦ true ]

  abbrev pub or_empty : Option Text → Text
  or_empty none = []
  or_empty (some s) = s

  abbrev pub holder_if : Bool → Object → Option (Text × Text)
  holder_if true x = some (or_empty x.owner, or_empty x.thread_id)
  holder_if false x = none

  -- `json.Unmarshal` into a `LockInfo`: the owner and the thread that are used of it.
  unfoldable pub unmarshalled : Object → Option (Text × Text)
  unmarshalled x =
      holder_if (is_read x.acquire_time && (is_read x.expire_time && is_read x.last_renewal_time)) x
