-- ===== src/Redis/Command.antt =====
-- The commands that the program sends, with the reply and the effect that Redis documents for each
-- on the one key that it names.
use remix.Base.{
  ℕ, zero, suc, ◌+◌, List, ◌∷◌, map, Option, none, some, Text, length, take, ℤ, pos, negsuc, sub_ℕ,
}
use remix.Redis.Value.{
  Value, absent, string, list, hash, zset, as_string, as_list, as_hash, as_zset, of_list, of_zset,
  drop_last, last?, remove, position, field, put, erase, sum_of, score, zremove, zinsert, up_to,
  above, rank, Cell, number, text, of_hash,
}

-- The end of LRANGE from the head: an index, or -1 for the last element.
pub data Stop : Type 0 where
  index : ℕ → Stop
  last : Stop

-- `set_ex` is `SET ... EX seconds` as a script sends it; `set_expiring` is the Go client's `Set` with
-- a duration. `hdecrby` is HINCRBY with a negative amount. The text of `hset` spells no integer.
-- `zrangebyscore` and `zremrangebyscore` have the lower bound 0.
pub data Command : Type 0 where
  get : Text → Command
  set : Text → Text → Command
  set_ex : Text → Text → ℕ → Command
  set_expiring : Text → Text → ℕ → Command
  del : Text → Command
  hincrby : Text → Text → ℕ → Command
  hdecrby : Text → Text → ℕ → Command
  hmget : Text → List Text → Command
  hset : Text → Text → Text → Command
  hget : Text → Text → Command
  hdel : Text → Text → Command
  hlen : Text → Command
  hexists : Text → Text → Command
  expire : Text → ℕ → Command
  exists : Text → Command
  lpush : Text → Text → Command
  rpop : Text → Command
  llen : Text → Command
  lrange : Text → Stop → Command
  lpos : Text → Text → Command
  lrem : Text → Text → Command
  zadd : Text → ℕ → Text → Command
  zrem : Text → Text → Command
  zscore : Text → Text → Command
  zcard : Text → Command
  zrangebyscore : Text → ℕ → Command
  zrank : Text → Text → Command
  zremrangebyscore : Text → ℕ → Command

pub data Reply : Type 0 where
  status : Reply
  nil : Reply
  int : ℕ → Reply
  -- -(n + 1).
  negative : ℕ → Reply
  bulk : Text → Reply
  bulks : List Text → Reply
  ints : List (Option ℕ) → Reply
  error : Reply

abbrev pub target : Command → Text
target (get k) = k
target (set k v) = k
target (set_ex k v s) = k
target (set_expiring k v d) = k
target (del k) = k
target (hincrby k f n) = k
target (hdecrby k f n) = k
target (hmget k fs) = k
target (hset k f s) = k
target (hget k f) = k
target (hdel k f) = k
target (hlen k) = k
target (hexists k f) = k
target (expire k s) = k
target (exists k) = k
target (lpush k x) = k
target (rpop k) = k
target (llen k) = k
target (lrange k s) = k
target (lpos k x) = k
target (lrem k x) = k
target (zadd k s m) = k
target (zrem k m) = k
target (zscore k m) = k
target (zcard k) = k
target (zrangebyscore k t) = k
target (zrank k m) = k
target (zremrangebyscore k t) = k

-- A command on a key of the wrong type replies with an error and changes nothing.
abbrev pub on_typed {ℓ} : {A : Type ℓ} → Option A → Value → (A → Reply × Value) → Reply × Value
on_typed none v f = (error, v)
on_typed (some a) v f = f a

abbrev pub bulk_of : Option Text → Reply
bulk_of none = nil
bulk_of (some s) = bulk s

abbrev pub int_of : Option ℕ → Reply
int_of none = nil
int_of (some n) = int n

abbrev pub until : Stop → List Text → List Text
until (index i) xs = take (suc i) xs
until last xs = xs

abbrev pub deleted : Value → ℕ
deleted absent = 0
deleted _ = 1

abbrev pub found : Option ℕ → ℕ
found none = 0
found (some _) = 1

abbrev pub added : Option ℕ → ℕ
added none = 1
added (some _) = 0

abbrev pub integer : ℤ → Reply
integer (pos n) = int n
integer (negsuc n) = negative n

-- A field's text; a text that spells an integer is given as the integer.
abbrev pub cell_of : Option Cell → Reply
cell_of none = nil
cell_of (some (number z)) = integer z
cell_of (some (text s)) = bulk s

-- A counter in the reply of HMGET.
abbrev pub count_of : Option Cell → Option ℕ
count_of (some (number (pos n))) = some n
count_of _ = none

abbrev pub present : {A : Type 0} → Option A → ℕ
present none = 0
present (some _) = 1

abbrev pub missing : {A : Type 0} → Option A → ℕ
missing none = 1
missing (some _) = 0

abbrev pub added_to : Text → Option ℤ → List (Text × Cell) → Value → Reply × Value
added_to f none h v = (error, v)
added_to f (some z) h v = (integer z, hash (put f (number z) h))

-- EXPIRE with zero seconds deletes the key.
abbrev pub expired : ℕ → Value → Value
expired zero v = absent
expired (suc n) v = v

-- An expiry of zero seconds is refused.
abbrev pub set_for : Text → ℕ → Value → Reply × Value
set_for s zero v = (error, v)
set_for s (suc n) v = (status, string s)

unfoldable pub exec : Command → Value → Reply × Value
exec (get k) v = on_typed (as_string v) v (λ s. (bulk_of s, v))
exec (set k s) v = (status, string s)
exec (set_ex k s n) v = set_for s n v
exec (set_expiring k s d) v = (status, string s)
exec (del k) v = (int (deleted v), absent)
exec (hincrby k f n) v = on_typed (as_hash v) v (λ h. added_to f (sum_of (field f h) (pos n)) h v)
exec (hdecrby k f n) v =
    on_typed (as_hash v) v (λ h. added_to f (sum_of (field f h) (sub_ℕ 0 n)) h v)
exec (hmget k fs) v = on_typed (as_hash v) v (λ h. (ints (map (λ f. count_of (field f h)) fs), v))
exec (hset k f s) v =
    on_typed (as_hash v) v (λ h. (int (missing (field f h)), hash (put f (text s) h)))
exec (hget k f) v = on_typed (as_hash v) v (λ h. (cell_of (field f h), v))
exec (hdel k f) v = on_typed (as_hash v) v (λ h. (int (present (field f h)), of_hash (erase f h)))
exec (hlen k) v = on_typed (as_hash v) v (λ h. (int (length h), v))
exec (hexists k f) v = on_typed (as_hash v) v (λ h. (int (present (field f h)), v))
exec (expire k n) v = (int (deleted v), expired n v)
exec (exists k) v = (int (deleted v), v)
exec (lpush k x) v = on_typed (as_list v) v (λ xs. (int (length xs + 1), list (x ∷ xs)))
exec (rpop k) v = on_typed (as_list v) v (λ xs. (bulk_of (last? xs), of_list (drop_last xs)))
exec (llen k) v = on_typed (as_list v) v (λ xs. (int (length xs), v))
exec (lrange k s) v = on_typed (as_list v) v (λ xs. (bulks (until s xs), v))
exec (lpos k x) v = on_typed (as_list v) v (λ xs. (int_of (position x xs), v))
exec (lrem k x) v =
    on_typed (as_list v) v (λ xs. (int (found (position x xs)), of_list (remove x xs)))
exec (zadd k s m) v =
    on_typed (as_zset v) v (λ z. (int (added (score m z)), zset (zinsert s m (zremove m z))))
exec (zrem k m) v = on_typed (as_zset v) v (λ z. (int (found (score m z)), of_zset (zremove m z)))
exec (zscore k m) v = on_typed (as_zset v) v (λ z. (int_of (score m z), v))
exec (zcard k) v = on_typed (as_zset v) v (λ z. (int (length z), v))
exec (zrangebyscore k t) v = on_typed (as_zset v) v (λ z. (bulks (up_to t z), v))
exec (zrank k m) v = on_typed (as_zset v) v (λ z. (int_of (rank m z), v))
exec (zremrangebyscore k t) v =
    on_typed (as_zset v) v (λ z. (int (length (up_to t z)), of_zset (above t z)))
