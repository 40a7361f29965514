-- ===== src/Lock/Tests/Setup.antt =====
-- JSON documents, locks and a server for the tests.
use remix.Base.{ℕ, zero, suc, ◌*◌, ◌≡◌, ◌∙◌, refl, false, [], ◌∷◌, Option, none, some, Text, bytes}
use remix.Base.Framing.{framed, read_text, read_text-append, with_text}
use remix.Redis.Memory.{memory, fresh}
use remix.Redis.Value.{counts}
use remix.Redis.Client.{Env}
use remix.Lock.Types.{Document, Stamp, rfc3339, number, Json, default_lock_config, second}
use remix.Lock.Ops.{Lock, World, Round}
use remix.Lock.View.{View, Online}

write_stamp : Stamp → Text → Text
write_stamp (rfc3339 s) rest = 0 ∷ framed s rest
write_stamp (number n) rest = 1 ∷ n ∷ rest

with_stamp : Option (Stamp × Text) → (Stamp → Text → Option Document) → Option Document
with_stamp none f = none
with_stamp (some (t, rest)) f = f t rest

read_rfc3339 : Option (Text × Text) → Option (Stamp × Text)
read_rfc3339 none = none
read_rfc3339 (some (s, rest)) = some (rfc3339 s, rest)

read_stamp : Text → Option (Stamp × Text)
read_stamp (zero ∷ n ∷ s) = read_rfc3339 (read_text n s)
read_stamp ((suc k) ∷ n ∷ s) = some (number n, s)
read_stamp _ = none

read_stamp-write_stamp :
    (t : Stamp) (rest : Text) → read_stamp (write_stamp t rest) ≡ some (t, rest)
unfolding read_stamp write_stamp framed read_rfc3339
read_stamp-write_stamp (rfc3339 s) rest = rw (read_text-append s rest) refl
read_stamp-write_stamp (number n) rest = refl

next_text : Text → (Text → Text → Option Document) → Option Document
next_text [] f = none
next_text (n ∷ s) f = with_text (read_text n s) f

next_text-framed :
    (t rest : Text) (f : Text → Text → Option Document) → next_text (framed t rest) f ≡ f t rest
unfolding next_text framed
next_text-framed t rest f = rw (read_text-append t rest) refl

next_stamp-write_stamp :
    (t : Stamp) (rest : Text) (f : Stamp → Text → Option Document)
    → with_stamp (read_stamp (write_stamp t rest)) f ≡ f t rest
unfolding with_stamp
next_stamp-write_stamp t rest f = rw (read_stamp-write_stamp t rest) refl

count_last : (ℕ → Document) → Text → Option Document
count_last f (n ∷ []) = some (f n)
count_last f _ = none

pub write : Document → Text
write x = framed x.name (
    framed x.owner (
      framed x.thread_id (
        write_stamp x.acquire_time
          (write_stamp x.expire_time (write_stamp x.last_renewal_time (x.hold_count ∷ []))))))

pub read : Text → Option Document
read s = next_text s λ name s. next_text s λ owner s. next_text s λ thread_id s.
    with_stamp (read_stamp s) λ acquired s. with_stamp (read_stamp s) λ expires s.
      with_stamp (read_stamp s) λ renewed s.
        count_last
          (λ n. record {
            name = name;
            owner = owner;
            thread_id = thread_id;
            hold_count = n;
            acquire_time = acquired;
            expire_time = expires;
            last_renewal_time = renewed;
          })
          s

read-write : (x : Document) → read (write x) ≡ some x
unfolding read write count_last
read-write x =
    next_text-framed x.name _ _
    ∙ next_text-framed x.owner _ _
    ∙ next_text-framed x.thread_id _ _
    ∙ next_stamp-write_stamp x.acquire_time _ _
    ∙ next_stamp-write_stamp x.expire_time _ _
    ∙ next_stamp-write_stamp x.last_renewal_time _ _

pub round_trip : (x : Document) (s : Text) → some (write x) ≡ some s → read s ≡ some x
round_trip x s e = let p : write x ≡ s = cc e in rw (← p) (read-write x)

-- A time is the letter T and its nanoseconds.
abbrev parse : Text → Option ℕ
parse (c ∷ t ∷ []) = some t
parse _ = none

unfoldable pub json : Json
unfolding write read write_stamp with_stamp read_stamp read_rfc3339 next_text count_last framed
    read_text
json = record {
  encode = λ x. some (write x);
  decode = read;
  decode-encode = round_trip;
  format_time = λ t. 84 ∷ t ∷ [];
  parse_time = parse;
  parse-format = λ t. refl;
  to_number = λ s. none;
  to_number-format = λ t. refl;
}

abbrev pub alice : Lock
alice = record {
  name = bytes "door";
  config = default_lock_config;
  owner = bytes "alice";
  thread_id = bytes "1";
}

abbrev pub bob : Lock
bob = record {
  name = bytes "door";
  config = default_lock_config;
  owner = bytes "bob";
  thread_id = bytes "1";
}

unfoldable pub quiet : Env memory.Db
quiet = record { db = fresh; net = [] }

unfoldable pub idle : World memory.Db
unfolding quiet
idle = record { env = quiet; hold_count = 0; tasks = 0; stale = 0 }

unfoldable pub free : View
free = record { stored = none; stats = [] }

pub free-Online : Online memory (bytes "door") free quiet
unfolding quiet free counts
free-Online = record { holds = record { stored = refl; stats = refl }; net = refl }

-- A hundred seconds after the epoch.
abbrev pub start : ℕ
start = 100 * second

abbrev pub round : Round memory.Db
round = record { now = start; since = 0; done = false; meanwhile = λ d. d }
