-- ===== src/RwLock/Tests/Setup.antt =====
-- JSON objects, lock objects and a server for the tests.
use remix.Base.{false, ℕ, zero, suc, ◌*◌, ◌≡◌, ◌∙◌, refl, [], ◌∷◌, Option, none, some, Text, bytes}
use remix.Base.Framing.{framed, read_text, read_text-append, with_text}
use remix.Redis.Memory.{memory, fresh}
use remix.Redis.Value.{counts}
use remix.Redis.Client.{Env}
use remix.Lock.Types.{Stamp, rfc3339, number, default_lock_config, second}
use remix.Lock.Ops.{Round}
use remix.RwLock.Types.{Object, Objects}
use remix.RwLock.Keys
use remix.RwLock.Keys.{Slot, key}
use remix.RwLock.Ops.{RwLock, ReadLock, WriteLock}
use remix.RwLock.View.{View, At, Online}

write_text : Option Text → Text → Text
write_text none rest = 0 ∷ rest
write_text (some s) rest = 1 ∷ framed s rest

write_number : Option ℕ → Text → Text
write_number none rest = 0 ∷ rest
write_number (some n) rest = 1 ∷ n ∷ rest

write_stamp : Option Stamp → Text → Text
write_stamp none rest = 0 ∷ rest
write_stamp (some (rfc3339 s)) rest = 1 ∷ framed s rest
write_stamp (some (number n)) rest = 2 ∷ n ∷ rest

next_text : Text → (Option Text → Text → Option Object) → Option Object
next_text (zero ∷ s) f = f none s
next_text ((suc k) ∷ n ∷ s) f = with_text (read_text n s) λ t rest. f (some t) rest
next_text _ f = none

next_number : Text → (Option ℕ → Text → Option Object) → Option Object
next_number (zero ∷ s) f = f none s
next_number ((suc k) ∷ n ∷ s) f = f (some n) s
next_number _ f = none

next_stamp : Text → (Option Stamp → Text → Option Object) → Option Object
next_stamp (zero ∷ s) f = f none s
next_stamp ((suc zero) ∷ n ∷ s) f = with_text (read_text n s) λ t rest. f (some (rfc3339 t)) rest
next_stamp ((suc (suc k)) ∷ n ∷ s) f = f (some (number n)) s
next_stamp _ f = none

next_text-write_text :
    (o : Option Text) (rest : Text) (f : Option Text → Text → Option Object)
    → next_text (write_text o rest) f ≡ f o rest
unfolding next_text write_text framed
next_text-write_text none rest f = refl
next_text-write_text (some t) rest f = rw (read_text-append t rest) refl

next_number-write_number :
    (o : Option ℕ) (rest : Text) (f : Option ℕ → Text → Option Object)
    → next_number (write_number o rest) f ≡ f o rest
unfolding next_number write_number
next_number-write_number none rest f = refl
next_number-write_number (some n) rest f = refl

next_stamp-write_stamp :
    (o : Option Stamp) (rest : Text) (f : Option Stamp → Text → Option Object)
    → next_stamp (write_stamp o rest) f ≡ f o rest
unfolding next_stamp write_stamp framed
next_stamp-write_stamp none rest f = refl
next_stamp-write_stamp (some (rfc3339 t)) rest f = rw (read_text-append t rest) refl
next_stamp-write_stamp (some (number n)) rest f = refl

pub write : Object → Text
write x = write_text x.name (
    write_text x.owner (
      write_text x.thread_id (
        write_number x.hold_count (
          write_stamp x.acquire_time
            (write_stamp x.expire_time (write_stamp x.last_renewal_time []))))))

pub read : Text → Option Object
read s = next_text s λ name s. next_text s λ owner s. next_text s λ thread_id s.
    next_number s λ count s. next_stamp s λ acquired s. next_stamp s λ expires s.
      next_stamp s λ renewed s. some (record {
        name = name;
        owner = owner;
        thread_id = thread_id;
        hold_count = count;
        acquire_time = acquired;
        expire_time = expires;
        last_renewal_time = renewed;
      })

pub read-write : (x : Object) → read (write x) ≡ some x
unfolding read write
read-write x =
    next_text-write_text x.name _ _
    ∙ next_text-write_text x.owner _ _
    ∙ next_text-write_text x.thread_id _ _
    ∙ next_number-write_number x.hold_count _ _
    ∙ next_stamp-write_stamp x.acquire_time _ _
    ∙ next_stamp-write_stamp x.expire_time _ _
    ∙ next_stamp-write_stamp x.last_renewal_time _ _

unfoldable pub objects : Objects
unfolding write read write_text write_number write_stamp next_text next_number next_stamp framed
    read_text
objects = record { encode = write; decode = read; decode-encode = read-write }

abbrev pub door : RwLock
door = record { name = bytes "door"; config = default_lock_config }

abbrev pub alice : ReadLock
alice = record { rw_lock = door; owner = bytes "alice"; thread_id = bytes "1" }

-- A read lock whose lease is half a second.
abbrev pub hasty : ReadLock
hasty = record {
  rw_lock = record {
    name = bytes "door";
    config = record default_lock_config { lease_duration = 500000000 };
  };
  owner = bytes "carol";
  thread_id = bytes "1";
}

-- A read lock that waits without end.
abbrev pub patient : ReadLock
patient = record {
  rw_lock = record {
    name = bytes "door";
    config = record default_lock_config { wait_timeout = 0 };
  };
  owner = bytes "dave";
  thread_id = bytes "1";
}

abbrev pub bob : WriteLock
bob = record { rw_lock = door; owner = bytes "bob"; thread_id = bytes "1" }

unfoldable pub quiet : Env memory.Db
quiet = record { db = fresh; net = [] }

abbrev pub free : View
free = record { readers = []; counts = []; writer = none; stats = [] }

free-At : (s : Slot) → At s (fresh (key (bytes "door") s)) free
unfolding counts
free-At Keys.readers = refl
free-At Keys.counts = refl
free-At Keys.writer = refl
free-At Keys.stats = refl

pub free-Online : Online memory (bytes "door") free quiet
unfolding quiet
free-Online = record { holds = record { at = free-At }; net = refl }

-- A hundred seconds after the epoch.
abbrev pub start : ℕ
start = 100 * second

abbrev pub round_at : ℕ → Round memory.Db
round_at now = record { now = now; since = 0; done = false; meanwhile = λ d. d }
