-- ===== src/Queue/Tests/Setup.antt =====
-- A codec, a queue and a server for the tests.
use Prim.Native.Nat.{◌+◌}
use remix.Base.{ℕ, ◌*◌, ◌≡◌, refl, [], ◌∷◌, Option, none, some, Text, bytes, count, arith}
use remix.Base.Framing.{framed, read_text, read_text-append, with_text}
use remix.Redis.Counts.{zcount}
use remix.Redis.Memory.{memory, fresh}
use remix.Redis.Value.{counts}
use remix.Redis.Client.{Env}
use remix.Queue.Types.{Message, Queue, Codec, default_config, unix_epoch, second}
use remix.Queue.View.{View}
use remix.Queue.Spec.Places.{places}
use remix.Queue.Refine.Online.{Online}
use remix.Queue.Sound.{IsTotal, Sound}

pub write : Message → Text
write m = framed m.id (
    framed m.body
      (m.enqueue_time ∷ m.visible_time ∷ m.dequeue_time ∷ m.retry_count ∷ m.max_retries ∷ []))

read_times : Text → Text → Text → Option Message
read_times id body (e ∷ v ∷ d ∷ c ∷ m ∷ []) = some (record {
  id = id;
  body = body;
  enqueue_time = e;
  visible_time = v;
  dequeue_time = d;
  retry_count = c;
  max_retries = m;
})
read_times id body _ = none

read_body : Text → Text → Option Message
read_body id [] = none
read_body id (n ∷ s) = with_text (read_text n s) (read_times id)

pub read : Text → Option Message
read [] = none
read (n ∷ s) = with_text (read_text n s) read_body

read-write : (m : Message) → read (write m) ≡ some m
unfolding framed read read_body read_times write
read-write m = rw (
  read_text-append m.id _,
  read_text-append m.body
      (m.enqueue_time ∷ m.visible_time ∷ m.dequeue_time ∷ m.retry_count ∷ m.max_retries ∷ []),
)

pub codec_round_trip : (m : Message) (s : Text) → some (write m) ≡ some s → read s ≡ some m
codec_round_trip m s e = let p : write m ≡ s = cc e in rw (← p) (read-write m)

unfoldable pub codec : Codec Message
unfolding framed read_text write read read_body read_times
codec = record { marshal = λ m. some (write m); unmarshal = read; round_trip = codec_round_trip }

pub codec-IsTotal : IsTotal codec
unfolding codec
codec-IsTotal m = (write m, refl)

abbrev pub jobs : Queue
jobs = record { name = bytes "jobs"; config = default_config }

-- Ten seconds after the epoch.
abbrev pub start : ℕ
start = (unix_epoch + 10) * second

unfoldable pub quiet : Env (memory.Db)
quiet = record { db = fresh; net = [] }

unfoldable pub empty : View
empty = record {
  pending = [];
  processing = [];
  delayed = [];
  dead = [];
  stats = [];
  message = λ id. none;
}

pub empty-Online : Online memory jobs.name empty quiet
unfolding empty quiet counts
empty-Online = record {
  holds = record {
    pending = refl;
    processing = refl;
    delayed = refl;
    dead = refl;
    stats = refl;
    message = λ id. refl;
  };
  net = refl;
}

pub empty-Sound : Sound codec empty
unfolding empty places count zcount
empty-Sound = record { once = λ k. omega arith; readable = λ k h. absurd (omega arith) }
