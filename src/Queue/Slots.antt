-- ===== src/Queue/Slots.antt =====
-- The keys of one queue as slots, and their comparison: message keys keep both the equality
-- and the order of the message identifiers.
use remix.Base.{
  ◌≡◌, refl, ◌∙◌, Bool, true, false, ◌++◌, Text, bytes, text_eq, text_lt, text_eq-append,
  text_lt-append,
}
use remix.Queue.Keys.{
  prefix, queue_key, processing_key, dead_letter_key, delayed_key, stats_key, message_key,
}

pub data Slot : Type 0 where
  pending processing dead delayed stats : Slot
  message : Text → Slot

abbrev suffix : Slot → Text
suffix pending = bytes "pending"
suffix processing = bytes "processing"
suffix dead = bytes "dead_letter"
suffix delayed = bytes "delayed"
suffix stats = bytes "stats"
suffix (message id) = bytes "message:" ++ id

abbrev pub same : Slot → Slot → Bool
same pending pending = true
same processing processing = true
same dead dead = true
same delayed delayed = true
same stats stats = true
same (message i) (message j) = text_eq i j
same _ _ = false

abbrev pub key : Text → Slot → Text
key n pending = queue_key n
key n processing = processing_key n
key n dead = dead_letter_key n
key n delayed = delayed_key n
key n stats = stats_key n
key n (message id) = message_key n id

key-suffix : (n : Text) (s : Slot) → key n s ≡ prefix n ++ suffix s
unfolding queue_key processing_key dead_letter_key delayed_key stats_key message_key
key-suffix n pending = refl
key-suffix n _ = refl

suffix_eq : (s t : Slot) → text_eq (suffix s) (suffix t) ≡ same s t
unfolding text_eq
suffix_eq pending pending = refl
suffix_eq pending _ = refl
suffix_eq processing processing = refl
suffix_eq dead dead = refl
suffix_eq delayed delayed = refl
suffix_eq stats stats = refl
suffix_eq (message i) (message j) = refl
suffix_eq _ _ = refl

-- Two keys of a queue are equal exactly when they are the same slot.
pub key_eq : (n : Text) (s t : Slot) → text_eq (key n s) (key n t) ≡ same s t
key_eq n s t =
    rw (key-suffix n s, key-suffix n t)
      (text_eq-append (prefix n) (suffix s) (suffix t) ∙ suffix_eq s t)

-- Message keys keep the equality of identifiers.
pub message_key_eq : (n i j : Text) → text_eq (message_key n i) (message_key n j) ≡ text_eq i j
message_key_eq n i j = key_eq n (message i) (message j)

pub message_key_lt : (n i j : Text) → text_lt (message_key n i) (message_key n j) ≡ text_lt i j
unfolding message_key text_lt
message_key_lt n i j = text_lt-append (prefix n) (bytes "message:" ++ i) (bytes "message:" ++ j)
