-- ===== src/RwLock/Keys.antt =====
-- The key names of lock/rwlock.go, and their comparison.
use remix.Base.{◌≡◌, refl, ◌∙◌, Bool, true, false, ◌++◌, Text, bytes, text_eq, text_eq-append}

unfoldable pub prefix : Text → Text
prefix name = bytes "rwlock:" ++ (name ++ bytes ":")

unfoldable pub read_lock_key : Text → Text
read_lock_key name = prefix name ++ bytes "read"

unfoldable pub write_lock_key : Text → Text
write_lock_key name = prefix name ++ bytes "write"

unfoldable pub read_count_key : Text → Text
read_count_key name = prefix name ++ bytes "read_count"

unfoldable pub stats_key : Text → Text
stats_key name = prefix name ++ bytes "stats"

abbrev pub total_read_acquired : Text
total_read_acquired = bytes "total_read_acquired"

abbrev pub total_read_released : Text
total_read_released = bytes "total_read_released"

abbrev pub total_write_acquired : Text
total_write_acquired = bytes "total_write_acquired"

abbrev pub total_write_released : Text
total_write_released = bytes "total_write_released"

pub data Slot : Type 0 where
  readers counts writer stats : Slot

abbrev suffix : Slot → Text
suffix readers = bytes "read"
suffix counts = bytes "read_count"
suffix writer = bytes "write"
suffix stats = bytes "stats"

abbrev pub same : Slot → Slot → Bool
same readers readers = true
same counts counts = true
same writer writer = true
same stats stats = true
same _ _ = false

abbrev pub key : Text → Slot → Text
key n readers = read_lock_key n
key n counts = read_count_key n
key n writer = write_lock_key n
key n stats = stats_key n

key-suffix : (n : Text) (s : Slot) → key n s ≡ prefix n ++ suffix s
unfolding read_lock_key write_lock_key read_count_key stats_key
key-suffix n readers = refl
key-suffix n _ = refl

suffix_eq : (s t : Slot) → text_eq (suffix s) (suffix t) ≡ same s t
unfolding text_eq
suffix_eq readers readers = refl
suffix_eq readers _ = refl
suffix_eq counts counts = refl
suffix_eq writer writer = refl
suffix_eq stats stats = refl
suffix_eq _ _ = refl

-- Two keys of a lock are equal exactly when they are the same slot.
pub key_eq : (n : Text) (s t : Slot) → text_eq (key n s) (key n t) ≡ same s t
key_eq n s t =
    rw (key-suffix n s, key-suffix n t)
      (text_eq-append (prefix n) (suffix s) (suffix t) ∙ suffix_eq s t)

pub same→eq : (s t : Slot) → same s t ≡ true → s ≡ t
same→eq readers readers h = refl
same→eq counts counts h = refl
same→eq writer writer h = refl
same→eq stats stats h = refl
same→eq readers counts h = cc
same→eq readers writer h = cc
same→eq readers stats h = cc
same→eq counts readers h = cc
same→eq counts writer h = cc
same→eq counts stats h = cc
same→eq writer readers h = cc
same→eq writer counts h = cc
same→eq writer stats h = cc
same→eq stats readers h = cc
same→eq stats counts h = cc
same→eq stats writer h = cc
