-- ===== src/FairLock/Types.antt =====
-- Scores and statistics of the fair lock (lock/fair_lock.go, lock/types.go).
use remix.Base.{ℕ, ◌≤◌, ◌≡◌, Bool, Text, bytes, ℤ}

-- A score is a floating-point number: `double` is the nearest one to a natural number. Numbers up
-- to 2^53 are exact, a floating-point number is its own nearest, and rounding keeps the order.
pub record Doubles : Type 0 where
  pub double : ℕ → ℕ
  pub exact : (n : ℕ) → n ≤ 9007199254740992 → double n ≡ n
  pub again : (n : ℕ) → double (double n) ≡ double n
  pub ordered : (m n : ℕ) → m ≤ n → double m ≤ double n

pub record LockStats : Type 0 where
  pub name : Text
  pub is_locked : Bool
  pub owner : Text
  pub hold_count : ℕ
  pub remaining_ttl : ℤ
  pub waiting_threads : ℕ
  pub total_acquired : ℕ
  pub total_released : ℕ
  pub total_timeout : ℕ

abbrev pub total_timeout_field : Text
total_timeout_field = bytes "total_timeout"
