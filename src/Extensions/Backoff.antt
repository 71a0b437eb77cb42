-- ===== src/Extensions/Backoff.antt =====
-- autopaho/backoff.go. Durations are numbers of nanoseconds. The product of a float32 and its
-- conversion to int64 are the argument `grow`, and rand.Int63n is the argument `draw`.
pub mod Range
use paho_golang.Common.{
  ℕ, zero, suc, ◌+◌, ◌-◌, ◌*◌, ◌/◌, Bool, true, false, ◌||◌, if◌then◌else◌, Option, none, some, ltb,
  leb,
}
use paho_golang.Common.Int.{ℤ, pos, negsuc}

-- NewConstantBackoff: attempts are counted from 0, and a negative attempt is as 0.
unfoldable pub constant_backoff : ℕ → ℤ → ℕ
constant_backoff delay (pos zero) = 0
constant_backoff delay (pos (suc n)) = delay
constant_backoff delay (negsuc n) = 0

-- The parameters of an exponential backoff; the factor is in `grow`.
pub record Limits : Type 0 where
  pub min_delay : ℕ
  pub max_delay : ℕ
  pub initial_max_delay : ℕ

-- Milliseconds
abbrev pub millis : ℕ → ℕ
millis d = d / 1000000

-- Whether NewExponentialBackoff panics; `factor_low` is `factor <= 1`.
unfoldable pub refuses : Limits → Bool → Bool
refuses l factor_low =
    leb l.min_delay 0
    || leb l.max_delay l.min_delay
    || ltb l.initial_max_delay l.min_delay
    || ltb l.max_delay l.initial_max_delay
    || factor_low

-- The test of the loop: the maximum goes on moving, or stops at the limit.
abbrev pub moved : Limits → ℤ → Option ℕ
moved l (negsuc n) = none
moved l (pos m) = if ltb (millis l.max_delay) m || ltb m (millis l.min_delay) then none else some m

-- The loop of computeMaxDelayForAttempt, for the rounds that are left.
unfoldable pub moving_max : (ℕ → ℤ) → Limits → ℕ → ℕ → ℕ
moving_max grow l zero m = m
moving_max grow l (suc n) m = elim (moved l (grow m)) [
  | none ↦ millis l.max_delay
  | some m' ↦ moving_max grow l n m'
]

-- computeMaxDelayForAttempt, for an attempt of 1 or more: the rounds are 1 ≤ i < attempt.
unfoldable pub compute_max_delay : (ℕ → ℤ) → Limits → ℕ → ℕ
unfolding moving_max
compute_max_delay grow l attempt = moving_max grow l (attempt - 1) (millis l.initial_max_delay)

-- randRange, where Int63n panics unless its argument is positive.
unfoldable pub rand_range : (ℕ → ℕ) → (start end_ : ℕ) → Option ℕ
rand_range draw start end_ =
    if ltb start (end_ + 1) then some (draw (end_ + 1 - start) + start) else none

-- The backoff that NewExponentialBackoff returns; none is a panic.
unfoldable pub exponential_backoff : (ℕ → ℤ) → (ℕ → ℕ) → Limits → ℤ → Option ℕ
unfolding compute_max_delay rand_range
exponential_backoff grow draw l (negsuc n) = some 0
exponential_backoff grow draw l (pos zero) = some 0
exponential_backoff grow draw l (pos (suc n)) =
    elim (rand_range draw (millis l.min_delay) (compute_max_delay grow l (suc n))) [
      | none ↦ none
      | some d ↦ some (d * 1000000)
    ]

-- DefaultExponentialBackoff, but for the factor, 1.5.
abbrev pub default_limits : Limits
default_limits = record {
  min_delay = 5 * 1000000000;
  max_delay = 10 * 60 * 1000000000;
  initial_max_delay = 10 * 1000000000;
}
