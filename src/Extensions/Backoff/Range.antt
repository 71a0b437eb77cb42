-- ===== src/Extensions/Backoff/Range.antt =====
-- autopaho/backoff.go: the range of a backoff.
use mathlib.Core.Path.{subst}
use paho_golang.Common.{
  ℕ, zero, suc, ◌+◌, ◌-◌, ◌*◌, ◌≤◌, ◌<◌, ◌≡◌, inl, inr, refl, Bool, true, false, ◌||◌, if_each,
  Option, none, some, Option-cases, ltb, leb, lt→ltb, arith,
}
use paho_golang.Common.Int.{ℤ, pos, negsuc}
use paho_golang.Extensions.Backoff.{
  Limits, millis, refuses, moved, moving_max, compute_max_delay, rand_range, exponential_backoff,
}

abbrev Between : ℕ → ℕ → ℕ → Type 0
Between low high m = (low ≤ m) × (m ≤ high)

not_or : (a b : Bool) → (a || b) ≡ false → (a ≡ false) × (b ≡ false)
not_or false b e = (refl, e)
not_or true b e = ground arith

-- Every factor of the moving maximum that the loop keeps.
abbrev KeptBetween : ℕ → ℕ → Option ℕ → Type 0
KeptBetween low high none = Unit {0}
KeptBetween low high (some m) = Between low high m

moved-KeptBetween :
    (l : Limits) (z : ℤ) → KeptBetween (millis l.min_delay) (millis l.max_delay) (moved l z)
moved-KeptBetween l (negsuc n) = record {}
moved-KeptBetween l (pos k) =
    let low = millis l.min_delay in
    let high = millis l.max_delay in
    if_each (KeptBetween low high) (ltb high k || ltb k low) (λ e. record {})
      (λ e.
        let (not_high, not_low) = not_or (ltb high k) (ltb k low) e in (ground arith, ground arith))

moved-Between :
    (l : Limits) (z : ℤ) (m : ℕ)
    → moved l z ≡ some m
    → Between (millis l.min_delay) (millis l.max_delay) m
moved-Between l z m e =
    subst (KeptBetween (millis l.min_delay) (millis l.max_delay)) e (moved-KeptBetween l z)

moving_max-Between :
    (grow : ℕ → ℤ) (l : Limits) (n m : ℕ)
    → l.min_delay ≤ l.max_delay
    → Between (millis l.min_delay) (millis l.max_delay) m
    → Between (millis l.min_delay) (millis l.max_delay) (moving_max grow l n m)
unfolding moving_max
moving_max-Between grow l zero m h b = b
moving_max-Between grow l (suc n) m h b = elim (Option-cases (moved l (grow m))) [
  | inl e ↦ rw (moving_max, e) (omega (arith, h), omega arith)
  | inr (m', e) ↦
      rw (moving_max, e) (moving_max-Between grow l n m' h (moved-Between l (grow m) m' e))
]

millis_mono : (a b : ℕ) → a ≤ b → millis a ≤ millis b
millis_mono a b h = omega (arith, h)

-- What NewExponentialBackoff does not panic on.
made_within :
    (l : Limits)
    → refuses l false ≡ false
    → (0 < l.min_delay)
      × (l.min_delay < l.max_delay)
      × (l.min_delay ≤ l.initial_max_delay)
      × (l.initial_max_delay ≤ l.max_delay)
unfolding refuses
made_within l e =
    let a = leb l.min_delay 0 in
    let b = leb l.max_delay l.min_delay in
    let c = ltb l.initial_max_delay l.min_delay in
    let d = ltb l.max_delay l.initial_max_delay in
    let (e1, low) = not_or (((a || b) || c) || d) false e in
    let (e2, fd) = not_or ((a || b) || c) d e1 in
    let (e3, fc) = not_or (a || b) c e2 in
    let (fa, fb) = not_or a b e3 in (ground arith, ground arith, ground arith, ground arith)

-- An exponential backoff never panics once it has been made, and every attempt from the first retry
-- on waits, in whole milliseconds, at least the minimal and at most the maximal delay. What
-- rand.Int63n draws is below its argument.
pub exponential_backoff-range :
    (grow : ℕ → ℤ) (draw : ℕ → ℕ) (l : Limits) (n : ℕ)
    → refuses l false ≡ false
    → ((k : ℕ) → 0 < k → draw k < k)
    → (d : ℕ) × (exponential_backoff grow draw l (pos (suc n)) ≡ some (d * 1000000))
      × Between (millis l.min_delay) (millis l.max_delay) d
unfolding exponential_backoff compute_max_delay rand_range refuses
exponential_backoff-range grow draw l n made fair =
    let (low_max, ordered, starts_above, starts_below) = made_within l made in
    let low = millis l.min_delay in
    let m = compute_max_delay grow l (suc n) in
    let (above, below) =
      moving_max-Between grow l (suc n - 1) (millis l.initial_max_delay) (omega (arith, ordered)) (
        millis_mono l.min_delay l.initial_max_delay starts_above,
        millis_mono l.initial_max_delay l.max_delay starts_below,
      ) in
    let nonempty : ltb low (m + 1) ≡ true = lt→ltb low (m + 1) (omega (arith, above)) in
    let drawn = fair (m + 1 - low) (omega (arith, above)) in
    (
      draw (m + 1 - low) + low,
      rw (exponential_backoff, nonempty) refl,
      (omega arith, omega (arith, drawn, above, below)),
    )
