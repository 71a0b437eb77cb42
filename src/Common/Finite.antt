-- ===== src/Common/Finite.antt =====
-- Statements over finitely many values, checked by evaluation.
use Prim.Native.Nat.{ℕ, zero, suc, ◌+◌, ◌≤◌, ◌<◌}
use mathlib.Core.Path.{◌≡◌}
use mathlib.Core.Bool.{Bool, true, false, ◌&&◌}
use native.Mathlib.Omega.{arith}

-- The numbers from `low` on, `count` of them.
unfoldable pub all_from : (low count : ℕ) → (ℕ → Bool) → Bool
all_from low zero test = true
all_from low (suc count) test = test low && all_from (low + 1) count test

all_from_lem :
    (low count : ℕ) (test : ℕ → Bool) (k : ℕ)
    → low ≤ k
    → k < low + count
    → all_from low count test ≡ true
    → test k ≡ true
unfolding all_from
all_from_lem low zero test k l h e = ground arith
all_from_lem low (suc count) test k l h e = ground (arith, all_from_lem (low + 1) count test k)

pub all_from_zero :
    (count : ℕ) (test : ℕ → Bool) (k : ℕ) → all_from 0 count test ≡ true → k < count → test k ≡ true
all_from_zero count test k e h = all_from_lem 0 count test k (omega arith) (omega arith) e

abbrev pub all_bools : (Bool → Bool) → Bool
all_bools test = test true && test false

pub all_bools_sound : (test : Bool → Bool) (b : Bool) → all_bools test ≡ true → test b ≡ true
all_bools_sound test true e = ground arith
all_bools_sound test false e = ground arith
