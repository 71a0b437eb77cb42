-- ===== src/Common/Maps.antt =====
-- Go maps with integer keys, as lists of keys and values.
use Prim.Native.Nat.{ℕ}
use mathlib.Core.Path.{◌≡◌}
use mathlib.Core.Option.{Option, none, some}
use mathlib.Core.List.{List, [], ◌∷◌}
use native.Mathlib.Omega.{arith}
use paho_golang.Common.Tests.{◌==◌, if◌then◌else◌}

module _ {ℓ} {A : Type ℓ} where
  -- `v, ok := m[k]`
  unfoldable pub lookup : ℕ → List (ℕ × A) → Option A
  lookup k [] = none
  lookup k ((j, v) ∷ m) = let rest = lookup k m in if k == j then some v else rest

  -- delete(m, k)
  unfoldable pub without : ℕ → List (ℕ × A) → List (ℕ × A)
  without k [] = []
  without k ((j, v) ∷ m) = let rest = without k m in if k == j then rest else (j, v) ∷ rest

  -- m[k] = v
  unfoldable pub insert : ℕ → A → List (ℕ × A) → List (ℕ × A)
  unfolding without
  insert k v m = (k, v) ∷ without k m

  pub lookup-without :
      (j k : ℕ) (m : List (ℕ × A)) → lookup j (without k m) ≡ (if j == k then none else lookup j m)
  unfolding lookup without
  lookup-without j k [] = ground arith
  lookup-without j k ((i, v) ∷ m) = ground (arith, lookup-without j k m)

  pub lookup-insert :
      (j k : ℕ) (v : A) (m : List (ℕ × A))
      → lookup j (insert k v m) ≡ (if j == k then some v else lookup j m)
  unfolding lookup insert
  lookup-insert j k v m = ground (arith, lookup-without j k m)
