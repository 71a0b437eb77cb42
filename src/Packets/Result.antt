-- ===== src/Packets/Result.antt =====
-- Go's (value, error) pairs of packets/, as values, and readers over a byte buffer.
use paho_golang.Common.{ℕ, ◌⊎◌, inl, inr, ◌≡◌, refl, List}

-- A byte slice, a Go string and the unread part of a bytes.Buffer: numbers below 256.
abbrev pub Bytes : Type 0
Bytes = List ℕ

-- `eof` and `unexpected_eof` are io.EOF and io.ErrUnexpectedEOF; the others are the errors that
-- packets.go and properties.go make. `panicked` is an index out of range, and `out_of_fuel` is no
-- Go value: a loop of the model that has used up its fuel.
pub data Error : Type 0 where
  eof unexpected_eof malformed_vbi invalid_vbi_length panicked out_of_fuel : Error
  invalid_prop unknown_prop : ℕ → Error
  unknown_packet : ℕ → Error

-- A pair with a nil error, or an error whose value nobody reads.
pub data Result {ℓ} (Value : Type ℓ) : Type ℓ where
  err : (problem : Error) → Result Value
  ok : (value : Value) → Result Value

module _ {ℓ κ} {A : Type ℓ} {B : Type κ} where
  infixl 10 ◌>>=◌
  -- `x, err := m; if err != nil { return err }`, and `next` on x.
  abbrev pub ◌>>=◌ : Result A → (A → Result B) → Result B
  err problem >>= next = err problem
  ok value >>= next = next value

  -- What succeeds as a whole has succeeded in its first part.
  pub >>=-eq-ok :
      (first : Result A) (next : A → Result B) {y : B}
      → (first >>= next) ≡ ok y
      → (x : A) × (first ≡ ok x) × (next x ≡ ok y)
  >>=-eq-ok (err problem) next e = cc
  >>=-eq-ok (ok value) next e = (value, refl, e)

-- What is read, with what is left of the buffer.
abbrev pub Reader : Type 0 → Type 0
Reader A = Bytes → Result (A × Bytes)

pub Result-cases {ℓ} :
    {A : Type ℓ} (r : Result A) → ((a : A) × (r ≡ ok a)) ⊎ ((x : Error) × (r ≡ err x))
Result-cases (err x) = inr (x, refl)
Result-cases (ok a) = inl (a, refl)
