-- ===== src/Packets/Wire/Progress.antt =====
-- No reader of Wire leaves more than it was given.
use paho_golang.Common.{
  ℕ, zero, suc, ◌+◌, ◌*◌, ◌%◌, ◌^◌, ◌≤◌, ◌≡◌, [], ◌∷◌, length, length-drop, arith, Bool, true,
  false, if◌then◌else◌,
}
use paho_golang.Packets.Result.{Bytes, Reader, ok, err, Error, ◌>>=◌, >>=-eq-ok}
use paho_golang.Packets.Wire.{
  read_byte, read_full, read_uint16, read_uint32, read_binary, read_string, decode_vbi_loop,
  decode_vbi,
}

-- What is left is no longer than the input.
pub record Shrinks {A : Type 0} (r : Reader A) : Type 0 where
  pub bound : (bs : Bytes) (a : A) (rest : Bytes) → r bs ≡ ok (a, rest) → length rest ≤ length bs

pub bind-Shrinks :
    {A B : Type 0} (r : Reader A) (k : A → Reader B)
    → Shrinks r
    → ((a : A) → Shrinks (k a))
    → Shrinks (λ bs. r bs >>= λ x. k x.0 x.1)
bind-Shrinks r k hr hk = record {
  bound = λ bs b rest e.
      let (x, first, then_k) = >>=-eq-ok (r bs) (λ x. k x.0 x.1) e in
      omega (arith, hr.bound bs x.0 x.1 first, (hk x.0).bound x.1 b rest then_k);
}

pub ok-Shrinks : {A : Type 0} (a : A) → Shrinks (λ bs. ok (a, bs))
ok-Shrinks a = record { bound = λ bs b rest e. ground arith }

pub err-Shrinks : {A : Type 0} (x : Error) → Shrinks {A = A} (λ bs. err x)
err-Shrinks x = record { bound = λ bs b rest e. cc }

pub if-Shrinks :
    {A : Type 0} (c : Bool) (r s : Reader A) → Shrinks r → Shrinks s → Shrinks (if c then r else s)
if-Shrinks true r s hr hs = hr
if-Shrinks false r s hr hs = hs

abbrev Bound : {A : Type 0} → Reader A → Type 0
Bound {A} r = (bs : Bytes) (a : A) (rest : Bytes) → r bs ≡ ok (a, rest) → length rest ≤ length bs

read_byte-Bound : Bound read_byte
unfolding read_byte
read_byte-Bound [] b rest e = cc
read_byte-Bound (x ∷ bs) b rest e = ground arith

pub read_byte-Shrinks : Shrinks read_byte
read_byte-Shrinks = record { bound = read_byte-Bound }

read_full-Bound : (n : ℕ) → Bound (read_full n)
unfolding read_full
read_full-Bound zero bs a rest e = ground arith
read_full-Bound (suc n) [] a rest e = cc
read_full-Bound (suc n) (b ∷ bs) a rest e = ground (arith, length-drop n bs)

pub read_full-Shrinks : (n : ℕ) → Shrinks (read_full n)
read_full-Shrinks n = record { bound = read_full-Bound n }

pub read_uint16-Shrinks : Shrinks read_uint16
unfolding read_uint16
read_uint16-Shrinks =
    bind-Shrinks read_byte _ read_byte-Shrinks
      (λ b1. bind-Shrinks read_byte _ read_byte-Shrinks (λ b2. ok-Shrinks _))

pub read_uint32-Shrinks : Shrinks read_uint32
unfolding read_uint32
read_uint32-Shrinks = bind-Shrinks read_byte _ read_byte-Shrinks λ b1.
    bind-Shrinks read_byte _ read_byte-Shrinks λ b2.
      bind-Shrinks read_byte _ read_byte-Shrinks
        λ b3. bind-Shrinks read_byte _ read_byte-Shrinks λ b4. ok-Shrinks _

pub read_binary-Shrinks : Shrinks read_binary
unfolding read_binary
read_binary-Shrinks = bind-Shrinks read_uint16 read_full read_uint16-Shrinks read_full-Shrinks

pub read_string-Shrinks : Shrinks read_string
unfolding read_string
read_string-Shrinks = read_binary-Shrinks

decode_vbi_loop-Bound : (vbi multiplier : ℕ) → Bound (decode_vbi_loop vbi multiplier)
unfolding decode_vbi_loop
decode_vbi_loop-Bound vbi m [] a rest e = ground arith
decode_vbi_loop-Bound vbi m (d ∷ bs) a rest e =
    ground (arith, decode_vbi_loop-Bound (vbi + d % 128 * 2 ^ m % 2 ^ 32) (m + 7) bs a rest)

pub decode_vbi-Shrinks : Shrinks decode_vbi
unfolding decode_vbi
decode_vbi-Shrinks = record { bound = decode_vbi_loop-Bound 0 0 }
