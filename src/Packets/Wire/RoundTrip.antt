-- ===== src/Packets/Wire/RoundTrip.antt =====
-- What the readers of Wire make of what its writers wrote.
use paho_golang.Common.{
  ℕ, zero, suc, ◌+◌, ◌*◌, ◌/◌, ◌%◌, ◌^◌, ◌≤◌, ◌<◌, ◌≡◌, refl, [], ◌∷◌, ◌++◌, ltb, ltb-false, ◌==◌,
  if◌then◌else◌, length, arith, take-append_self, drop-append_self, length-append, append_assoc,
  Bool-cases, ltb→lt, ◌⊎◌, inl, inr,
}
use paho_golang.Common.Int.{ℤ, pos, negsuc}
use paho_golang.Packets.Result.{Bytes, ok, err, invalid_vbi_length}
use paho_golang.Packets.Wire.{
  read_byte, read_full, read_uint16, read_uint32, read_binary, read_string, write_uint16,
  write_uint32, truncated, write_binary, write_string, encode_vbi_loop, encode_vbi, get_vbi_loop,
  get_vbi, decode_vbi_loop, decode_vbi,
}

pub read_uint16-write_uint16 :
    (u : ℕ) (rest : Bytes) → u < 2 ^ 16 → read_uint16 (write_uint16 u ++ rest) ≡ ok (u, rest)
unfolding read_uint16 write_uint16 read_byte
read_uint16-write_uint16 u rest h = ground arith

pub read_uint32-write_uint32 :
    (u : ℕ) (rest : Bytes) → u < 2 ^ 32 → read_uint32 (write_uint32 u ++ rest) ≡ ok (u, rest)
unfolding read_uint32 write_uint32 read_byte
read_uint32-write_uint32 u rest h = ground arith

pub read_full-append : (d rest : Bytes) → read_full (length d) (d ++ rest) ≡ ok (d, rest)
unfolding read_full
read_full-append [] rest = refl
read_full-append (b ∷ d) rest = rw (
  ltb-false (length (d ++ rest)) (length d) (omega (arith, length-append d rest)),
  take-append_self d rest,
  drop-append_self d rest,
)

truncated_short : (d : Bytes) → length d < 2 ^ 16 → truncated d ≡ d
unfolding truncated
truncated_short d h = rw (ltb-false 65535 (length d) (omega arith))

mod_length : (d : Bytes) → length d < 2 ^ 16 → length d % 2 ^ 16 ≡ length d
mod_length d h = omega arith

pub read_binary-write_binary :
    (d rest : Bytes) → length d < 2 ^ 16 → read_binary (write_binary d ++ rest) ≡ ok (d, rest)
unfolding read_binary write_binary
read_binary-write_binary d rest h =
    rw
      (
        truncated_short d h,
        mod_length d h,
        append_assoc (write_uint16 (length d)) d rest,
        read_uint16-write_uint16 (length d) (d ++ rest) h,
      )
      (read_full-append d rest)

pub read_string-write_string :
    (s rest : Bytes) → length s < 2 ^ 16 → read_string (write_string s ++ rest) ≡ ok (s, rest)
unfolding read_string write_string write_binary
read_string-write_string s rest h = read_binary-write_binary s rest h

-- The digits of a number below 128 ^ (k + 1), seven bits a byte, lowest first.
pub vbi_digits : ℕ → ℕ → Bytes
vbi_digits zero n = n ∷ []
vbi_digits (suc k) n =
    let rest = vbi_digits k (n / 128) in if n / 128 == 0 then n ∷ [] else ((n % 128 + 128) ∷ rest)

-- The largest packet has 268,435,455 bytes.
abbrev pub vbi_limit : ℕ
vbi_limit = 268435456

encode_vbi_loop-vbi_digits :
    (k n : ℕ) → n < 128 ^ suc k → encode_vbi_loop (suc k) n ≡ ok (vbi_digits k n)
unfolding encode_vbi_loop vbi_digits
encode_vbi_loop-vbi_digits zero n h = ground arith
encode_vbi_loop-vbi_digits (suc k) n h =
    ground (arith, encode_vbi_loop-vbi_digits k (n / 128) (omega arith))

abbrev pub vbi : ℕ → Bytes
vbi n = vbi_digits 3 n

pub encode_vbi-vbi : (n : ℕ) → n < vbi_limit → encode_vbi (pos n) ≡ ok (vbi n)
unfolding encode_vbi
encode_vbi-vbi n h = ground (arith, encode_vbi_loop-vbi_digits 3 n)

-- decodeVBI on the digits that are left, at each of the four places of the multiplier.
module _ (rest : Bytes) where
  decode_place3 :
      (acc n : ℕ)
      → n < 128
      → decode_vbi_loop acc 21 (vbi_digits 0 n ++ rest) ≡ ok (acc + n * 2 ^ 21, rest)
  unfolding decode_vbi_loop vbi_digits
  decode_place3 acc n h = ground arith

  decode_place2 :
      (acc n : ℕ)
      → n < 128 ^ 2
      → decode_vbi_loop acc 14 (vbi_digits 1 n ++ rest) ≡ ok (acc + n * 2 ^ 14, rest)
  unfolding decode_vbi_loop vbi_digits
  decode_place2 acc n h = ground (arith, decode_place3 (acc + n % 128 * 2 ^ 14) (n / 128))

  decode_place1 :
      (acc n : ℕ)
      → n < 128 ^ 3
      → decode_vbi_loop acc 7 (vbi_digits 2 n ++ rest) ≡ ok (acc + n * 2 ^ 7, rest)
  unfolding decode_vbi_loop vbi_digits
  decode_place1 acc n h = ground (arith, decode_place2 (acc + n % 128 * 2 ^ 7) (n / 128))

  pub decode_vbi-vbi : (n : ℕ) → n < vbi_limit → decode_vbi (vbi n ++ rest) ≡ ok (n, rest)
  unfolding decode_vbi decode_vbi_loop vbi_digits
  decode_vbi-vbi n h = ground (arith, decode_place1 (n % 128) (n / 128))

  -- getVBI copies the digits up to the first without the top bit, which is the last.
  get_vbi_loop-vbi_digits :
      (k n : ℕ) (ret : Bytes)
      → n < 128 ^ suc k
      → length ret + k ≤ 3
      → get_vbi_loop ret (vbi_digits k n ++ rest) ≡ ok (ret ++ vbi_digits k n, rest)
  unfolding get_vbi_loop vbi_digits
  get_vbi_loop-vbi_digits zero n ret h r = ground arith
  get_vbi_loop-vbi_digits (suc k) n ret h r = ground (
    arith,
    length-append ret ((n % 128 + 128) ∷ []),
    append_assoc ret ((n % 128 + 128) ∷ []) (vbi_digits k (n / 128)),
    get_vbi_loop-vbi_digits k (n / 128) (ret ++ (n % 128 + 128) ∷ []) (omega arith),
  )

  pub get_vbi-vbi : (n : ℕ) → n < vbi_limit → get_vbi (vbi n ++ rest) ≡ ok (vbi n, rest)
  unfolding get_vbi
  get_vbi-vbi n h = get_vbi_loop-vbi_digits 3 n [] (omega arith) (omega arith)

length-vbi_digits : (k n : ℕ) → (1 ≤ length (vbi_digits k n)) × (length (vbi_digits k n) ≤ k + 1)
unfolding vbi_digits
length-vbi_digits zero n = omega arith
length-vbi_digits (suc k) n = ground (arith, length-vbi_digits k (n / 128))

pub length-vbi : (n : ℕ) → (1 ≤ length (vbi n)) × (length (vbi n) ≤ 4)
length-vbi n = length-vbi_digits 3 n

-- A Variable Byte Integer within the limit of the specification is written in one to four bytes
-- without an error; the stream reader getVBI cuts exactly these bytes off, and decodeVBI reads the
-- number back and leaves what follows.
pub vbi_round_trip :
    (n : ℕ) (rest : Bytes)
    → n < vbi_limit
    → (bs : Bytes) × (encode_vbi (pos n) ≡ ok bs)
      × (1 ≤ length bs)
      × (length bs ≤ 4)
      × (get_vbi (bs ++ rest) ≡ ok (bs, rest))
      × (decode_vbi (bs ++ rest) ≡ ok (n, rest))
vbi_round_trip n rest h =
    let (lo, hi) = length-vbi n in
    (vbi n, encode_vbi-vbi n h, lo, hi, get_vbi-vbi rest n h, decode_vbi-vbi rest n h)

-- encodeVBI fails on exactly the integers outside 0 to 268,435,455, always with the error that
-- says so: the array of four bytes is never overrun.
pub encode_vbi_domain :
    (z : ℤ)
    → ((n : ℕ) × (z ≡ pos n) × (n < vbi_limit) × (encode_vbi z ≡ ok (vbi n)))
      ⊎ (((n : ℕ) → z ≡ pos n → vbi_limit ≤ n) × (encode_vbi z ≡ err invalid_vbi_length))
unfolding encode_vbi
encode_vbi_domain (negsuc n) = inr (λ m e. cc, refl)
encode_vbi_domain (pos n) = elim (Bool-cases (ltb n vbi_limit)) [
  | inl small ↦ inl (n, refl, ltb→lt n vbi_limit small, encode_vbi-vbi n (ltb→lt n vbi_limit small))
  | inr large ↦ inr (λ m e. ground arith, ground arith)
]
