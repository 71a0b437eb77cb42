-- ===== src/Packets/Wire.antt =====
-- packets/packets.go: the readers and writers of the MQTT data types over a bytes.Buffer, and
-- io.ReadFull over one. The parts that Go joins by `|` share no bit, so they are added here.
pub mod RoundTrip
pub mod Progress
use paho_golang.Common.{
  ℕ, zero, suc, ◌+◌, ◌*◌, ◌/◌, ◌%◌, ◌^◌, List, [], ◌∷◌, ◌++◌, ltb, leb, ◌==◌, if◌then◌else◌, length,
  take, drop,
}
use paho_golang.Common.Int.{ℤ, pos, negsuc}
use paho_golang.Packets.Result.{
  Bytes, Reader, Result, ok, err, eof, unexpected_eof, malformed_vbi, invalid_vbi_length, panicked,
  ◌>>=◌,
}

-- bytes.Buffer.ReadByte
unfoldable pub read_byte : Reader ℕ
read_byte [] = err eof
read_byte (b ∷ bs) = ok (b, bs)

-- io.ReadFull into a slice of `n` bytes; nothing is read for an empty slice.
unfoldable pub read_full : ℕ → Reader Bytes
read_full zero bs = ok ([], bs)
read_full (suc n) [] = err eof
read_full (suc n) (b ∷ bs) =
    if ltb (length bs) n then err unexpected_eof else ok (b ∷ take n bs, drop n bs)

unfoldable pub read_uint16 : Reader ℕ
read_uint16 bs = do (b1, bs1) ← read_byte bs; (b2, bs2) ← read_byte bs1; ok (b1 * 2 ^ 8 + b2, bs2)

unfoldable pub read_uint32 : Reader ℕ
read_uint32 bs = do
  (b1, bs1) ← read_byte bs
  (b2, bs2) ← read_byte bs1
  (b3, bs3) ← read_byte bs2
  (b4, bs4) ← read_byte bs3
  ok (b1 * 2 ^ 24 + b2 * 2 ^ 16 + b3 * 2 ^ 8 + b4, bs4)

unfoldable pub read_binary : Reader Bytes
read_binary bs = do (size, bs1) ← read_uint16 bs; read_full size bs1

unfoldable pub read_string : Reader Bytes
read_string bs = read_binary bs

unfoldable pub write_uint16 : ℕ → Bytes
write_uint16 u = u / 2 ^ 8 % 256 ∷ u % 256 ∷ []

unfoldable pub write_uint32 : ℕ → Bytes
write_uint32 u = u / 2 ^ 24 % 256 ∷ u / 2 ^ 16 % 256 ∷ u / 2 ^ 8 % 256 ∷ u % 256 ∷ []

-- `if len(d) > 65535 { d = d[:65535] }`
unfoldable pub truncated : Bytes → Bytes
truncated d = if ltb 65535 (length d) then take 65535 d else d

unfoldable pub write_binary : Bytes → Bytes
write_binary d = write_uint16 (length (truncated d) % 2 ^ 16) ++ truncated d

unfoldable pub write_string : Bytes → Bytes
write_string s = write_uint16 (length (truncated s) % 2 ^ 16) ++ truncated s

-- The first argument is what is left of the array `b := [4]byte{}`.
unfoldable pub encode_vbi_loop : ℕ → ℕ → Result Bytes
encode_vbi_loop zero n = err panicked
encode_vbi_loop (suc slots) n =
    let more = encode_vbi_loop slots (n / 128) in
    if n / 128 == 0 then ok (n % 128 ∷ []) else (more >>= λ ds. ok ((n % 128 + 128) ∷ ds))

-- encodeVBI, and what encodeVBIdirect writes to its buffer
unfoldable pub encode_vbi : ℤ → Result Bytes
encode_vbi (negsuc n) = err invalid_vbi_length
encode_vbi (pos n) = if ltb 268435455 n then err invalid_vbi_length else encode_vbi_loop 4 n

-- The bytes of one Variable Byte Integer, from a stream; `ret` is the buffer that is returned.
pub get_vbi_loop : Bytes → Reader Bytes
get_vbi_loop ret [] = err eof
get_vbi_loop ret (d ∷ bs) =
    let more = get_vbi_loop (ret ++ d ∷ []) bs in
    if leb d 0x7f
    then ok (ret ++ d ∷ [], bs)
    else if ltb 3 (length (ret ++ d ∷ []))
    then err malformed_vbi
    else more

pub get_vbi : Reader Bytes
get_vbi bs = get_vbi_loop [] bs

-- At the end of the buffer `ReadByte` answers 0 with io.EOF, which the loop lets pass.
pub decode_vbi_loop : ℕ → ℕ → Reader ℕ
decode_vbi_loop vbi multiplier [] = ok (vbi, [])
decode_vbi_loop vbi multiplier (d ∷ bs) =
    let vbi' = vbi + d % 128 * 2 ^ multiplier % 2 ^ 32 in
    let more = decode_vbi_loop vbi' (multiplier + 7) bs in
    if d / 128 % 2 == 0
    then ok (vbi', bs)
    else if leb 27 (multiplier + 7)
    then err malformed_vbi
    else more

pub decode_vbi : Reader ℕ
decode_vbi bs = decode_vbi_loop 0 0 bs
