-- ===== src/Packets/Acks.antt =====
-- packets/puback.go, pubrec.go, pubrel.go, pubcomp.go. The four structs have the same fields.
-- Unpack is on the receiver that ReadPacket makes, with empty properties; what it leaves of the
-- buffer is dropped there.
pub mod RoundTrip
use paho_golang.Common.{
  ℕ, List, [], ◌∷◌, ◌++◌, Option, some, Bool, true, false, ◌==◌, if◌then◌else◌, length,
}
use paho_golang.Common.Int.{pos}
use paho_golang.Packets.Result.{Bytes, Result, ok, err, ◌>>=◌}
use paho_golang.Packets.Types.{puback, pubrec, pubrel, pubcomp}
use paho_golang.Packets.Wire.{read_byte, read_uint16, write_uint16, encode_vbi}
use paho_golang.Packets.Properties.{Properties, empty}
use paho_golang.Packets.Properties.Pack.{pack}
use paho_golang.Packets.Properties.Unpack.{unpack}

pub record Ack : Type 0 where
  pub properties : Option Properties
  pub packet_id : ℕ
  pub reason_code : ℕ

-- What stands behind the identifier, by the length of the whole buffer.
pub unpack_reason : ℕ → ℕ → Bytes → Result Ack
unpack_reason size id bs =
    if size == 2
    then ok (record { properties = some empty; packet_id = id; reason_code = 0 })
    else (read_byte bs >>= λ r.
        if size == 3
        then ok (record { properties = some empty; packet_id = id; reason_code = r.0 })
        else (unpack puback empty r.1 >>= λ i.
            ok (record { properties = some i.0; packet_id = id; reason_code = r.0 })))

-- Puback.Unpack
pub puback_unpack : Bytes → Result Ack
puback_unpack bs = read_uint16 bs >>= λ r. unpack_reason (length bs) r.0 r.1

-- Pubrec.Unpack, which names PUBACK for the properties.
pub pubrec_unpack : Bytes → Result Ack
pubrec_unpack bs = read_uint16 bs >>= λ r. unpack_reason (length bs) r.0 r.1

-- Pubrel.Unpack, which names PUBACK for the properties.
pub pubrel_unpack : Bytes → Result Ack
pubrel_unpack bs = read_uint16 bs >>= λ r. unpack_reason (length bs) r.0 r.1

-- Pubcomp.Unpack, which names PUBACK for the properties.
pub pubcomp_unpack : Bytes → Result Ack
pubcomp_unpack bs = read_uint16 bs >>= λ r. unpack_reason (length bs) r.0 r.1

-- `if len(idvp) > 0 { n = append(n, …) }`
abbrev pub unless_empty : Bytes → List Bytes → List Bytes
unless_empty [] more = []
unless_empty (b ∷ bs) more = more

pub ack_head : Ack → Bytes
ack_head a = write_uint16 a.packet_id ++ a.reason_code ∷ []

-- Puback.Buffers writes the length of the properties in any case.
pub puback_buffers : Ack → Result (List Bytes)
puback_buffers a = do
  idvp ← pack puback a.properties
  prop_len ← encode_vbi (pos (length idvp))
  ok (ack_head a ∷ prop_len ∷ unless_empty idvp (idvp ∷ []))

-- Pubrec.Buffers
pub pubrec_buffers : Ack → Result (List Bytes)
pubrec_buffers a = do
  idvp ← pack pubrec a.properties
  prop_len ← encode_vbi (pos (length idvp))
  ok (ack_head a ∷ unless_empty idvp (prop_len ∷ idvp ∷ []))

-- Pubrel.Buffers
pub pubrel_buffers : Ack → Result (List Bytes)
pubrel_buffers a = do
  idvp ← pack pubrel a.properties
  prop_len ← encode_vbi (pos (length idvp))
  ok (ack_head a ∷ unless_empty idvp (prop_len ∷ idvp ∷ []))

-- Pubcomp.Buffers
pub pubcomp_buffers : Ack → Result (List Bytes)
pubcomp_buffers a = do
  idvp ← pack pubcomp a.properties
  prop_len ← encode_vbi (pos (length idvp))
  ok (ack_head a ∷ unless_empty idvp (prop_len ∷ idvp ∷ []))
