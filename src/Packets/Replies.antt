-- ===== src/Packets/Replies.antt =====
-- packets/connack.go, disconnect.go, auth.go, suback.go, unsuback.go. Unpack is on the receiver that
-- ReadPacket makes, with empty properties; what it leaves of the buffer is dropped there.
pub mod RoundTrip
use paho_golang.Common.{
  ℕ, ◌%◌, List, [], ◌∷◌, ◌++◌, Option, some, Bool, true, false, ◌==◌, if◌then◌else◌, length,
}
use paho_golang.Common.Int.{pos}
use paho_golang.Packets.Result.{Bytes, Result, ok, err, ◌>>=◌}
use paho_golang.Packets.Types.{connack, disconnect, auth, suback, unsuback}
use paho_golang.Packets.Wire.{read_byte, read_uint16, write_uint16, encode_vbi}
use paho_golang.Packets.Properties.{Properties, empty}
use paho_golang.Packets.Properties.Pack.{pack}
use paho_golang.Packets.Properties.Unpack.{unpack}
use paho_golang.Packets.Acks.{unless_empty}

pub record Connack : Type 0 where
  pub properties : Option Properties
  pub reason_code : ℕ
  pub session_present : Bool

pub connack_unpack : Bytes → Result Connack
connack_unpack bs = do
  (flags, bs1) ← read_byte bs
  (reason, bs2) ← read_byte bs1
  (props, bs3) ← unpack connack empty bs2
  ok (record { properties = some props; reason_code = reason; session_present = flags % 2 == 1 })

pub connack_buffers : Connack → Result (List Bytes)
connack_buffers c = do
  idvp ← pack connack c.properties
  prop_len ← encode_vbi (pos (length idvp))
  ok (
      ((if c.session_present then 1 else 0) ∷ c.reason_code ∷ [])
      ∷ prop_len
      ∷ unless_empty idvp (idvp ∷ []))

pub record Disconnect : Type 0 where
  pub properties : Option Properties
  pub reason_code : ℕ

pub disconnect_unpack : Bytes → Result Disconnect
disconnect_unpack bs = read_byte bs >>= λ r.
    if length bs == 1
    then ok (record { properties = some empty; reason_code = r.0 })
    else (unpack disconnect empty r.1 >>= λ i.
        ok (record { properties = some i.0; reason_code = r.0 }))

pub disconnect_buffers : Disconnect → Result (List Bytes)
disconnect_buffers d = do
  idvp ← pack disconnect d.properties
  prop_len ← encode_vbi (pos (length idvp))
  ok ((d.reason_code ∷ []) ∷ prop_len ∷ unless_empty idvp (idvp ∷ []))

pub record Auth : Type 0 where
  pub properties : Option Properties
  pub reason_code : ℕ

pub auth_unpack : Bytes → Result Auth
auth_unpack bs =
    if length bs == 0
    then ok (record { properties = some empty; reason_code = 0 })
    else (read_byte bs >>= λ r.
        if length bs == 1
        then ok (record { properties = some empty; reason_code = r.0 })
        else (unpack auth empty r.1 >>= λ i.
            ok (record { properties = some i.0; reason_code = r.0 })))

pub auth_buffers : Auth → Result (List Bytes)
auth_buffers a = do
  idvp ← pack auth a.properties
  prop_len ← encode_vbi (pos (length idvp))
  ok ((a.reason_code ∷ []) ∷ prop_len ∷ unless_empty idvp (idvp ∷ []))

pub record Suback : Type 0 where
  pub properties : Option Properties
  pub reasons : Bytes
  pub packet_id : ℕ

pub suback_unpack : Bytes → Result Suback
suback_unpack bs = do
  (id, bs1) ← read_uint16 bs
  (props, bs2) ← unpack suback empty bs1
  ok (record { properties = some props; reasons = bs2; packet_id = id })

pub suback_buffers : Suback → Result (List Bytes)
suback_buffers s = do
  idvp ← pack suback s.properties
  prop_len ← encode_vbi (pos (length idvp))
  ok (write_uint16 s.packet_id ∷ prop_len ∷ idvp ∷ s.reasons ∷ [])

pub record Unsuback : Type 0 where
  pub properties : Option Properties
  pub reasons : Bytes
  pub packet_id : ℕ

pub unsuback_unpack : Bytes → Result Unsuback
unsuback_unpack bs = do
  (id, bs1) ← read_uint16 bs
  (props, bs2) ← unpack unsuback empty bs1
  ok (record { properties = some props; reasons = bs2; packet_id = id })

pub unsuback_buffers : Unsuback → Result (List Bytes)
unsuback_buffers s = do
  idvp ← pack unsuback s.properties
  prop_len ← encode_vbi (pos (length idvp))
  ok (write_uint16 s.packet_id ∷ prop_len ∷ idvp ∷ s.reasons ∷ [])
