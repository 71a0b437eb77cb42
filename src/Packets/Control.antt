-- ===== src/Packets/Control.antt =====
-- packets/packets.go: ControlPacket, its WriteTo, ReadPacket; pingreq.go and pingresp.go. A stream is
-- the bytes that it will deliver before it ends.
pub mod RoundTrip
pub mod Fresh
use Prim.Native.Nat.{bit_or}
use mathlib.Core.List.{flatten}
use paho_golang.Common.{ℕ, ◌*◌, ◌/◌, ◌%◌, List, [], ◌∷◌, ◌++◌, ◌==◌, if◌then◌else◌, length}
use paho_golang.Common.Int.{pos}
use paho_golang.Packets.Result.{Bytes, Reader, Result, ok, err, unknown_packet, ◌>>=◌}
use paho_golang.Packets.Types
use paho_golang.Packets.Wire.{read_byte, read_full, encode_vbi, get_vbi, decode_vbi}
use paho_golang.Packets.Acks.{
  Ack, puback_unpack, pubrec_unpack, pubrel_unpack, pubcomp_unpack, puback_buffers, pubrec_buffers,
  pubrel_buffers, pubcomp_buffers,
}
use paho_golang.Packets.Replies.{
  Connack, connack_unpack, connack_buffers, Disconnect, disconnect_unpack, disconnect_buffers, Auth,
  auth_unpack, auth_buffers, Suback, suback_unpack, suback_buffers, Unsuback, unsuback_unpack,
  unsuback_buffers,
}
use paho_golang.Packets.Requests.{
  Publish, publish_flags, publish_of_flags, publish_unpack, publish_buffers, Subscribe,
  subscribe_unpack, subscribe_buffers, Unsubscribe, unsubscribe_unpack, unsubscribe_buffers,
}
use paho_golang.Packets.Connecting.{Connect, connect_unpack, connect_buffers}

-- The packets behind the interface `Packet`.
pub data Content : Type 0 where
  connect : Connect → Content
  connack : Connack → Content
  publish : Publish → Content
  puback pubrec pubrel pubcomp : Ack → Content
  subscribe : Subscribe → Content
  suback : Suback → Content
  unsubscribe : Unsubscribe → Content
  unsuback : Unsuback → Content
  pingreq pingresp : Content
  disconnect : Disconnect → Content
  auth : Auth → Content

-- FixedHeader and Content; the remaining length is computed where it is written and read.
pub record ControlPacket : Type 0 where
  pub content : Content
  pub packet_type : ℕ
  pub flags : ℕ

-- ControlPacket.PacketID
pub packet_id : Content → ℕ
packet_id (publish p) = p.packet_id
packet_id (puback a) = a.packet_id
packet_id (pubrec a) = a.packet_id
packet_id (pubrel a) = a.packet_id
packet_id (pubcomp a) = a.packet_id
packet_id (subscribe s) = s.packet_id
packet_id (suback s) = s.packet_id
packet_id (unsubscribe u) = u.packet_id
packet_id (unsuback u) = u.packet_id
packet_id _ = 0

-- The method Buffers.
unfoldable pub buffers : Content → Result (List Bytes)
buffers (connect c) = connect_buffers c
buffers (connack c) = connack_buffers c
buffers (publish p) = publish_buffers p
buffers (puback a) = puback_buffers a
buffers (pubrec a) = pubrec_buffers a
buffers (pubrel a) = pubrel_buffers a
buffers (pubcomp a) = pubcomp_buffers a
buffers (subscribe s) = subscribe_buffers s
buffers (suback s) = suback_buffers s
buffers (unsubscribe u) = unsubscribe_buffers u
buffers (unsuback u) = unsuback_buffers u
buffers pingreq = ok []
buffers pingresp = ok []
buffers (disconnect d) = disconnect_buffers d
buffers (auth a) = auth_buffers a

-- The packets that the types' own WriteTo and ToControlPacket make around their content.
abbrev pub connect_packet : Connect → ControlPacket
connect_packet c = record { content = connect c; packet_type = Types.connect; flags = 0 }

abbrev pub connack_packet : Connack → ControlPacket
connack_packet c = record { content = connack c; packet_type = Types.connack; flags = 0 }

abbrev pub publish_packet : Publish → ControlPacket
publish_packet p = record {
  content = publish p;
  packet_type = Types.publish;
  flags = publish_flags p;
}

abbrev pub puback_packet : Ack → ControlPacket
puback_packet a = record { content = puback a; packet_type = Types.puback; flags = 0 }

abbrev pub pubrec_packet : Ack → ControlPacket
pubrec_packet a = record { content = pubrec a; packet_type = Types.pubrec; flags = 0 }

abbrev pub pubrel_packet : Ack → ControlPacket
pubrel_packet a = record { content = pubrel a; packet_type = Types.pubrel; flags = 2 }

abbrev pub pubcomp_packet : Ack → ControlPacket
pubcomp_packet a = record { content = pubcomp a; packet_type = Types.pubcomp; flags = 0 }

abbrev pub subscribe_packet : Subscribe → ControlPacket
subscribe_packet s = record { content = subscribe s; packet_type = Types.subscribe; flags = 2 }

abbrev pub suback_packet : Suback → ControlPacket
suback_packet s = record { content = suback s; packet_type = Types.suback; flags = 0 }

abbrev pub unsubscribe_packet : Unsubscribe → ControlPacket
unsubscribe_packet u = record {
  content = unsubscribe u;
  packet_type = Types.unsubscribe;
  flags = 2;
}

abbrev pub unsuback_packet : Unsuback → ControlPacket
unsuback_packet u = record { content = unsuback u; packet_type = Types.unsuback; flags = 0 }

abbrev pub pingreq_packet : ControlPacket
pingreq_packet = record { content = pingreq; packet_type = Types.pingreq; flags = 0 }

abbrev pub pingresp_packet : ControlPacket
pingresp_packet = record { content = pingresp; packet_type = Types.pingresp; flags = 0 }

abbrev pub disconnect_packet : Disconnect → ControlPacket
disconnect_packet d = record { content = disconnect d; packet_type = Types.disconnect; flags = 0 }

abbrev pub auth_packet : Auth → ControlPacket
auth_packet a = record { content = auth a; packet_type = Types.auth; flags = 0 }

-- The method of the content's own type.
unfoldable pub control_packet : Content → ControlPacket
control_packet (connect c) = connect_packet c
control_packet (connack c) = connack_packet c
control_packet (publish p) = publish_packet p
control_packet (puback a) = puback_packet a
control_packet (pubrec a) = pubrec_packet a
control_packet (pubrel a) = pubrel_packet a
control_packet (pubcomp a) = pubcomp_packet a
control_packet (subscribe s) = subscribe_packet s
control_packet (suback s) = suback_packet s
control_packet (unsubscribe u) = unsubscribe_packet u
control_packet (unsuback u) = unsuback_packet u
control_packet pingreq = pingreq_packet
control_packet pingresp = pingresp_packet
control_packet (disconnect d) = disconnect_packet d
control_packet (auth a) = auth_packet a

-- For a header of type PUBLISH WriteTo computes the flags anew, and puts the type into them too. The
-- header of type PUBLISH on another content, which makes it panic, is left out.
unfoldable pub written_flags : ControlPacket → Content → ℕ
written_flags c (publish p) =
    if c.packet_type == Types.publish
    then bit_or (c.packet_type * 16 % 256) (publish_flags p)
    else c.flags
written_flags c _ = c.flags

-- ControlPacket.WriteTo with FixedHeader.WriteTo: the bytes that are handed to the writer.
unfoldable pub write_to : ControlPacket → Result Bytes
write_to c = do
  bufs ← buffers c.content
  vbi ← encode_vbi (pos (length (flatten bufs)))
  ok (bit_or (c.packet_type * 16 % 256) (written_flags c c.content) ∷ (vbi ++ flatten bufs))

-- The switch of ReadPacket on the packet type, and Unpack on the bytes of the packet. `flags` are
-- those of the fixed header.
pub unpack_content : ℕ → ℕ → Bytes → Result Content
unpack_content t flags bs =
    if t == Types.connect
    then (connect_unpack bs >>= λ c. ok (connect c))
    else if t == Types.connack
    then (connack_unpack bs >>= λ c. ok (connack c))
    else if t == Types.publish
    then (publish_unpack (publish_of_flags flags) bs >>= λ p. ok (publish p))
    else if t == Types.puback
    then (puback_unpack bs >>= λ a. ok (puback a))
    else if t == Types.pubrec
    then (pubrec_unpack bs >>= λ a. ok (pubrec a))
    else if t == Types.pubrel
    then (pubrel_unpack bs >>= λ a. ok (pubrel a))
    else if t == Types.pubcomp
    then (pubcomp_unpack bs >>= λ a. ok (pubcomp a))
    else if t == Types.subscribe
    then (subscribe_unpack bs >>= λ s. ok (subscribe s))
    else if t == Types.suback
    then (suback_unpack bs >>= λ s. ok (suback s))
    else if t == Types.unsubscribe
    then (unsubscribe_unpack bs >>= λ u. ok (unsubscribe u))
    else if t == Types.unsuback
    then (unsuback_unpack bs >>= λ u. ok (unsuback u))
    else if t == Types.pingreq
    then ok pingreq
    else if t == Types.pingresp
    then ok pingresp
    else if t == Types.disconnect
    then (disconnect_unpack bs >>= λ d. ok (disconnect d))
    else if t == Types.auth
    then (auth_unpack bs >>= λ a. ok (auth a))
    else err (unknown_packet t)

-- Whether the switch has a case for the type.
pub known_type : ℕ → Result (Unit {0})
known_type t = if t == 0 then err (unknown_packet t) else ok tt

-- ReadPacket, with what it leaves in the stream. The type is refused before anything more is read.
pub read_packet : Reader ControlPacket
read_packet bs = do
  (b, bs1) ← read_byte bs
  known ← known_type (b / 16)
  (digits, bs2) ← get_vbi bs1
  (size, _) ← decode_vbi digits
  (body, rest) ← read_full size bs2
  content ← unpack_content (b / 16) (b % 16) body
  ok (record { content = content; packet_type = b / 16; flags = b % 16 }, rest)
