-- ===== src/Packets/Control/RoundTrip.antt =====
-- packets/packets.go: ReadPacket on what WriteTo wrote, for every packet.
use Prim.Native.Nat.{bit_or}
use mathlib.Core.List.{flatten}
use paho_golang.Common.{
  ℕ, ◌*◌, ◌/◌, ◌%◌, ◌^◌, ◌<◌, ◌≡◌, refl, ap, sym, ◌∙◌, List, ◌∷◌, ◌++◌, append_assoc, length, true,
  arith, some, ◌+◌, ◌==◌, ==_iff, All,
}
use paho_golang.Common.Int.{pos}
use paho_golang.Common.Finite.{all_from, all_from_zero}
use paho_golang.Packets.Result.{Bytes, ok, >>=-eq-ok}
use paho_golang.Packets.Types
use paho_golang.Packets.Wire.{read_byte, encode_vbi}
use paho_golang.Packets.Wire.RoundTrip.{vbi, vbi_limit, get_vbi-vbi, read_full-append}
use paho_golang.Packets.Properties.RoundTrip.{IsSendable, received, vbi_of_ok, decode_vbi-digits}
use paho_golang.Packets.Properties.RoundTrip.Kinds.{IsShort}
use paho_golang.Packets.Acks.RoundTrip.{
  ack_received, AckFits, puback_unpack-puback_buffers, pubrec_unpack-pubrec_buffers,
  pubrel_unpack-pubrel_buffers, pubcomp_unpack-pubcomp_buffers,
}
use paho_golang.Packets.Replies.RoundTrip.{
  connack_unpack-connack_buffers, disconnect_unpack-disconnect_buffers, auth_unpack-auth_buffers,
  suback_unpack-suback_buffers, unsuback_unpack-unsuback_buffers,
}
use paho_golang.Packets.Requests.{publish_flags}
use paho_golang.Packets.Requests.Publishing.{
  publish_received, PublishFits, publish_flags_small, publish_unpack-publish_buffers,
}
use paho_golang.Packets.Requests.Subscribing.{OptionsFit, subscribe_unpack-subscribe_buffers}
use paho_golang.Packets.Requests.Unsubscribing.{unsubscribe_unpack-unsubscribe_buffers}
use paho_golang.Packets.Connecting.RoundTrip.{
  connect_received, ConnectFits, connect_unpack-connect_buffers,
}
use paho_golang.Packets.Control.{
  Content, connect, connack, publish, puback, pubrec, pubrel, pubcomp, subscribe, suback,
  unsubscribe, unsuback, pingreq, pingresp, disconnect, auth, ControlPacket, buffers,
  control_packet, written_flags, write_to, unpack_content, known_type, read_packet,
}

-- The content as its receiver sees it.
unfoldable pub content_received : Content → Content
content_received (connect c) = connect (connect_received c)
content_received (connack c) =
    connack (record c { properties = some (received Types.connack c.properties) })
content_received (publish p) = publish (publish_received p)
content_received (puback a) = puback (ack_received a)
content_received (pubrec a) = pubrec (ack_received a)
content_received (pubrel a) = pubrel (ack_received a)
content_received (pubcomp a) = pubcomp (ack_received a)
content_received (subscribe s) =
    subscribe (record s { properties = some (received Types.subscribe s.properties) })
content_received (suback s) =
    suback (record s { properties = some (received Types.suback s.properties) })
content_received (unsubscribe u) =
    unsubscribe (record u { properties = some (received Types.unsubscribe u.properties) })
content_received (unsuback u) =
    unsuback (record u { properties = some (received Types.unsuback u.properties) })
content_received pingreq = pingreq
content_received pingresp = pingresp
content_received (disconnect d) =
    disconnect (record d { properties = some (received Types.disconnect d.properties) })
content_received (auth a) = auth (record a { properties = some (received Types.auth a.properties) })

-- The fields fit the wire: numbers their words, strings their length prefixes, QoS two bits; and a
-- reason string stands only in packets that may have one.
abbrev pub ContentFits : Content → Type 0
ContentFits (connect c) = ConnectFits c
ContentFits (connack c) = IsSendable Types.connack c.properties
ContentFits (publish p) = PublishFits p
ContentFits (puback a) = AckFits a
ContentFits (pubrec a) = AckFits a
ContentFits (pubrel a) = AckFits a
ContentFits (pubcomp a) = AckFits a
ContentFits (subscribe s) =
    (s.packet_id < 2 ^ 16)
    × IsSendable Types.subscribe s.properties
    × All OptionsFit s.subscriptions
ContentFits (suback s) = (s.packet_id < 2 ^ 16) × IsSendable Types.suback s.properties
ContentFits (unsubscribe u) =
    (u.packet_id < 2 ^ 16) × IsSendable Types.unsubscribe u.properties × All IsShort u.topics
ContentFits (unsuback u) = (u.packet_id < 2 ^ 16) × IsSendable Types.unsuback u.properties
ContentFits pingreq = Unit {0}
ContentFits pingresp = Unit {0}
ContentFits (disconnect d) = IsSendable Types.disconnect d.properties
ContentFits (auth a) = IsSendable Types.auth a.properties

unpack_content-buffers :
    (c : Content) (bufs : List Bytes)
    → ContentFits c
    → buffers c ≡ ok bufs
    → unpack_content (control_packet c).packet_type (control_packet c).flags (flatten bufs)
      ≡ ok (content_received c)
unfolding buffers control_packet unpack_content content_received
unpack_content-buffers (connect c) bufs fits e = rw (connect_unpack-connect_buffers c fits bufs e)
unpack_content-buffers (connack c) bufs fits e = rw (connack_unpack-connack_buffers c bufs fits e)
unpack_content-buffers (publish p) bufs fits e = rw (publish_unpack-publish_buffers p fits bufs e)
unpack_content-buffers (puback a) bufs fits e = rw (puback_unpack-puback_buffers a bufs fits e)
unpack_content-buffers (pubrec a) bufs fits e = rw (pubrec_unpack-pubrec_buffers a bufs fits e)
unpack_content-buffers (pubrel a) bufs fits e = rw (pubrel_unpack-pubrel_buffers a bufs fits e)
unpack_content-buffers (pubcomp a) bufs fits e = rw (pubcomp_unpack-pubcomp_buffers a bufs fits e)
unpack_content-buffers (subscribe s) bufs (small, send, subs) e =
    rw (subscribe_unpack-subscribe_buffers s bufs small send subs e)
unpack_content-buffers (suback s) bufs (small, send) e =
    rw (suback_unpack-suback_buffers s bufs small send e)
unpack_content-buffers (unsubscribe u) bufs (small, send, topics) e =
    rw (unsubscribe_unpack-unsubscribe_buffers u bufs small send topics e)
unpack_content-buffers (unsuback u) bufs (small, send) e =
    rw (unsuback_unpack-unsuback_buffers u bufs small send e)
unpack_content-buffers pingreq bufs fits e = refl
unpack_content-buffers pingresp bufs fits e = refl
unpack_content-buffers (disconnect d) bufs fits e =
    rw (disconnect_unpack-disconnect_buffers d bufs fits e)
unpack_content-buffers (auth a) bufs fits e = rw (auth_unpack-auth_buffers a bufs fits e)

-- The first byte of a packet.
abbrev first_byte : Content → ℕ
first_byte c =
    bit_or ((control_packet c).packet_type * 16 % 256) (written_flags (control_packet c) c)

publish_table : all_from 0 16 (λ f. bit_or 48 (bit_or 48 f) == 48 + f) ≡ true
unfolding all_from
publish_table = refl

publish_first : (f : ℕ) → f < 16 → bit_or 48 (bit_or 48 f) ≡ 48 + f
publish_first f h =
    (==_iff _ _).0 (all_from_zero 16 (λ f. bit_or 48 (bit_or 48 f) == 48 + f) f publish_table h)

abbrev HeaderIs : Content → ℕ → Type 0
HeaderIs c b =
    (b / 16 ≡ (control_packet c).packet_type)
    × (b % 16 ≡ (control_packet c).flags)
    × (known_type (b / 16) ≡ ok tt)

first_byte_parts : (c : Content) → ContentFits c → HeaderIs c (first_byte c)
unfolding control_packet written_flags known_type
first_byte_parts (publish p) fits =
    rw (publish_first (publish_flags p) (publish_flags_small p fits))
      (ground (arith, publish_flags_small p fits))
first_byte_parts (connect c) fits = (refl, refl, refl)
first_byte_parts (connack c) fits = (refl, refl, refl)
first_byte_parts (puback a) fits = (refl, refl, refl)
first_byte_parts (pubrec a) fits = (refl, refl, refl)
first_byte_parts (pubrel a) fits = (refl, refl, refl)
first_byte_parts (pubcomp a) fits = (refl, refl, refl)
first_byte_parts (subscribe s) fits = (refl, refl, refl)
first_byte_parts (suback s) fits = (refl, refl, refl)
first_byte_parts (unsubscribe u) fits = (refl, refl, refl)
first_byte_parts (unsuback u) fits = (refl, refl, refl)
first_byte_parts pingreq fits = (refl, refl, refl)
first_byte_parts pingresp fits = (refl, refl, refl)
first_byte_parts (disconnect d) fits = (refl, refl, refl)
first_byte_parts (auth a) fits = (refl, refl, refl)

-- `control_packet c` holds `c`.
content-control_packet : (c : Content) → (control_packet c).content ≡ c
unfolding control_packet
content-control_packet (connect c) = refl
content-control_packet _ = refl

-- ReadPacket on a frame, from what it finds in the parts.
read_packet_frame :
    (b t f : ℕ) (body rest : Bytes) (c : Content)
    → b / 16 ≡ t
    → b % 16 ≡ f
    → known_type t ≡ ok tt
    → length body < vbi_limit
    → unpack_content t f body ≡ ok c
    → read_packet (b ∷ (vbi (length body) ++ (body ++ rest)))
      ≡ ok (record { content = c; packet_type = t; flags = f }, rest)
unfolding read_packet read_byte
read_packet_frame b t f body rest c type flags known small e = rw (
  type,
  flags,
  known,
  get_vbi-vbi (body ++ rest) (length body) small,
  decode_vbi-digits (length body) small,
  read_full-append body rest,
  e,
)

ok-injective : {s t : Bytes} → ok s ≡ ok t → s ≡ t
ok-injective e = cc

-- WriteTo, inverted.
write_to_parts :
    (p : ControlPacket) (c : Content) (bytes : Bytes)
    → p.content ≡ c
    → write_to p ≡ ok bytes
    → (bufs : List Bytes) × (buffers c ≡ ok bufs)
      × (length (flatten bufs) < vbi_limit)
      × (bytes
          ≡ bit_or (p.packet_type * 16 % 256) (written_flags p c)
            ∷ (vbi (length (flatten bufs)) ++ flatten bufs))
unfolding write_to
write_to_parts p c bytes same e =
    let (bufs, buffered, e1) = >>=-eq-ok (buffers p.content) _ e in
    let (size, sized, e2) = >>=-eq-ok (encode_vbi (pos (length (flatten bufs)))) _ e1 in
    let (small, is_size) = vbi_of_ok (length (flatten bufs)) size sized in
    (bufs, ap buffers (sym same) ∙ buffered, small, cc (ok-injective e2))

-- Every packet: ReadPacket on the bytes that WriteTo wrote gives back the packet's type, the flags
-- of its fixed header and its content as the receiver sees it, and leaves what follows in the
-- stream. The fields fit the wire.
pub read_packet-write_to :
    (c : Content) (bytes rest : Bytes)
    → ContentFits c
    → write_to (control_packet c) ≡ ok bytes
    → read_packet (bytes ++ rest)
      ≡ ok (record (control_packet c) { content = content_received c }, rest)
read_packet-write_to c bytes rest fits e =
    let (bufs, buffered, small, is_bytes) =
      write_to_parts (control_packet c) c bytes (content-control_packet c) e in
    let (type, flags, known) = first_byte_parts c fits in
    rw (is_bytes, append_assoc (vbi (length (flatten bufs))) (flatten bufs) rest)
      (read_packet_frame (first_byte c) (control_packet c).packet_type (control_packet c).flags
        (flatten bufs) rest (content_received c) type flags (ap known_type (sym type) ∙ known) small
        (unpack_content-buffers c bufs fits buffered))
