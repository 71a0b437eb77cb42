-- ===== src/Packets/Replies/RoundTrip.antt =====
-- packets/connack.go, disconnect.go, auth.go, suback.go, unsuback.go: Unpack on what Buffers wrote.
use paho_golang.Common.{
  ℕ, suc, ◌%◌, ◌^◌, ◌<◌, ◌≡◌, refl, List, [], ◌∷◌, ◌++◌, append-nil, length, length-append, Option,
  some, Bool, true, false, arith, ◌==◌, if◌then◌else◌,
}
use mathlib.Core.List.{flatten}
use paho_golang.Common.Int.{pos}
use paho_golang.Packets.Result.{Bytes, ok, ◌>>=◌, >>=-eq-ok}
use paho_golang.Packets.Types.{connack, disconnect, auth, suback, unsuback}
use paho_golang.Packets.Wire.{read_byte, encode_vbi}
use paho_golang.Packets.Wire.RoundTrip.{read_uint16-write_uint16}
use paho_golang.Packets.Properties.{Properties, empty, validate_id, prop_user}
use paho_golang.Packets.Properties.Pack.{pack}
use paho_golang.Packets.Properties.Unpack.{unpack}
use paho_golang.Packets.Properties.RoundTrip.{received, IsSendable, unpack-pack, length-encode_vbi}
use paho_golang.Packets.Acks.RoundTrip.{flatten-puback, ok-injective}
use paho_golang.Packets.Replies.{
  Connack, connack_unpack, connack_buffers, Disconnect, disconnect_unpack, disconnect_buffers, Auth,
  auth_unpack, auth_buffers, Suback, suback_unpack, suback_buffers, Unsuback, unsuback_unpack,
  unsuback_buffers,
}

-- Both steps that every Buffers makes, inverted.
pub buffers_inv :
    (p : ℕ) (o : Option Properties) (k : Bytes → Bytes → List Bytes) (bufs : List Bytes)
    → (pack p o >>= λ idvp. encode_vbi (pos (length idvp)) >>= λ size. ok (k size idvp)) ≡ ok bufs
    → (idvp : Bytes) × (size : Bytes) × (pack p o ≡ ok idvp)
      × (encode_vbi (pos (length idvp)) ≡ ok size)
      × (k size idvp ≡ bufs)
buffers_inv p o k bufs e =
    let (idvp, packed, e1) = >>=-eq-ok (pack p o) _ e in
    let (size, sized, e2) = >>=-eq-ok (encode_vbi (pos (length idvp))) _ e1 in
    (idvp, size, packed, sized, ok-injective e2)

-- Properties that end the buffer.
pub unpack_last :
    (p : ℕ) (o : Option Properties) (idvp size : Bytes)
    → IsSendable p o
    → validate_id p prop_user ≡ true
    → pack p o ≡ ok idvp
    → encode_vbi (pos (length idvp)) ≡ ok size
    → unpack p empty (size ++ idvp) ≡ ok (received p o, [])
unpack_last p o idvp size send users packed sized =
    rw (append-nil idvp) at (unpack-pack p o idvp size [] send users packed sized)

flag_bit : (b : Bool) → ((if b then 1 else 0) % 2 == 1) ≡ b
flag_bit true = refl
flag_bit false = refl

-- CONNACK: Unpack gives back the session flag, the reason code and the properties that the packet
-- carries, if these fit the wire.
pub connack_unpack-connack_buffers :
    (c : Connack) (bufs : List Bytes)
    → IsSendable connack c.properties
    → connack_buffers c ≡ ok bufs
    → connack_unpack (flatten bufs)
      ≡ ok (record c { properties = some (received connack c.properties) })
unfolding connack_buffers connack_unpack read_byte validate_id
connack_unpack-connack_buffers c bufs send e =
    let (idvp, size, packed, sized, same) = buffers_inv connack c.properties _ bufs e in
    rw (
      ← same,
      flatten-puback _ size idvp,
      unpack_last connack c.properties idvp size send refl packed sized,
      flag_bit c.session_present,
    )

long_tail :
    (size idvp : Bytes)
    → encode_vbi (pos (length idvp)) ≡ ok size
    → (suc (length (size ++ idvp)) == 1) ≡ false
long_tail size idvp sized =
    ground (arith, length-append size idvp, length-encode_vbi (length idvp) size sized)

-- DISCONNECT: Unpack gives back the reason code and the properties that the packet
-- carries, if these fit the wire.
pub disconnect_unpack-disconnect_buffers :
    (d : Disconnect) (bufs : List Bytes)
    → IsSendable disconnect d.properties
    → disconnect_buffers d ≡ ok bufs
    → disconnect_unpack (flatten bufs)
      ≡ ok (record d { properties = some (received disconnect d.properties) })
unfolding disconnect_buffers disconnect_unpack read_byte validate_id
disconnect_unpack-disconnect_buffers d bufs send e =
    let (idvp, size, packed, sized, same) = buffers_inv disconnect d.properties _ bufs e in
    rw (
      ← same,
      flatten-puback _ size idvp,
      long_tail size idvp sized,
      unpack_last disconnect d.properties idvp size send refl packed sized,
    )

-- AUTH: Unpack gives back the reason code and the properties that the packet carries, if these fit
-- the wire.
pub auth_unpack-auth_buffers :
    (a : Auth) (bufs : List Bytes)
    → IsSendable auth a.properties
    → auth_buffers a ≡ ok bufs
    → auth_unpack (flatten bufs) ≡ ok (record a { properties = some (received auth a.properties) })
unfolding auth_buffers auth_unpack read_byte validate_id
auth_unpack-auth_buffers a bufs send e =
    let (idvp, size, packed, sized, same) = buffers_inv auth a.properties _ bufs e in
    rw (← same, flatten-puback (a.reason_code ∷ []) size idvp)
      (ground (
        arith,
        long_tail size idvp sized,
        unpack_last auth a.properties idvp size send refl packed sized,
      ))

-- SUBACK: Unpack gives back the identifier, the reason codes and the properties that the packet
-- carries. The identifier fits 16 bits and the properties fit the wire.
pub suback_unpack-suback_buffers :
    (s : Suback) (bufs : List Bytes)
    → s.packet_id < 2 ^ 16
    → IsSendable suback s.properties
    → suback_buffers s ≡ ok bufs
    → suback_unpack (flatten bufs)
      ≡ ok (record s { properties = some (received suback s.properties) })
unfolding suback_buffers suback_unpack validate_id flatten
suback_unpack-suback_buffers s bufs small send e =
    let (idvp, size, packed, sized, same) = buffers_inv suback s.properties _ bufs e in
    rw (
      ← same,
      flatten,
      append-nil s.reasons,
      read_uint16-write_uint16 s.packet_id (size ++ (idvp ++ s.reasons)) small,
      unpack-pack suback s.properties idvp size s.reasons send refl packed sized,
    )

-- UNSUBACK: Unpack gives back the identifier, the reason codes and the properties that the packet
-- carries. The identifier fits 16 bits and the properties fit the wire.
pub unsuback_unpack-unsuback_buffers :
    (s : Unsuback) (bufs : List Bytes)
    → s.packet_id < 2 ^ 16
    → IsSendable unsuback s.properties
    → unsuback_buffers s ≡ ok bufs
    → unsuback_unpack (flatten bufs)
      ≡ ok (record s { properties = some (received unsuback s.properties) })
unfolding unsuback_buffers unsuback_unpack validate_id flatten
unsuback_unpack-unsuback_buffers s bufs small send e =
    let (idvp, size, packed, sized, same) = buffers_inv unsuback s.properties _ bufs e in
    rw (
      ← same,
      flatten,
      append-nil s.reasons,
      read_uint16-write_uint16 s.packet_id (size ++ (idvp ++ s.reasons)) small,
      unpack-pack unsuback s.properties idvp size s.reasons send refl packed sized,
    )
