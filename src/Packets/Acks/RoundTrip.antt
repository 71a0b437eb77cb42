-- ===== src/Packets/Acks/RoundTrip.antt =====
-- packets/puback.go, pubrec.go, pubrel.go, pubcomp.go: Unpack on what Buffers wrote.
use paho_golang.Common.{
  ℕ, ◌+◌, ◌^◌, ◌<◌, ◌≡◌, refl, sym, ◌∙◌, List, [], ◌∷◌, ◌++◌, append_assoc, append-nil, length,
  length-append, Option, none, some, arith,
}
use mathlib.Core.List.{flatten}
use paho_golang.Common.Int.{pos}
use paho_golang.Packets.Result.{Bytes, ok, ◌>>=◌, >>=-eq-ok}
use paho_golang.Packets.Types.{puback, pubrec, pubrel, pubcomp}
use paho_golang.Packets.Wire.{read_byte, read_uint16, write_uint16, encode_vbi}
use paho_golang.Packets.Wire.RoundTrip.{read_uint16-write_uint16}
use paho_golang.Packets.Properties.{Properties, empty, validate_id}
use paho_golang.Packets.Properties.Pack.{
  pack, pack_properties, pack_sub_block, pack_publish_block, pack_limits_block, pack_connack_block,
  pack_connect_block, pack_expiry_block, pack_auth_block, pack_reference_block, pack_reason_block,
}
use paho_golang.Packets.Properties.Unpack.{unpack}
use paho_golang.Packets.Properties.Unpack.Steps.{unpack_all-nil}
use paho_golang.Packets.Properties.RoundTrip.{
  received, IsSendable, unpack-pack, unpack_all-pack, length-encode_vbi,
}
use paho_golang.Packets.Acks.{
  Ack, unpack_reason, puback_unpack, pubrec_unpack, pubrel_unpack, pubcomp_unpack, unless_empty,
  ack_head, puback_buffers, pubrec_buffers, pubrel_buffers, pubcomp_buffers,
}

pub ok-injective : {s t : List Bytes} → ok s ≡ ok t → s ≡ t
ok-injective e = cc

-- The acknowledgement as its receiver sees it.
abbrev pub ack_received : Ack → Ack
ack_received a = record a { properties = some (received puback a.properties) }

abbrev pub AckFits : Ack → Type 0
AckFits a = (a.packet_id < 2 ^ 16) × IsSendable puback a.properties

read_head :
    (a : Ack) (tail : Bytes)
    → a.packet_id < 2 ^ 16
    → read_uint16 (ack_head a ++ tail) ≡ ok (a.packet_id, a.reason_code ∷ tail)
unfolding ack_head
read_head a tail small =
    rw (append_assoc (write_uint16 a.packet_id) (a.reason_code ∷ []) tail)
      (read_uint16-write_uint16 a.packet_id (a.reason_code ∷ tail) small)

length-ack_head : (a : Ack) (tail : Bytes) → length (ack_head a ++ tail) ≡ 3 + length tail
unfolding ack_head write_uint16
length-ack_head a tail = omega arith

pub flatten-puback :
    (head size idvp : Bytes)
    → flatten (head ∷ size ∷ unless_empty idvp (idvp ∷ [])) ≡ head ++ (size ++ idvp)
unfolding flatten
flatten-puback head size [] = refl
flatten-puback head size (b ∷ idvp) = simp append-nil

unpack_reason_long :
    (size id c : ℕ) (i : Properties) (tail : Bytes)
    → 3 < size
    → unpack puback empty tail ≡ ok (i, [])
    → unpack_reason size id (c ∷ tail)
      ≡ ok (record { properties = some i; packet_id = id; reason_code = c })
unfolding unpack_reason read_byte
unpack_reason_long size id c i tail long e = ground arith

module _ (a : Ack) (idvp size : Bytes) (fits : AckFits a)
    (packed : pack puback a.properties ≡ ok idvp)
    (sized : encode_vbi (pos (length idvp)) ≡ ok size) where
  read_props : unpack puback empty (size ++ idvp) ≡ ok (received puback a.properties, [])
  unfolding validate_id
  read_props =
      rw (append-nil idvp) at
        (unpack-pack puback a.properties idvp size [] fits.1 refl packed sized)

  unpack_long :
      (read_uint16 (ack_head a ++ (size ++ idvp)) >>= λ r.
      unpack_reason (length (ack_head a ++ (size ++ idvp))) r.0 r.1)
      ≡ ok (ack_received a)
  unpack_long = rw (read_head a (size ++ idvp) fits.0) (
      unpack_reason_long _ a.packet_id a.reason_code (received puback a.properties) (size ++ idvp)
        (omega (
          arith,
          length-ack_head a (size ++ idvp),
          length-append size idvp,
          length-encode_vbi (length idvp) size sized,
        ))
        read_props)

unpack_short :
    (a : Ack) (idvp size : Bytes)
    → AckFits a
    → pack puback a.properties ≡ ok idvp
    → encode_vbi (pos (length idvp)) ≡ ok size
    → (read_uint16 (flatten (ack_head a ∷ unless_empty idvp (size ∷ idvp ∷ []))) >>= λ r.
        unpack_reason
          (length (flatten (ack_head a ∷ unless_empty idvp (size ∷ idvp ∷ []))))
          r.0
          r.1)
      ≡ ok (ack_received a)
unfolding unpack_reason read_byte validate_id read_uint16 flatten
unpack_short a [] size fits packed sized = rw (read_head a [] fits.0) (
    ground (
      arith,
      length-ack_head a [],
      unpack_all-nil puback empty,
      unpack_all-pack puback a.properties [] fits.1 refl packed,
    ))
unpack_short a (b ∷ idvp) size fits packed sized =
    rw (append-nil (b ∷ idvp)) (unpack_long a (b ∷ idvp) size fits packed sized)

-- PUBACK, with and without properties: Unpack gives back the identifier, the reason code and the
-- properties that the packet carries. The identifier fits 16 bits and the properties fit the wire.
pub puback_unpack-puback_buffers :
    (a : Ack) (bufs : List Bytes)
    → AckFits a
    → puback_buffers a ≡ ok bufs
    → puback_unpack (flatten bufs) ≡ ok (ack_received a)
unfolding puback_buffers puback_unpack
puback_unpack-puback_buffers a bufs fits e =
    let (idvp, packed, e1) = >>=-eq-ok (pack puback a.properties) _ e in
    let (size, sized, e2) = >>=-eq-ok (encode_vbi (pos (length idvp))) _ e1 in
    rw (← ok-injective e2, flatten-puback (ack_head a) size idvp)
      (unpack_long a idvp size fits packed sized)

-- The four acknowledgements carry the same properties.
pack_as_puback :
    (o : Option Properties)
    → (pack pubrec o ≡ pack puback o)
      × (pack pubrel o ≡ pack puback o)
      × (pack pubcomp o ≡ pack puback o)
unfolding pack pack_properties pack_sub_block pack_publish_block pack_limits_block
    pack_connack_block pack_connect_block pack_expiry_block pack_auth_block pack_reference_block
    pack_reason_block
pack_as_puback none = (refl, refl, refl)
pack_as_puback (some i) = (refl, refl, refl)

-- PUBREC, whose properties are left out where there are none, and are read as those of a PUBACK:
-- Unpack gives back the identifier, the reason code and the properties that the packet carries.
-- The identifier fits 16 bits and the properties fit the wire.
pub pubrec_unpack-pubrec_buffers :
    (a : Ack) (bufs : List Bytes)
    → AckFits a
    → pubrec_buffers a ≡ ok bufs
    → pubrec_unpack (flatten bufs) ≡ ok (ack_received a)
unfolding pubrec_buffers pubrec_unpack
pubrec_unpack-pubrec_buffers a bufs fits e =
    let (idvp, packed, e1) = >>=-eq-ok (pack pubrec a.properties) _ e in
    let (size, sized, e2) = >>=-eq-ok (encode_vbi (pos (length idvp))) _ e1 in
    rw (← ok-injective e2)
      (unpack_short a idvp size fits (sym (pack_as_puback a.properties).0 ∙ packed) sized)

-- PUBREL, whose properties are left out where there are none, and are read as those of a PUBACK:
-- Unpack gives back the identifier, the reason code and the properties that the packet carries.
-- The identifier fits 16 bits and the properties fit the wire.
pub pubrel_unpack-pubrel_buffers :
    (a : Ack) (bufs : List Bytes)
    → AckFits a
    → pubrel_buffers a ≡ ok bufs
    → pubrel_unpack (flatten bufs) ≡ ok (ack_received a)
unfolding pubrel_buffers pubrel_unpack
pubrel_unpack-pubrel_buffers a bufs fits e =
    let (idvp, packed, e1) = >>=-eq-ok (pack pubrel a.properties) _ e in
    let (size, sized, e2) = >>=-eq-ok (encode_vbi (pos (length idvp))) _ e1 in
    rw (← ok-injective e2)
      (unpack_short a idvp size fits (sym (pack_as_puback a.properties).1 ∙ packed) sized)

-- PUBCOMP, whose properties are left out where there are none, and are read as those of a PUBACK:
-- Unpack gives back the identifier, the reason code and the properties that the packet carries.
-- The identifier fits 16 bits and the properties fit the wire.
pub pubcomp_unpack-pubcomp_buffers :
    (a : Ack) (bufs : List Bytes)
    → AckFits a
    → pubcomp_buffers a ≡ ok bufs
    → pubcomp_unpack (flatten bufs) ≡ ok (ack_received a)
unfolding pubcomp_buffers pubcomp_unpack
pubcomp_unpack-pubcomp_buffers a bufs fits e =
    let (idvp, packed, e1) = >>=-eq-ok (pack pubcomp a.properties) _ e in
    let (size, sized, e2) = >>=-eq-ok (encode_vbi (pos (length idvp))) _ e1 in
    rw (← ok-injective e2)
      (unpack_short a idvp size fits (sym (pack_as_puback a.properties).2 ∙ packed) sized)
