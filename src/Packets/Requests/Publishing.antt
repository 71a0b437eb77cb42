-- ===== src/Packets/Requests/Publishing.antt =====
-- packets/publish.go: Unpack on what Buffers wrote.
use Prim.Native.Nat.{bit_or}
use mathlib.Core.List.{flatten}
use paho_golang.Common.{
  ℕ, zero, suc, ◌*◌, ◌/◌, ◌%◌, ◌^◌, ◌<◌, ◌≡◌, refl, List, [], ◌++◌, append_assoc, append-nil, some,
  Bool, true, false, not, arith, ltb, ◌==◌, if◌then◌else◌, Bool-cases, inl, inr,
}
use paho_golang.Packets.Result.{Bytes, ok}
use paho_golang.Packets.Types.{publish}
use paho_golang.Packets.Wire.{write_uint16, write_string}
use paho_golang.Packets.Wire.RoundTrip.{read_uint16-write_uint16, read_string-write_string}
use paho_golang.Packets.Properties.{validate_id}
use paho_golang.Packets.Properties.RoundTrip.{received, IsSendable, unpack-pack}
use paho_golang.Packets.Properties.RoundTrip.Kinds.{IsShort}
use paho_golang.Packets.Replies.RoundTrip.{buffers_inv}
use paho_golang.Packets.Requests.{
  Publish, flag, publish_flags, publish_of_flags, read_publish_id, publish_unpack, publish_buffers,
}

-- The flags as four bits: DUP, two of QoS, RETAIN.
flag_bits :
    (q : ℕ) (d r : Bool)
    → q < 4
    → let f = bit_or (bit_or (q * 2 % 256) (flag d 8)) (flag r 1) in
      (f / 2 % 4 ≡ q) × (not (f / 8 % 2 == 0) ≡ d) × (not (f % 2 == 0) ≡ r) × (f < 16)
flag_bits zero true true h = (refl, refl, refl, omega arith)
flag_bits zero true false h = (refl, refl, refl, omega arith)
flag_bits zero false true h = (refl, refl, refl, omega arith)
flag_bits zero false false h = (refl, refl, refl, omega arith)
flag_bits (suc zero) true true h = (refl, refl, refl, omega arith)
flag_bits (suc zero) true false h = (refl, refl, refl, omega arith)
flag_bits (suc zero) false true h = (refl, refl, refl, omega arith)
flag_bits (suc zero) false false h = (refl, refl, refl, omega arith)
flag_bits (suc (suc zero)) true true h = (refl, refl, refl, omega arith)
flag_bits (suc (suc zero)) true false h = (refl, refl, refl, omega arith)
flag_bits (suc (suc zero)) false true h = (refl, refl, refl, omega arith)
flag_bits (suc (suc zero)) false false h = (refl, refl, refl, omega arith)
flag_bits (suc (suc (suc zero))) true true h = (refl, refl, refl, omega arith)
flag_bits (suc (suc (suc zero))) true false h = (refl, refl, refl, omega arith)
flag_bits (suc (suc (suc zero))) false true h = (refl, refl, refl, omega arith)
flag_bits (suc (suc (suc zero))) false false h = (refl, refl, refl, omega arith)
flag_bits (suc (suc (suc (suc q)))) d r h = absurd (omega arith)

-- A PUBLISH as its receiver sees it: with QoS 0 the identifier is not sent.
abbrev pub publish_received : Publish → Publish
publish_received p = record p {
  properties = some (received publish p.properties);
  packet_id = if ltb 0 p.qos then p.packet_id else 0;
}

pub record PublishFits (p : Publish) : Type 0 where
  pub qos_small : p.qos < 4
  pub id_small : p.packet_id < 2 ^ 16
  pub topic_short : IsShort p.topic
  pub sendable : IsSendable publish p.properties

module _ (p : Publish) (fits : PublishFits p) where
  read_id :
      (q : Publish) (rest : Bytes)
      → q.qos ≡ p.qos
      → read_publish_id q ((if ltb 0 p.qos then write_uint16 p.packet_id else []) ++ rest)
        ≡ ok ((if ltb 0 p.qos then p.packet_id else q.packet_id), rest)
  unfolding read_publish_id
  read_id q rest same = elim (Bool-cases (ltb 0 p.qos)) [
    | inl e ↦ rw (same, e) (read_uint16-write_uint16 p.packet_id rest fits.id_small)
    | inr e ↦ rw (same, e)
  ]

  -- PUBLISH: from the flags and the bytes behind the fixed header Unpack gives back the message:
  -- topic, payload, QoS, DUP and RETAIN, the identifier if the QoS is above 0, and the properties
  -- that it carries. The fields fit the wire.
  pub publish_unpack-publish_buffers :
      (bufs : List Bytes)
      → publish_buffers p ≡ ok bufs
      → publish_unpack (publish_of_flags (publish_flags p)) (flatten bufs) ≡ ok (publish_received p)
  unfolding publish_buffers publish_unpack publish_of_flags publish_flags validate_id flatten
  publish_unpack-publish_buffers bufs e =
      let (idvp, size, packed, sized, same) = buffers_inv publish p.properties _ bufs e in
      let (bq, bd, br, small) = flag_bits p.qos p.duplicate p.retain fits.qos_small in
      let id : Bytes = if ltb 0 p.qos then write_uint16 p.packet_id else [] in
      rw (
        ← same,
        flatten,
        append-nil p.payload,
        append_assoc (write_string p.topic) (id ++ size) (idvp ++ p.payload),
        append_assoc id size (idvp ++ p.payload),
        read_string-write_string p.topic (id ++ (size ++ (idvp ++ p.payload))) fits.topic_short,
        read_id (publish_of_flags (publish_flags p)) (size ++ (idvp ++ p.payload)) bq,
        unpack-pack publish p.properties idvp size p.payload fits.sendable refl packed sized,
        bq,
        bd,
        br,
      )

pub publish_flags_small : (p : Publish) → PublishFits p → publish_flags p < 16
unfolding publish_flags
publish_flags_small p fits = (flag_bits p.qos p.duplicate p.retain fits.qos_small).3
