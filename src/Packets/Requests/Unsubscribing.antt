-- ===== src/Packets/Requests/Unsubscribing.antt =====
-- packets/unsubscribe.go: Unpack on what Buffers wrote.
use mathlib.Core.List.{flatten}
use paho_golang.Common.{
  ℕ, zero, suc, ◌^◌, ◌<◌, ◌≤◌, ◌≡◌, refl, List, [], ◌∷◌, ◌++◌, append_assoc, append-nil, length,
  length-append, some, arith, All,
}
use paho_golang.Packets.Result.{Bytes, ok, err, eof}
use paho_golang.Packets.Types.{unsubscribe}
use paho_golang.Packets.Wire.{
  read_byte, read_uint16, read_binary, read_string, write_uint16, write_string,
}
use paho_golang.Packets.Wire.RoundTrip.{read_uint16-write_uint16, read_string-write_string}
use paho_golang.Packets.Properties.{validate_id}
use paho_golang.Packets.Properties.RoundTrip.{received, IsSendable, unpack-pack}
use paho_golang.Packets.Properties.RoundTrip.Kinds.{IsShort}
use paho_golang.Packets.Replies.RoundTrip.{buffers_inv}
use paho_golang.Packets.Requests.{
  Unsubscribe, after_topic, topics_unpack, unsubscribe_unpack, topics_pack, unsubscribe_buffers,
}

-- The topics, with `tail` behind them, if the next `readString` meets the end of the buffer there.
topics_round_trip :
    (ts : List Bytes) (tail : Bytes) (fuel : ℕ)
    → All IsShort ts
    → read_string tail ≡ err eof
    → length ts < fuel
    → topics_unpack fuel (topics_pack ts ++ tail) ≡ ok ts
unfolding topics_unpack topics_pack after_topic
topics_round_trip ts tail zero fits stop h = absurd (omega arith)
topics_round_trip [] tail (suc fuel) fits stop h = rw stop
topics_round_trip (t ∷ ts) tail (suc fuel) (ft, fts) stop h = rw (
  append_assoc (write_string t) (topics_pack ts) tail,
  read_string-write_string t (topics_pack ts ++ tail) ft,
  topics_round_trip ts tail fuel fts stop (omega arith),
)

length-topics_pack : (ts : List Bytes) → length ts ≤ length (topics_pack ts)
unfolding topics_pack write_string write_uint16
length-topics_pack [] = omega arith
length-topics_pack (t ∷ ts) =
    omega (arith, length-append (write_string t) (topics_pack ts), length-topics_pack ts)

-- A buffer that ends before a length, or in the middle of it.
read_string_cut : (b : ℕ) → (read_string [] ≡ err eof) × (read_string (b ∷ []) ≡ err eof)
unfolding read_string read_binary read_uint16 read_byte
read_string_cut b = (refl, refl)

unsubscribe_with :
    (u : Unsubscribe) (bufs : List Bytes) (tail : Bytes)
    → u.packet_id < 2 ^ 16
    → IsSendable unsubscribe u.properties
    → All IsShort u.topics
    → read_string tail ≡ err eof
    → unsubscribe_buffers u ≡ ok bufs
    → unsubscribe_unpack (flatten bufs ++ tail)
      ≡ ok (record u { properties = some (received unsubscribe u.properties) })
unfolding unsubscribe_buffers unsubscribe_unpack validate_id flatten
unsubscribe_with u bufs tail small send fit stop e =
    let (idvp, size, packed, sized, same) = buffers_inv unsubscribe u.properties _ bufs e in
    let topics : Bytes = topics_pack u.topics in
    rw (
      ← same,
      flatten,
      append-nil topics,
      append_assoc (write_uint16 u.packet_id) (size ++ (idvp ++ topics)) tail,
      append_assoc size (idvp ++ topics) tail,
      append_assoc idvp topics tail,
      read_uint16-write_uint16 u.packet_id (size ++ (idvp ++ (topics ++ tail))) small,
      unpack-pack unsubscribe u.properties idvp size (topics ++ tail) send refl packed sized,
      topics_round_trip u.topics tail (suc (length (topics ++ tail))) fit stop
          (omega (arith, length-append topics tail, length-topics_pack u.topics)),
    )

-- UNSUBSCRIBE: Unpack gives back the identifier, the properties that the packet carries and the
-- topics in their order; the loop ends. The fields fit the wire.
pub unsubscribe_unpack-unsubscribe_buffers :
    (u : Unsubscribe) (bufs : List Bytes)
    → u.packet_id < 2 ^ 16
    → IsSendable unsubscribe u.properties
    → All IsShort u.topics
    → unsubscribe_buffers u ≡ ok bufs
    → unsubscribe_unpack (flatten bufs)
      ≡ ok (record u { properties = some (received unsubscribe u.properties) })
unsubscribe_unpack-unsubscribe_buffers u bufs small send fit e =
    rw (append-nil (flatten bufs)) at
      (unsubscribe_with u bufs [] small send fit (read_string_cut 0).0 e)

-- UNSUBSCRIBE with a damaged end: a byte `b` behind the topics, half the length of one that is
-- missing, goes unnoticed: Unpack gives what it gives without that byte, the identifier, the
-- properties that the packet carries and its topics. The fields fit the wire.
pub unsubscribe_unpack_damaged :
    (u : Unsubscribe) (bufs : List Bytes) (b : ℕ)
    → u.packet_id < 2 ^ 16
    → IsSendable unsubscribe u.properties
    → All IsShort u.topics
    → unsubscribe_buffers u ≡ ok bufs
    → (unsubscribe_unpack (flatten bufs ++ b ∷ [])
        ≡ ok (record u { properties = some (received unsubscribe u.properties) }))
      × (unsubscribe_unpack (flatten bufs)
          ≡ ok (record u { properties = some (received unsubscribe u.properties) }))
unsubscribe_unpack_damaged u bufs b small send fit e = (
  unsubscribe_with u bufs (b ∷ []) small send fit (read_string_cut b).1 e,
  unsubscribe_unpack-unsubscribe_buffers u bufs small send fit e,
)
