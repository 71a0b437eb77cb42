-- ===== src/Packets/Requests.antt =====
-- packets/publish.go, subscribe.go, unsubscribe.go. Unpack is on the receiver that ReadPacket makes,
-- with empty properties; what it leaves of the buffer is dropped there.
pub mod Publishing
pub mod Subscribing
pub mod Unsubscribing
use Prim.Native.Nat.{bit_or}
use paho_golang.Common.{
  ℕ, zero, suc, ◌+◌, ◌*◌, ◌/◌, ◌%◌, List, [], ◌∷◌, ◌++◌, Option, some, Bool, true, false, not, ltb,
  ◌==◌, if◌then◌else◌, length,
}
use paho_golang.Common.Int.{pos}
use paho_golang.Packets.Result.{Bytes, Reader, Result, ok, err, eof, out_of_fuel, ◌>>=◌}
use paho_golang.Packets.Types.{publish, subscribe, unsubscribe}
use paho_golang.Packets.Wire.{
  read_byte, read_uint16, read_string, write_uint16, write_string, encode_vbi,
}
use paho_golang.Packets.Properties.{Properties, empty}
use paho_golang.Packets.Properties.Pack.{pack}
use paho_golang.Packets.Properties.Unpack.{unpack}

pub record Publish : Type 0 where
  pub payload : Bytes
  pub topic : Bytes
  pub properties : Option Properties
  pub packet_id : ℕ
  pub qos : ℕ
  pub duplicate : Bool
  pub retain : Bool

abbrev pub flag : Bool → ℕ → ℕ
flag b v = if b then v else 0

-- The flags of ToControlPacket, as WriteTo sets them again.
unfoldable pub publish_flags : Publish → ℕ
publish_flags p = bit_or (bit_or (p.qos * 2 % 256) (flag p.duplicate 8)) (flag p.retain 1)

-- What ReadPacket sets from the flags of the fixed header.
pub publish_of_flags : ℕ → Publish
publish_of_flags f = record {
  payload = [];
  topic = [];
  properties = some empty;
  packet_id = 0;
  qos = f / 2 % 4;
  duplicate = not (f / 8 % 2 == 0);
  retain = not (f % 2 == 0);
}

-- The packet identifier is there for QoS 1 and 2 only.
pub read_publish_id : Publish → Reader ℕ
read_publish_id p bs = if ltb 0 p.qos then read_uint16 bs else ok (p.packet_id, bs)

pub publish_unpack : Publish → Bytes → Result Publish
publish_unpack p bs = do
  (topic, bs1) ← read_string bs
  (id, bs2) ← read_publish_id p bs1
  (props, bs3) ← unpack publish empty bs2
  ok (record p { topic = topic; packet_id = id; properties = some props; payload = bs3 })

unfoldable pub publish_buffers : Publish → Result (List Bytes)
publish_buffers p = do
  idvp ← pack publish p.properties
  prop_len ← encode_vbi (pos (length idvp))
  ok (
      (write_string p.topic ++ ((if ltb 0 p.qos then write_uint16 p.packet_id else []) ++ prop_len))
      ∷ idvp
      ∷ p.payload
      ∷ [])

pub record SubOptions : Type 0 where
  pub topic : Bytes
  pub qos : ℕ
  pub retain_handling : ℕ
  pub no_local : Bool
  pub retain_as_published : Bool

-- SubOptions.Pack; the masks keep the four parts in bits of their own.
pub sub_options_pack : SubOptions → ℕ
sub_options_pack s =
    s.qos % 4 + flag s.no_local 4 + flag s.retain_as_published 8 + s.retain_handling % 4 * 16

-- SubOptions.Unpack, for the topic that was read before it.
pub sub_options_unpack : Bytes → Reader SubOptions
sub_options_unpack topic bs = read_byte bs >>= λ r. ok (
  record {
    topic = topic;
    qos = r.0 % 4;
    retain_handling = r.0 / 16 % 4;
    no_local = not (r.0 / 4 % 2 == 0);
    retain_as_published = not (r.0 / 8 % 2 == 0);
  },
  r.1,
)

pub record Subscribe : Type 0 where
  pub properties : Option Properties
  pub subscriptions : List SubOptions
  pub packet_id : ℕ

-- `for r.Len() > 0`; each round takes three bytes at least.
pub subscriptions_unpack : ℕ → Bytes → Result (List SubOptions)
subscriptions_unpack fuel [] = ok []
subscriptions_unpack zero (b ∷ bs) = err out_of_fuel
subscriptions_unpack (suc fuel) (b ∷ bs) = do
  (topic, bs1) ← read_string (b ∷ bs)
  (o, bs2) ← sub_options_unpack topic bs1
  os ← subscriptions_unpack fuel bs2
  ok (o ∷ os)

pub subscribe_unpack : Bytes → Result Subscribe
subscribe_unpack bs = do
  (id, bs1) ← read_uint16 bs
  (props, bs2) ← unpack subscribe empty bs1
  subs ← subscriptions_unpack (length bs2) bs2
  ok (record { properties = some props; subscriptions = subs; packet_id = id })

pub subscriptions_pack : List SubOptions → Bytes
subscriptions_pack [] = []
subscriptions_pack (o ∷ os) = write_string o.topic ++ sub_options_pack o ∷ subscriptions_pack os

pub subscribe_buffers : Subscribe → Result (List Bytes)
subscribe_buffers s = do
  idvp ← pack subscribe s.properties
  prop_len ← encode_vbi (pos (length idvp))
  ok (write_uint16 s.packet_id ∷ prop_len ∷ idvp ∷ subscriptions_pack s.subscriptions ∷ [])

pub record Unsubscribe : Type 0 where
  pub topics : List Bytes
  pub properties : Option Properties
  pub packet_id : ℕ

-- The loop over the topics ends at io.EOF from `readString`, other errors are returned.
pub after_topic : (Bytes → Result (List Bytes)) → Result (Bytes × Bytes) → Result (List Bytes)
after_topic again (ok (t, rest)) = again rest >>= λ ts. ok (t ∷ ts)
after_topic again (err eof) = ok []
after_topic again (err x) = err x

-- Each round takes two bytes at least.
pub topics_unpack : ℕ → Bytes → Result (List Bytes)
topics_unpack zero bs = err out_of_fuel
topics_unpack (suc fuel) bs = after_topic (topics_unpack fuel) (read_string bs)

pub unsubscribe_unpack : Bytes → Result Unsubscribe
unsubscribe_unpack bs = do
  (id, bs1) ← read_uint16 bs
  (props, bs2) ← unpack unsubscribe empty bs1
  topics ← topics_unpack (suc (length bs2)) bs2
  ok (record { topics = topics; properties = some props; packet_id = id })

unfoldable pub topics_pack : List Bytes → Bytes
topics_pack [] = []
topics_pack (t ∷ ts) = write_string t ++ topics_pack ts

unfoldable pub unsubscribe_buffers : Unsubscribe → Result (List Bytes)
unsubscribe_buffers u = do
  idvp ← pack unsubscribe u.properties
  prop_len ← encode_vbi (pos (length idvp))
  ok (write_uint16 u.packet_id ∷ prop_len ∷ idvp ∷ topics_pack u.topics ∷ [])
