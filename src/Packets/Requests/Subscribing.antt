-- ===== src/Packets/Requests/Subscribing.antt =====
-- packets/subscribe.go: Unpack on what Buffers wrote.
use mathlib.Core.List.{flatten}
use paho_golang.Common.{
  ℕ, zero, suc, ◌+◌, ◌*◌, ◌/◌, ◌%◌, ◌^◌, ◌<◌, ◌≤◌, ◌≡◌, refl, List, [], ◌∷◌, ◌++◌, append-nil,
  length, length-append, some, Bool, true, false, not, arith, ◌==◌, All,
}
use paho_golang.Packets.Result.{Bytes, ok}
use paho_golang.Packets.Types.{subscribe}
use paho_golang.Packets.Wire.{read_byte, write_uint16, write_string}
use paho_golang.Packets.Wire.RoundTrip.{read_uint16-write_uint16, read_string-write_string}
use paho_golang.Packets.Properties.{validate_id}
use paho_golang.Packets.Properties.RoundTrip.{received, IsSendable, unpack-pack}
use paho_golang.Packets.Properties.RoundTrip.Kinds.{IsShort}
use paho_golang.Packets.Replies.RoundTrip.{buffers_inv}
use paho_golang.Packets.Requests.{
  flag, SubOptions, sub_options_pack, sub_options_unpack, Subscribe, subscriptions_unpack,
  subscribe_unpack, subscriptions_pack, subscribe_buffers,
}

pub record OptionsFit (o : SubOptions) : Type 0 where
  pub topic_short : IsShort o.topic
  pub qos_small : o.qos < 4
  pub handling_small : o.retain_handling < 4

option_bits :
    (q h : ℕ) (n r : Bool)
    → q < 4
    → h < 4
    → let b = q % 4 + flag n 4 + flag r 8 + h % 4 * 16 in
      (b % 4 ≡ q) × (b / 16 % 4 ≡ h) × (not (b / 4 % 2 == 0) ≡ n) × (not (b / 8 % 2 == 0) ≡ r)
option_bits q h true true hq hh = ground arith
option_bits q h true false hq hh = ground arith
option_bits q h false true hq hh = ground arith
option_bits q h false false hq hh = ground arith

sub_options_unpack-sub_options_pack :
    (o : SubOptions) (rest : Bytes)
    → OptionsFit o
    → sub_options_unpack o.topic (sub_options_pack o ∷ rest) ≡ ok (o, rest)
unfolding sub_options_unpack sub_options_pack read_byte
sub_options_unpack-sub_options_pack o rest fits =
    let (bq, bh, bn, br) =
      option_bits o.qos o.retain_handling o.no_local o.retain_as_published fits.qos_small
        fits.handling_small in
    rw (bq, bh, bn, br)

-- A string begins with its length, so what it begins is not empty.
read_string_cons : (s rest : Bytes) → (c : ℕ) × (t : Bytes) × (write_string s ++ rest ≡ c ∷ t)
unfolding write_string write_uint16
read_string_cons s rest = (_, _, refl)

subscriptions_round_trip :
    (os : List SubOptions) (fuel : ℕ)
    → All OptionsFit os
    → length os ≤ fuel
    → subscriptions_unpack fuel (subscriptions_pack os) ≡ ok os
unfolding subscriptions_unpack subscriptions_pack
subscriptions_round_trip [] fuel fits h = refl
subscriptions_round_trip (o ∷ os) zero fits h = absurd (omega arith)
subscriptions_round_trip (o ∷ os) (suc fuel) (fo, fos) h =
    let (c, t, e) = read_string_cons o.topic (sub_options_pack o ∷ subscriptions_pack os) in
    rw e (
      rw (
        ← e,
        read_string-write_string o.topic (sub_options_pack o ∷ subscriptions_pack os)
            fo.topic_short,
        sub_options_unpack-sub_options_pack o (subscriptions_pack os) fo,
        subscriptions_round_trip os fuel fos (omega arith),
      ))

length-subscriptions_pack : (os : List SubOptions) → length os ≤ length (subscriptions_pack os)
unfolding subscriptions_pack
length-subscriptions_pack [] = omega arith
length-subscriptions_pack (o ∷ os) = omega (
  arith,
  length-append (write_string o.topic) (sub_options_pack o ∷ subscriptions_pack os),
  length-subscriptions_pack os,
)

-- SUBSCRIBE: Unpack gives back the identifier, the properties that the packet carries and every
-- subscription with its topic filter, QoS and options, in their order; the loop ends. The fields
-- fit the wire.
pub subscribe_unpack-subscribe_buffers :
    (s : Subscribe) (bufs : List Bytes)
    → s.packet_id < 2 ^ 16
    → IsSendable subscribe s.properties
    → All OptionsFit s.subscriptions
    → subscribe_buffers s ≡ ok bufs
    → subscribe_unpack (flatten bufs)
      ≡ ok (record s { properties = some (received subscribe s.properties) })
unfolding subscribe_buffers subscribe_unpack validate_id flatten
subscribe_unpack-subscribe_buffers s bufs small send fit e =
    let (idvp, size, packed, sized, same) = buffers_inv subscribe s.properties _ bufs e in
    let subs : Bytes = subscriptions_pack s.subscriptions in
    rw (
      ← same,
      flatten,
      append-nil subs,
      read_uint16-write_uint16 s.packet_id (size ++ (idvp ++ subs)) small,
      unpack-pack subscribe s.properties idvp size subs send refl packed sized,
      subscriptions_round_trip s.subscriptions (length subs) fit
          (length-subscriptions_pack s.subscriptions),
    )
