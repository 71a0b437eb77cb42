-- ===== src/Client/Conversions/RoundTrip.antt =====
-- paho/cp_*.go: what comes back when a packet is converted, sent, read and converted back.
use paho_golang.Common.{
  ◌≡◌, refl, ap, List, [], ◌∷◌, ◌++◌, if◌then◌else◌, ltb, none, some, Option-cases, inl, inr,
}
use paho_golang.Packets.Result.{Bytes, ok}
use paho_golang.Packets.Types
use paho_golang.Packets.Properties.{empty}
use paho_golang.Packets.Properties.RoundTrip.{received}
use paho_golang.Packets.Properties.RoundTrip.Blocks.{carried}
use paho_golang.Packets.Requests
use paho_golang.Packets.Requests.Publishing.{publish_received, PublishFits}
use paho_golang.Packets.Control.{ControlPacket, publish, control_packet, write_to, read_packet}
use paho_golang.Packets.Control.RoundTrip.{content_received, read_packet-write_to}
use paho_golang.Client.Conversions.{
  UserProperty, to_packet_properties, user_properties_from_packet_user,
}
use paho_golang.Client.Conversions.Messages.{
  Publish, PublishProperties, publish_packet, publish_from_packet_publish, publish_properties_from,
  packet_publish_properties,
}

pub user_properties_from_packet_user-to_packet_properties :
    (u : List UserProperty) → user_properties_from_packet_user (to_packet_properties u) ≡ u
unfolding user_properties_from_packet_user to_packet_properties
user_properties_from_packet_user-to_packet_properties [] = refl
user_properties_from_packet_user-to_packet_properties (v ∷ u) =
    ap (λ r. v ∷ r) (user_properties_from_packet_user-to_packet_properties u)

-- The message as its receiver has it: properties in any case, an identifier for QoS 1 and 2 only.
abbrev pub publish_seen : Publish → Publish
publish_seen p = record p {
  packet_id = if ltb 0 p.qos then p.packet_id else 0;
  properties =
      some (elim (p.properties) [ none ↦ publish_properties_from empty | some prop ↦ prop ]);
}

publish_properties_from-received :
    (prop : PublishProperties)
    → publish_properties_from (received Types.publish (some (packet_publish_properties prop)))
      ≡ prop
unfolding carried
publish_properties_from-received prop =
    ap (λ u. record prop { user = u })
      (user_properties_from_packet_user-to_packet_properties prop.user)

publish_from_packet_publish-publish_packet :
    (p : Publish)
    → publish_from_packet_publish (publish_received (publish_packet p)) ≡ some (publish_seen p)
unfolding publish_from_packet_publish publish_packet
publish_from_packet_publish-publish_packet p = elim (Option-cases p.properties) [
  | inl e ↦ rw (publish_from_packet_publish, publish_packet, e) refl
  | inr (prop, e) ↦
      rw (publish_from_packet_publish, publish_packet, e, publish_properties_from-received prop)
        refl
]

-- A message that the application publishes reaches the application at the other end as it was: it
-- is converted to a packet, written, read from the stream, and converted back. Missing properties
-- come back as empty ones and the packet identifier of a QoS 0 message as 0. The fields fit the
-- wire.
pub published_received :
    (p : Publish) (bytes rest : Bytes)
    → PublishFits (publish_packet p)
    → write_to (control_packet (publish (publish_packet p))) ≡ ok bytes
    → (c : ControlPacket) × (q : Requests.Publish) × (read_packet (bytes ++ rest) ≡ ok (c, rest))
      × (c.content ≡ publish q)
      × (publish_from_packet_publish q ≡ some (publish_seen p))
unfolding content_received
published_received p bytes rest fits e = (
  _,
  publish_received (publish_packet p),
  read_packet-write_to (publish (publish_packet p)) bytes rest fits e,
  refl,
  publish_from_packet_publish-publish_packet p,
)
