-- ===== src/Client/Conversions/Subscriptions.antt =====
-- paho/cp_subscribe.go, paho/cp_suback.go, paho/cp_unsubscribe.go and paho/cp_unsuback.go.
use paho_golang.Common.{ℕ, List, map, Bool, Option, none, some}
use paho_golang.Common.Int.{ℤ}
use paho_golang.Packets.Result.{Bytes}
use paho_golang.Packets.Properties.{Properties, empty}
use paho_golang.Packets.Requests
use paho_golang.Packets.Replies
use paho_golang.Client.Conversions.{
  UserProperty, to_packet_properties, user_properties_from_packet_user,
}
use paho_golang.Client.Conversions.Messages.{map_properties}

pub record SubscribeOptions : Type 0 where
  pub topic : Bytes
  pub qos : ℕ
  pub retain_handling : ℕ
  pub no_local : Bool
  pub retain_as_published : Bool

pub record SubscribeProperties : Type 0 where
  pub subscription_identifier : Option ℤ
  pub user : List UserProperty

pub record Subscribe : Type 0 where
  pub properties : Option SubscribeProperties
  pub subscriptions : List SubscribeOptions

-- Subscribe.InitProperties
abbrev pub subscribe_properties_from : Properties → SubscribeProperties
subscribe_properties_from prop = record {
  subscription_identifier = prop.subscription_identifier;
  user = user_properties_from_packet_user prop.user;
}

abbrev pub packet_sub_options : SubscribeOptions → Requests.SubOptions
packet_sub_options sub = record {
  topic = sub.topic;
  qos = sub.qos;
  no_local = sub.no_local;
  retain_as_published = sub.retain_as_published;
  retain_handling = sub.retain_handling;
}

-- PacketSubOptionsFromSubscribeOptions
abbrev pub packet_sub_options_from : Subscribe → List Requests.SubOptions
packet_sub_options_from s = map packet_sub_options s.subscriptions

abbrev pub packet_subscribe_properties : SubscribeProperties → Properties
packet_subscribe_properties p = record empty {
  subscription_identifier = p.subscription_identifier;
  user = to_packet_properties p.user;
}

-- Subscribe.Packet
unfoldable pub subscribe_packet : Subscribe → Requests.Subscribe
subscribe_packet s = record {
  subscriptions = packet_sub_options_from s;
  properties = map_properties packet_subscribe_properties s.properties;
  packet_id = 0;
}

pub record Unsubscribe : Type 0 where
  pub topics : List Bytes
  pub properties : Option (List UserProperty)

abbrev pub packet_user_properties : List UserProperty → Properties
packet_user_properties u = record empty { user = to_packet_properties u }

-- Unsubscribe.Packet
unfoldable pub unsubscribe_packet : Unsubscribe → Requests.Unsubscribe
unsubscribe_packet u = record {
  topics = u.topics;
  properties = map_properties packet_user_properties u.properties;
  packet_id = 0;
}

pub record SubackProperties : Type 0 where
  pub reason_string : Bytes
  pub user : List UserProperty

pub record Suback : Type 0 where
  pub properties : Option SubackProperties
  pub reasons : Bytes

-- Suback.Packet
unfoldable pub suback_packet : Suback → Option Replies.Suback
suback_packet s = elim (s.properties) [
  | none ↦ none
  | some p ↦ some (record {
    reasons = s.reasons;
    properties = some (packet_user_properties p.user);
    packet_id = 0;
  })
]

unfoldable pub suback_from_packet_suback : Replies.Suback → Option Suback
suback_from_packet_suback s = elim (s.properties) [
  | none ↦ none
  | some p ↦ some (record {
    reasons = s.reasons;
    properties = some (record {
      reason_string = p.reason_string;
      user = user_properties_from_packet_user p.user;
    });
  })
]

pub record UnsubackProperties : Type 0 where
  pub reason_string : Bytes
  pub user : List UserProperty

pub record Unsuback : Type 0 where
  pub reasons : Bytes
  pub properties : Option UnsubackProperties

-- Unsuback.Packet
unfoldable pub unsuback_packet : Unsuback → Option Replies.Unsuback
unsuback_packet u = elim (u.properties) [
  | none ↦ none
  | some p ↦ some (record {
    reasons = u.reasons;
    properties = some (packet_user_properties p.user);
    packet_id = 0;
  })
]

unfoldable pub unsuback_from_packet_unsuback : Replies.Unsuback → Option Unsuback
unsuback_from_packet_unsuback u = elim (u.properties) [
  | none ↦ none
  | some p ↦ some (record {
    reasons = u.reasons;
    properties = some (record {
      reason_string = p.reason_string;
      user = user_properties_from_packet_user p.user;
    });
  })
]
