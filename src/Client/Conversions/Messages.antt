-- ===== src/Client/Conversions/Messages.antt =====
-- paho/cp_publish.go and paho/cp_pubresp.go.
use paho_golang.Common.{ℕ, List, Bool, Option, none, some}
use paho_golang.Common.Int.{ℤ}
use paho_golang.Packets.Result.{Bytes}
use paho_golang.Packets.Properties.{Properties, empty}
use paho_golang.Packets.Acks.{Ack}
use paho_golang.Packets.Requests
use paho_golang.Client.Conversions.{
  UserProperty, to_packet_properties, user_properties_from_packet_user,
}

pub record PublishProperties : Type 0 where
  pub correlation_data : Bytes
  pub content_type : Bytes
  pub response_topic : Bytes
  pub payload_format : Option ℕ
  pub message_expiry : Option ℕ
  pub subscription_identifier : Option ℤ
  pub topic_alias : Option ℕ
  pub user : List UserProperty

pub record Publish : Type 0 where
  pub packet_id : ℕ
  pub qos : ℕ
  pub duplicate : Bool
  pub retain : Bool
  pub topic : Bytes
  pub properties : Option PublishProperties
  pub payload : Bytes

-- What InitProperties makes of the packet's properties.
abbrev pub publish_properties_from : Properties → PublishProperties
publish_properties_from prop = record {
  payload_format = prop.payload_format;
  message_expiry = prop.message_expiry;
  content_type = prop.content_type;
  response_topic = prop.response_topic;
  correlation_data = prop.correlation_data;
  topic_alias = prop.topic_alias;
  subscription_identifier = prop.subscription_identifier;
  user = user_properties_from_packet_user prop.user;
}

-- PublishFromPacketPublish
unfoldable pub publish_from_packet_publish : Requests.Publish → Option Publish
publish_from_packet_publish p = elim (p.properties) [
  | none ↦ none
  | some prop ↦ some (record {
    packet_id = p.packet_id;
    qos = p.qos;
    duplicate = p.duplicate;
    retain = p.retain;
    topic = p.topic;
    payload = p.payload;
    properties = some (publish_properties_from prop);
  })
]

abbrev pub packet_publish_properties : PublishProperties → Properties
packet_publish_properties prop = record empty {
  payload_format = prop.payload_format;
  message_expiry = prop.message_expiry;
  content_type = prop.content_type;
  response_topic = prop.response_topic;
  correlation_data = prop.correlation_data;
  topic_alias = prop.topic_alias;
  subscription_identifier = prop.subscription_identifier;
  user = to_packet_properties prop.user;
}

abbrev pub map_properties {ℓ κ} : {A : Type ℓ} {B : Type κ} → (A → B) → Option A → Option B
map_properties f none = none
map_properties f (some a) = some (f a)

-- Publish.Packet
unfoldable pub publish_packet : Publish → Requests.Publish
publish_packet p = record {
  packet_id = p.packet_id;
  qos = p.qos;
  duplicate = p.duplicate;
  retain = p.retain;
  topic = p.topic;
  payload = p.payload;
  properties = map_properties packet_publish_properties p.properties;
}

pub record PublishResponseProperties : Type 0 where
  pub reason_string : Bytes
  pub user : List UserProperty

pub record PublishResponse : Type 0 where
  pub properties : Option PublishResponseProperties
  pub reason_code : ℕ

-- PublishResponseFromPuback, PublishResponseFromPubcomp, PublishResponseFromPubrec
unfoldable pub publish_response_from : Ack → Option PublishResponse
publish_response_from a = elim (a.properties) [
  | none ↦ none
  | some prop ↦ some (record {
    reason_code = a.reason_code;
    properties = some (record {
      reason_string = prop.reason_string;
      user = user_properties_from_packet_user prop.user;
    });
  })
]
