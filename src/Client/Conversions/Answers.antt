-- ===== src/Client/Conversions/Answers.antt =====
-- paho/cp_connack.go, paho/cp_disconnect.go and paho/cp_auth.go.
use paho_golang.Common.{ℕ, List, [], ◌==◌, Bool, true, false, Option, none, some}
use paho_golang.Packets.Result.{Bytes}
use paho_golang.Packets.Properties.{Properties, empty}
use paho_golang.Packets.Replies
use paho_golang.Client.Conversions.{
  UserProperty, to_packet_properties, user_properties_from_packet_user,
}
use paho_golang.Client.Conversions.Messages.{map_properties}

pub record ConnackProperties : Type 0 where
  pub session_expiry_interval : Option ℕ
  pub auth_data : Bytes
  pub auth_method : Bytes
  pub response_info : Bytes
  pub server_reference : Bytes
  pub reason_string : Bytes
  pub assigned_client_id : Bytes
  pub maximum_packet_size : Option ℕ
  pub receive_maximum : Option ℕ
  pub topic_alias_maximum : Option ℕ
  pub server_keep_alive : Option ℕ
  pub maximum_qos : Option ℕ
  pub user : List UserProperty
  pub wildcard_sub_available : Bool
  pub sub_id_available : Bool
  pub shared_sub_available : Bool
  pub retain_available : Bool

pub record Connack : Type 0 where
  pub properties : Option ConnackProperties
  pub reason_code : ℕ
  pub session_present : Bool

-- True by default, and otherwise whether the byte is 1.
abbrev pub available : Option ℕ → Bool
available none = true
available (some b) = b == 1

-- Connack.InitProperties
abbrev pub connack_properties_from : Properties → ConnackProperties
connack_properties_from p = record {
  assigned_client_id = p.assigned_client_id;
  server_keep_alive = p.server_keep_alive;
  wildcard_sub_available = available p.wildcard_sub_available;
  sub_id_available = available p.sub_id_available;
  shared_sub_available = available p.shared_sub_available;
  retain_available = available p.retain_available;
  response_info = p.response_info;
  session_expiry_interval = p.session_expiry_interval;
  auth_method = p.auth_method;
  auth_data = p.auth_data;
  server_reference = p.server_reference;
  reason_string = p.reason_string;
  receive_maximum = p.receive_maximum;
  topic_alias_maximum = p.topic_alias_maximum;
  maximum_qos = p.maximum_qos;
  maximum_packet_size = p.maximum_packet_size;
  user = user_properties_from_packet_user p.user;
}

-- ConnackFromPacketConnack
unfoldable pub connack_from_packet_connack : Replies.Connack → Option Connack
connack_from_packet_connack c = elim (c.properties) [
  | none ↦ none
  | some p ↦ some (record {
    session_present = c.session_present;
    reason_code = c.reason_code;
    properties = some (connack_properties_from p);
  })
]

pub record DisconnectProperties : Type 0 where
  pub server_reference : Bytes
  pub reason_string : Bytes
  pub session_expiry_interval : Option ℕ
  pub user : List UserProperty

pub record Disconnect : Type 0 where
  pub properties : Option DisconnectProperties
  pub reason_code : ℕ

-- Disconnect.InitProperties
abbrev pub disconnect_properties_from : Properties → DisconnectProperties
disconnect_properties_from p = record {
  session_expiry_interval = p.session_expiry_interval;
  server_reference = p.server_reference;
  reason_string = p.reason_string;
  user = user_properties_from_packet_user p.user;
}

-- DisconnectFromPacketDisconnect
unfoldable pub disconnect_from_packet_disconnect : Replies.Disconnect → Option Disconnect
disconnect_from_packet_disconnect d = elim (d.properties) [
  | none ↦ none
  | some p ↦
      some
        (record { reason_code = d.reason_code; properties = some (disconnect_properties_from p) })
]

abbrev pub packet_disconnect_properties : DisconnectProperties → Properties
packet_disconnect_properties d = record empty {
  session_expiry_interval = d.session_expiry_interval;
  server_reference = d.server_reference;
  reason_string = d.reason_string;
  user = to_packet_properties d.user;
}

-- Disconnect.Packet
unfoldable pub disconnect_packet : Disconnect → Replies.Disconnect
disconnect_packet d = record {
  reason_code = d.reason_code;
  properties = map_properties packet_disconnect_properties d.properties;
}

pub record AuthProperties : Type 0 where
  pub auth_data : Bytes
  pub auth_method : Bytes
  pub reason_string : Bytes
  pub user : List UserProperty

pub record Auth : Type 0 where
  pub properties : Option AuthProperties
  pub reason_code : ℕ

-- Auth.InitProperties
abbrev pub auth_properties_from : Properties → AuthProperties
auth_properties_from p = record {
  auth_method = p.auth_method;
  auth_data = p.auth_data;
  reason_string = p.reason_string;
  user = user_properties_from_packet_user p.user;
}

-- AuthFromPacketAuth
unfoldable pub auth_from_packet_auth : Replies.Auth → Option Auth
auth_from_packet_auth a = elim (a.properties) [
  | none ↦ none
  | some p ↦
      some (record { reason_code = a.reason_code; properties = some (auth_properties_from p) })
]

abbrev pub packet_auth_properties : AuthProperties → Properties
packet_auth_properties a = record empty {
  auth_method = a.auth_method;
  auth_data = a.auth_data;
  reason_string = a.reason_string;
  user = to_packet_properties a.user;
}

-- Auth.Packet
unfoldable pub auth_packet : Auth → Replies.Auth
auth_packet a = record {
  reason_code = a.reason_code;
  properties = map_properties packet_auth_properties a.properties;
}

pub record AuthResponse : Type 0 where
  pub properties : Option AuthProperties
  pub reason_code : ℕ
  pub success : Bool

abbrev pub response_properties : Properties → AuthProperties
response_properties p = record {
  auth_data = [];
  auth_method = [];
  reason_string = p.reason_string;
  user = user_properties_from_packet_user p.user;
}

unfoldable pub auth_response_from_packet_auth : Replies.Auth → Option AuthResponse
auth_response_from_packet_auth a = elim (a.properties) [
  | none ↦ none
  | some p ↦ some (record {
    success = true;
    reason_code = a.reason_code;
    properties = some (response_properties p);
  })
]

unfoldable pub auth_response_from_packet_disconnect : Replies.Disconnect → Option AuthResponse
auth_response_from_packet_disconnect d = elim (d.properties) [
  | none ↦ none
  | some p ↦ some (record {
    success = false;
    reason_code = d.reason_code;
    properties = some (response_properties p);
  })
]
