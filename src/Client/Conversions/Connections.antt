-- ===== src/Client/Conversions/Connections.antt =====
-- paho/cp_connect.go.
use paho_golang.Common.{ℕ, List, [], ◌==◌, Bool, true, false, if◌then◌else◌, Option, none, some}
use paho_golang.Packets.Result.{Bytes}
use paho_golang.Packets.Properties.{Properties, empty}
use paho_golang.Packets.Connecting
use paho_golang.Client.Conversions.{
  UserProperty, to_packet_properties, user_properties_from_packet_user,
}
use paho_golang.Client.Conversions.Messages.{map_properties}

pub record ConnectProperties : Type 0 where
  pub auth_data : Bytes
  pub auth_method : Bytes
  pub session_expiry_interval : Option ℕ
  pub will_delay_interval : Option ℕ
  pub receive_maximum : Option ℕ
  pub topic_alias_maximum : Option ℕ
  pub maximum_packet_size : Option ℕ
  pub user : List UserProperty
  pub request_problem_info : Bool
  pub request_response_info : Bool

pub record WillMessage : Type 0 where
  pub retain : Bool
  pub qos : ℕ
  pub topic : Bytes
  pub payload : Bytes

pub record WillProperties : Type 0 where
  pub will_delay_interval : Option ℕ
  pub payload_format : Option ℕ
  pub message_expiry : Option ℕ
  pub content_type : Bytes
  pub response_topic : Bytes
  pub correlation_data : Bytes
  pub user : List UserProperty

pub record Connect : Type 0 where
  pub password : Bytes
  pub username : Bytes
  pub client_id : Bytes
  pub properties : Option ConnectProperties
  pub will_message : Option WillMessage
  pub will_properties : Option WillProperties
  pub keep_alive : ℕ
  pub clean_start : Bool
  pub username_flag : Bool
  pub password_flag : Bool

-- `if asked != nil { … = *answer == 1 }`, over a default; `*answer` panics when it is nil.
abbrev pub flag_from : (asked answer : Option ℕ) → Bool → Option Bool
flag_from none answer default = some default
flag_from (some a) none default = none
flag_from (some a) (some b) default = some (b == 1)

-- Connect.InitProperties, which takes RequestResponseInfo from the value of RequestProblemInfo.
unfoldable pub connect_properties_from : Properties → Option ConnectProperties
connect_properties_from p = elim (flag_from p.request_response_info p.request_problem_info false) [
  | none ↦ none
  | some response ↦ elim (flag_from p.request_problem_info p.request_problem_info true) [
    | none ↦ none
    | some problem ↦ some (record {
      session_expiry_interval = p.session_expiry_interval;
      auth_method = p.auth_method;
      auth_data = p.auth_data;
      will_delay_interval = p.will_delay_interval;
      request_response_info = response;
      request_problem_info = problem;
      receive_maximum = p.receive_maximum;
      topic_alias_maximum = p.topic_alias_maximum;
      maximum_packet_size = p.maximum_packet_size;
      user = user_properties_from_packet_user p.user;
    })
  ]
]

-- Connect.InitWillProperties
abbrev pub will_properties_from : Properties → WillProperties
will_properties_from p = record {
  will_delay_interval = p.will_delay_interval;
  payload_format = p.payload_format;
  message_expiry = p.message_expiry;
  content_type = p.content_type;
  response_topic = p.response_topic;
  correlation_data = p.correlation_data;
  user = user_properties_from_packet_user p.user;
}

-- The Connect before its will is set.
abbrev pub without_will : Connecting.Connect → ConnectProperties → Connect
without_will p props = record {
  username_flag = p.username_flag;
  username = p.username;
  password_flag = p.password_flag;
  password = p.password;
  client_id = p.client_id;
  clean_start = p.clean_start;
  keep_alive = p.keep_alive;
  properties = some props;
  will_message = none;
  will_properties = none;
}

-- `if p.WillFlag`
unfoldable pub set_will : Connecting.Connect → Connect → Option Connect
set_will p v = elim (p.will_flag) [
  | false ↦ some v
  | true ↦ elim (p.will_properties) [
    | none ↦ none
    | some props ↦ some (record v {
      will_message = some (record {
        retain = p.will_retain;
        qos = p.will_qos;
        topic = p.will_topic;
        payload = p.will_message;
      });
      will_properties = some (will_properties_from props);
    })
  ]
]

-- ConnectFromPacketConnect
unfoldable pub connect_from_packet_connect : Connecting.Connect → Option Connect
unfolding connect_properties_from set_will
connect_from_packet_connect p = elim (p.properties) [
  | none ↦ none
  | some prop ↦ elim (connect_properties_from prop) [
    | none ↦ none
    | some props ↦ set_will p (without_will p props)
  ]
]

abbrev pub packet_connect_properties : ConnectProperties → Properties
packet_connect_properties c = record empty {
  session_expiry_interval = c.session_expiry_interval;
  auth_method = c.auth_method;
  auth_data = c.auth_data;
  will_delay_interval = c.will_delay_interval;
  receive_maximum = c.receive_maximum;
  topic_alias_maximum = c.topic_alias_maximum;
  maximum_packet_size = c.maximum_packet_size;
  user = to_packet_properties c.user;
  request_response_info = if c.request_response_info then some 1 else none;
  request_problem_info = if c.request_problem_info then none else some 0;
}

abbrev pub packet_will_properties : WillProperties → Properties
packet_will_properties w = record empty {
  will_delay_interval = w.will_delay_interval;
  payload_format = w.payload_format;
  message_expiry = w.message_expiry;
  content_type = w.content_type;
  response_topic = w.response_topic;
  correlation_data = w.correlation_data;
  user = to_packet_properties w.user;
}

-- The packet before its will: the fields that are not set are zero, the protocol's too.
abbrev pub packet_without_will : Connect → Connecting.Connect
packet_without_will c = record {
  username_flag = c.username_flag;
  username = c.username;
  password_flag = c.password_flag;
  password = c.password;
  client_id = c.client_id;
  clean_start = c.clean_start;
  keep_alive = c.keep_alive;
  properties = map_properties packet_connect_properties c.properties;
  will_message = [];
  will_topic = [];
  will_properties = none;
  will_qos = 0;
  will_retain = false;
  will_flag = false;
  protocol_name = [];
  protocol_version = 0;
}

-- Connect.Packet
unfoldable pub connect_packet : Connect → Connecting.Connect
connect_packet c = elim (c.will_message) [
  | none ↦ packet_without_will c
  | some w ↦ record (packet_without_will c) {
    will_flag = true;
    will_qos = w.qos;
    will_topic = w.topic;
    will_retain = w.retain;
    will_message = w.payload;
    will_properties = map_properties packet_will_properties c.will_properties;
  }
]
