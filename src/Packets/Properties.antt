-- ===== src/Packets/Properties.antt =====
-- packets/properties.go: the record of properties, their codes, and which packet may carry which.
-- A nil pointer is `none`. A string or slice of no bytes stands for its absence, as in Pack.
pub mod Pack
pub mod Unpack
pub mod RoundTrip
pub mod Faults
use paho_golang.Common.{ℕ, List, [], ◌∷◌, Option, none, Bool, false, ◌==◌, ◌||◌, if◌then◌else◌}
use paho_golang.Common.Int.{ℤ}
use paho_golang.Packets.Result.{Bytes}
use paho_golang.Packets.Types.{
  connect, connack, publish, puback, pubrec, pubrel, pubcomp, subscribe, suback, unsubscribe,
  unsuback, disconnect, auth,
}

pub record User : Type 0 where
  pub key : Bytes
  pub value : Bytes

pub record Properties : Type 0 where
  pub payload_format : Option ℕ
  pub message_expiry : Option ℕ
  pub content_type : Bytes
  pub response_topic : Bytes
  pub correlation_data : Bytes
  pub subscription_identifier : Option ℤ
  pub session_expiry_interval : Option ℕ
  pub assigned_client_id : Bytes
  pub server_keep_alive : Option ℕ
  pub auth_method : Bytes
  pub auth_data : Bytes
  pub request_problem_info : Option ℕ
  pub will_delay_interval : Option ℕ
  pub request_response_info : Option ℕ
  pub response_info : Bytes
  pub server_reference : Bytes
  pub reason_string : Bytes
  pub receive_maximum : Option ℕ
  pub topic_alias_maximum : Option ℕ
  pub topic_alias : Option ℕ
  pub maximum_qos : Option ℕ
  pub retain_available : Option ℕ
  pub user : List User
  pub maximum_packet_size : Option ℕ
  pub wildcard_sub_available : Option ℕ
  pub sub_id_available : Option ℕ
  pub shared_sub_available : Option ℕ

-- `&Properties{}`
abbrev pub empty : Properties
empty = record {
  payload_format = none;
  message_expiry = none;
  content_type = [];
  response_topic = [];
  correlation_data = [];
  subscription_identifier = none;
  session_expiry_interval = none;
  assigned_client_id = [];
  server_keep_alive = none;
  auth_method = [];
  auth_data = [];
  request_problem_info = none;
  will_delay_interval = none;
  request_response_info = none;
  response_info = [];
  server_reference = [];
  reason_string = [];
  receive_maximum = none;
  topic_alias_maximum = none;
  topic_alias = none;
  maximum_qos = none;
  retain_available = none;
  user = [];
  maximum_packet_size = none;
  wildcard_sub_available = none;
  sub_id_available = none;
  shared_sub_available = none;
}

-- The codes of the properties on the wire.
abbrev pub prop_payload_format : ℕ
prop_payload_format = 1

abbrev pub prop_message_expiry : ℕ
prop_message_expiry = 2

abbrev pub prop_content_type : ℕ
prop_content_type = 3

abbrev pub prop_response_topic : ℕ
prop_response_topic = 8

abbrev pub prop_correlation_data : ℕ
prop_correlation_data = 9

abbrev pub prop_subscription_identifier : ℕ
prop_subscription_identifier = 11

abbrev pub prop_session_expiry_interval : ℕ
prop_session_expiry_interval = 17

abbrev pub prop_assigned_client_id : ℕ
prop_assigned_client_id = 18

abbrev pub prop_server_keep_alive : ℕ
prop_server_keep_alive = 19

abbrev pub prop_auth_method : ℕ
prop_auth_method = 21

abbrev pub prop_auth_data : ℕ
prop_auth_data = 22

abbrev pub prop_request_problem_info : ℕ
prop_request_problem_info = 23

abbrev pub prop_will_delay_interval : ℕ
prop_will_delay_interval = 24

abbrev pub prop_request_response_info : ℕ
prop_request_response_info = 25

abbrev pub prop_response_info : ℕ
prop_response_info = 26

abbrev pub prop_server_reference : ℕ
prop_server_reference = 28

abbrev pub prop_reason_string : ℕ
prop_reason_string = 31

abbrev pub prop_receive_maximum : ℕ
prop_receive_maximum = 33

abbrev pub prop_topic_alias_maximum : ℕ
prop_topic_alias_maximum = 34

abbrev pub prop_topic_alias : ℕ
prop_topic_alias = 35

abbrev pub prop_maximum_qos : ℕ
prop_maximum_qos = 36

abbrev pub prop_retain_available : ℕ
prop_retain_available = 37

abbrev pub prop_user : ℕ
prop_user = 38

abbrev pub prop_maximum_packet_size : ℕ
prop_maximum_packet_size = 39

abbrev pub prop_wildcard_sub_available : ℕ
prop_wildcard_sub_available = 40

abbrev pub prop_sub_id_available : ℕ
prop_sub_id_available = 41

abbrev pub prop_shared_sub_available : ℕ
prop_shared_sub_available = 42

-- Whether a set of the map holds a packet type.
abbrev pub holds : List ℕ → ℕ → Bool
holds [] p = false
holds (q ∷ qs) p = q == p || holds qs p

-- The map ValidProperties; a code that it lacks has the empty set.
unfoldable pub valid_properties : ℕ → List ℕ
valid_properties i =
    if i == prop_payload_format
    then connect ∷ publish ∷ []
    else if i == prop_message_expiry
    then connect ∷ publish ∷ []
    else if i == prop_content_type
    then connect ∷ publish ∷ []
    else if i == prop_response_topic
    then connect ∷ publish ∷ []
    else if i == prop_correlation_data
    then connect ∷ publish ∷ []
    else if i == prop_topic_alias
    then publish ∷ []
    else if i == prop_subscription_identifier
    then publish ∷ subscribe ∷ []
    else if i == prop_session_expiry_interval
    then connect ∷ connack ∷ disconnect ∷ []
    else if i == prop_assigned_client_id
    then connack ∷ []
    else if i == prop_server_keep_alive
    then connack ∷ []
    else if i == prop_wildcard_sub_available
    then connack ∷ []
    else if i == prop_sub_id_available
    then connack ∷ []
    else if i == prop_shared_sub_available
    then connack ∷ []
    else if i == prop_retain_available
    then connack ∷ []
    else if i == prop_response_info
    then connack ∷ []
    else if i == prop_auth_method
    then connect ∷ connack ∷ auth ∷ []
    else if i == prop_auth_data
    then connect ∷ connack ∷ auth ∷ []
    else if i == prop_request_problem_info
    then connect ∷ []
    else if i == prop_will_delay_interval
    then connect ∷ []
    else if i == prop_request_response_info
    then connect ∷ []
    else if i == prop_server_reference
    then connack ∷ disconnect ∷ []
    else if i == prop_reason_string
    then connack ∷ puback ∷ pubrec ∷ pubrel ∷ pubcomp ∷ suback ∷ unsuback ∷ disconnect ∷ auth ∷ []
    else if i == prop_receive_maximum
    then connect ∷ connack ∷ []
    else if i == prop_topic_alias_maximum
    then connect ∷ connack ∷ []
    else if i == prop_maximum_qos
    then connack ∷ []
    else if i == prop_maximum_packet_size
    then connect ∷ connack ∷ []
    else if i == prop_user
    then connect ∷ connack ∷ publish ∷ puback ∷ pubrec ∷ pubrel ∷ pubcomp ∷ subscribe ∷ unsubscribe
      ∷ suback ∷ unsuback ∷ disconnect ∷ auth ∷ []
    else []

unfoldable pub validate_id : ℕ → ℕ → Bool
unfolding valid_properties
validate_id p i = holds (valid_properties i) p
