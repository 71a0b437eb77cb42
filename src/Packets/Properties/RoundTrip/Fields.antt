-- ===== src/Packets/Properties/RoundTrip/Fields.antt =====
-- packets/properties.go: what each field of Properties is when it is set.
use paho_golang.Common.{ℕ, Option}
use paho_golang.Common.Int.{ℤ}
use paho_golang.Packets.Result.{Bytes}
use paho_golang.Packets.Properties.{Properties}
use paho_golang.Packets.Properties.RoundTrip.Kinds.{or_some, or_bytes}

abbrev pub put_payload_format : Option ℕ → Properties → Properties
put_payload_format o i = record i { payload_format = or_some o i.payload_format }

abbrev pub put_message_expiry : Option ℕ → Properties → Properties
put_message_expiry o i = record i { message_expiry = or_some o i.message_expiry }

abbrev pub put_content_type : Bytes → Properties → Properties
put_content_type o i = record i { content_type = or_bytes o i.content_type }

abbrev pub put_response_topic : Bytes → Properties → Properties
put_response_topic o i = record i { response_topic = or_bytes o i.response_topic }

abbrev pub put_correlation_data : Bytes → Properties → Properties
put_correlation_data o i = record i { correlation_data = or_bytes o i.correlation_data }

abbrev pub put_subscription_identifier : Option ℤ → Properties → Properties
put_subscription_identifier o i = record i {
  subscription_identifier = or_some o i.subscription_identifier;
}

abbrev pub put_session_expiry_interval : Option ℕ → Properties → Properties
put_session_expiry_interval o i = record i {
  session_expiry_interval = or_some o i.session_expiry_interval;
}

abbrev pub put_assigned_client_id : Bytes → Properties → Properties
put_assigned_client_id o i = record i { assigned_client_id = or_bytes o i.assigned_client_id }

abbrev pub put_server_keep_alive : Option ℕ → Properties → Properties
put_server_keep_alive o i = record i { server_keep_alive = or_some o i.server_keep_alive }

abbrev pub put_auth_method : Bytes → Properties → Properties
put_auth_method o i = record i { auth_method = or_bytes o i.auth_method }

abbrev pub put_auth_data : Bytes → Properties → Properties
put_auth_data o i = record i { auth_data = or_bytes o i.auth_data }

abbrev pub put_request_problem_info : Option ℕ → Properties → Properties
put_request_problem_info o i = record i { request_problem_info = or_some o i.request_problem_info }

abbrev pub put_will_delay_interval : Option ℕ → Properties → Properties
put_will_delay_interval o i = record i { will_delay_interval = or_some o i.will_delay_interval }

abbrev pub put_request_response_info : Option ℕ → Properties → Properties
put_request_response_info o i = record i {
  request_response_info = or_some o i.request_response_info;
}

abbrev pub put_response_info : Bytes → Properties → Properties
put_response_info o i = record i { response_info = or_bytes o i.response_info }

abbrev pub put_server_reference : Bytes → Properties → Properties
put_server_reference o i = record i { server_reference = or_bytes o i.server_reference }

abbrev pub put_reason_string : Bytes → Properties → Properties
put_reason_string o i = record i { reason_string = or_bytes o i.reason_string }

abbrev pub put_receive_maximum : Option ℕ → Properties → Properties
put_receive_maximum o i = record i { receive_maximum = or_some o i.receive_maximum }

abbrev pub put_topic_alias_maximum : Option ℕ → Properties → Properties
put_topic_alias_maximum o i = record i { topic_alias_maximum = or_some o i.topic_alias_maximum }

abbrev pub put_topic_alias : Option ℕ → Properties → Properties
put_topic_alias o i = record i { topic_alias = or_some o i.topic_alias }

abbrev pub put_maximum_qos : Option ℕ → Properties → Properties
put_maximum_qos o i = record i { maximum_qos = or_some o i.maximum_qos }

abbrev pub put_retain_available : Option ℕ → Properties → Properties
put_retain_available o i = record i { retain_available = or_some o i.retain_available }

abbrev pub put_maximum_packet_size : Option ℕ → Properties → Properties
put_maximum_packet_size o i = record i { maximum_packet_size = or_some o i.maximum_packet_size }

abbrev pub put_wildcard_sub_available : Option ℕ → Properties → Properties
put_wildcard_sub_available o i = record i {
  wildcard_sub_available = or_some o i.wildcard_sub_available;
}

abbrev pub put_sub_id_available : Option ℕ → Properties → Properties
put_sub_id_available o i = record i { sub_id_available = or_some o i.sub_id_available }

abbrev pub put_shared_sub_available : Option ℕ → Properties → Properties
put_shared_sub_available o i = record i { shared_sub_available = or_some o i.shared_sub_available }
