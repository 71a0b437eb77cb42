-- ===== src/Packets/Properties/Pack.antt =====
-- packets/properties.go: Properties.Pack. A write `b.WriteX` appends to the bytes; each block is one
-- `if` on the packet type.
use paho_golang.Common.{
  ℕ, List, [], ◌∷◌, ◌++◌, Option, none, some, Bool, true, false, not, ◌==◌, ◌||◌, if◌then◌else◌,
}
use paho_golang.Common.Int.{ℤ}
use paho_golang.Packets.Result.{Bytes, Result, ok, ◌>>=◌}
use paho_golang.Packets.Types.{connect, connack, publish, subscribe, disconnect, auth}
use paho_golang.Packets.Wire.{write_uint16, write_uint32, write_string, write_binary, encode_vbi}
use paho_golang.Packets.Properties.{
  User, Properties, prop_payload_format, prop_message_expiry, prop_content_type,
  prop_response_topic, prop_correlation_data, prop_subscription_identifier,
  prop_session_expiry_interval, prop_assigned_client_id, prop_server_keep_alive, prop_auth_method,
  prop_auth_data, prop_request_problem_info, prop_will_delay_interval, prop_request_response_info,
  prop_response_info, prop_server_reference, prop_reason_string, prop_receive_maximum,
  prop_topic_alias_maximum, prop_topic_alias, prop_maximum_qos, prop_retain_available, prop_user,
  prop_maximum_packet_size, prop_wildcard_sub_available, prop_sub_id_available,
  prop_shared_sub_available,
}

-- `if f != nil { b.WriteByte(code); b.WriteByte(*f) }`, and so on for the other kinds of field.
unfoldable pub pack_byte : ℕ → Option ℕ → Bytes
pack_byte code none = []
pack_byte code (some v) = code ∷ v ∷ []

unfoldable pub pack_uint16 : ℕ → Option ℕ → Bytes
pack_uint16 code none = []
pack_uint16 code (some v) = code ∷ write_uint16 v

unfoldable pub pack_uint32 : ℕ → Option ℕ → Bytes
pack_uint32 code none = []
pack_uint32 code (some v) = code ∷ write_uint32 v

unfoldable pub pack_string : ℕ → Bytes → Bytes
pack_string code [] = []
pack_string code (c ∷ s) = code ∷ write_string (c ∷ s)

unfoldable pub pack_binary : ℕ → Bytes → Bytes
pack_binary code [] = []
pack_binary code (c ∷ s) = code ∷ write_binary (c ∷ s)

abbrev pub when : Bool → Bytes → Bytes
when true s = s
when false s = []

unfoldable pub pack_publish_block : ℕ → Properties → Bytes
pack_publish_block p i = when (p == publish) (
    pack_byte prop_payload_format i.payload_format
    ++ (pack_uint32 prop_message_expiry i.message_expiry
        ++ (pack_string prop_content_type i.content_type
            ++ (pack_string prop_response_topic i.response_topic
                ++ (pack_binary prop_correlation_data i.correlation_data
                    ++ pack_uint16 prop_topic_alias i.topic_alias)))))

unfoldable pub pack_vbi : ℕ → Option ℤ → Result Bytes
pack_vbi code none = ok []
pack_vbi code (some v) = encode_vbi v >>= λ s. ok (code ∷ s)

unfoldable pub pack_sub_block : ℕ → Properties → Result Bytes
pack_sub_block p i =
    if p == publish || p == subscribe
    then pack_vbi prop_subscription_identifier i.subscription_identifier
    else ok []

unfoldable pub pack_limits_block : ℕ → Properties → Bytes
pack_limits_block p i = when (p == connect || p == connack) (
    pack_uint16 prop_receive_maximum i.receive_maximum
    ++ (pack_uint16 prop_topic_alias_maximum i.topic_alias_maximum
        ++ pack_uint32 prop_maximum_packet_size i.maximum_packet_size))

unfoldable pub pack_connack_block : ℕ → Properties → Bytes
pack_connack_block p i = when (p == connack) (
    pack_byte prop_maximum_qos i.maximum_qos
    ++ (pack_string prop_assigned_client_id i.assigned_client_id
        ++ (pack_uint16 prop_server_keep_alive i.server_keep_alive
            ++ (pack_byte prop_wildcard_sub_available i.wildcard_sub_available
                ++ (pack_byte prop_sub_id_available i.sub_id_available
                    ++ (pack_byte prop_shared_sub_available i.shared_sub_available
                        ++ (pack_byte prop_retain_available i.retain_available
                            ++ pack_string prop_response_info i.response_info)))))))

unfoldable pub pack_connect_block : ℕ → Properties → Bytes
pack_connect_block p i = when (p == connect) (
    pack_byte prop_request_problem_info i.request_problem_info
    ++ (pack_uint32 prop_will_delay_interval i.will_delay_interval
        ++ pack_byte prop_request_response_info i.request_response_info))

unfoldable pub pack_expiry_block : ℕ → Properties → Bytes
pack_expiry_block p i =
    when (p == connect || p == connack || p == disconnect)
      (pack_uint32 prop_session_expiry_interval i.session_expiry_interval)

unfoldable pub pack_auth_block : ℕ → Properties → Bytes
pack_auth_block p i =
    when (p == connect || p == connack || p == auth)
      (pack_string prop_auth_method i.auth_method ++ pack_binary prop_auth_data i.auth_data)

unfoldable pub pack_reference_block : ℕ → Properties → Bytes
pack_reference_block p i =
    when (p == connack || p == disconnect) (pack_string prop_server_reference i.server_reference)

unfoldable pub pack_reason_block : ℕ → Properties → Bytes
pack_reason_block p i = when (not (p == connect)) (pack_string prop_reason_string i.reason_string)

unfoldable pub pack_user : List User → Bytes
pack_user [] = []
pack_user (u ∷ us) = prop_user ∷ (write_string u.key ++ (write_string u.value ++ pack_user us))

unfoldable pub pack_properties : ℕ → Properties → Result Bytes
pack_properties p i = do
  sub ← pack_sub_block p i
  ok (
      pack_publish_block p i
      ++ (sub
          ++ (pack_limits_block p i
              ++ (pack_connack_block p i
                  ++ (pack_connect_block p i
                      ++ (pack_expiry_block p i
                          ++ (pack_auth_block p i
                              ++ (pack_reference_block p i
                                  ++ (pack_reason_block p i ++ pack_user i.user)))))))))

-- Pack, nil receiver included.
unfoldable pub pack : ℕ → Option Properties → Result Bytes
pack p none = ok []
pack p (some i) = pack_properties p i
