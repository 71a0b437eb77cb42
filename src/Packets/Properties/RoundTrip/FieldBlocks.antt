-- ===== src/Packets/Properties/RoundTrip/FieldBlocks.antt =====
-- packets/properties.go: the blocks of Pack, each for some packet types.
use paho_golang.Common.{ℕ, ◌≡◌, refl, [], true, not, Bool-cases, ◌⊎◌, ◌==◌, ◌||◌, inl, inr, arith}
use paho_golang.Packets.Types.{connect, connack, publish, disconnect, auth}
use paho_golang.Packets.Properties.{Properties, validate_id, prop_reason_string}
use paho_golang.Packets.Properties.Pack.{
  pack_string, pack_publish_block, pack_limits_block, pack_connack_block, pack_connect_block,
  pack_expiry_block, pack_auth_block, pack_reference_block, pack_reason_block,
}
use paho_golang.Packets.Properties.Unpack.Steps.{Sets, Sets-append}
use paho_golang.Packets.Properties.RoundTrip.Fields.{
  put_payload_format, put_message_expiry, put_content_type, put_response_topic,
  put_correlation_data, put_session_expiry_interval, put_assigned_client_id, put_server_keep_alive,
  put_auth_method, put_auth_data, put_request_problem_info, put_will_delay_interval,
  put_request_response_info, put_response_info, put_server_reference, put_reason_string,
  put_receive_maximum, put_topic_alias_maximum, put_topic_alias, put_maximum_qos,
  put_retain_available, put_maximum_packet_size, put_wildcard_sub_available, put_sub_id_available,
  put_shared_sub_available,
}
use paho_golang.Packets.Properties.RoundTrip.MessageFields.{
  Sets-payload_format, Sets-message_expiry, Sets-content_type, Sets-response_topic,
  Sets-correlation_data, Sets-session_expiry_interval, Sets-assigned_client_id,
  Sets-server_keep_alive, Sets-auth_method, Sets-auth_data, Sets-request_problem_info,
  Sets-will_delay_interval,
}
use paho_golang.Packets.Properties.RoundTrip.ServerFields.{
  Sets-request_response_info, Sets-response_info, Sets-server_reference, Sets-reason_string,
  Sets-receive_maximum, Sets-topic_alias_maximum, Sets-topic_alias, Sets-maximum_qos,
  Sets-retain_available, Sets-maximum_packet_size, Sets-wildcard_sub_available,
  Sets-sub_id_available, Sets-shared_sub_available,
}
use paho_golang.Packets.Properties.RoundTrip.Blocks.{Fits, some_when, bytes_when}

module _ (p : ℕ) (i : Properties) (fits : Fits i) where
  pub Sets-publish_block : Sets p (pack_publish_block p i) (λ j.
      put_topic_alias (some_when (p == publish) i.topic_alias) (
        put_correlation_data (bytes_when (p == publish) i.correlation_data) (
          put_response_topic (bytes_when (p == publish) i.response_topic) (
            put_content_type (bytes_when (p == publish) i.content_type) (
              put_message_expiry
                (some_when (p == publish) i.message_expiry)
                (put_payload_format (some_when (p == publish) i.payload_format) j))))))
  unfolding pack_publish_block validate_id
  Sets-publish_block = elim (Bool-cases (p == publish)) [
    | inl e ↦ rw e (
        Sets-append p _ _ _ _ (Sets-payload_format p i.payload_format (ground arith)) (
          Sets-append p _ _ _ _
            (Sets-message_expiry p i.message_expiry (ground arith) fits.message_expiry)
            (Sets-append p _ _ _ _
              (Sets-content_type p i.content_type (ground arith) fits.content_type)
              (Sets-append p _ _ _ _
                (Sets-response_topic p i.response_topic (ground arith) fits.response_topic)
                (Sets-append p _ _ _ _
                  (Sets-correlation_data p i.correlation_data (ground arith) fits.correlation_data)
                  (Sets-topic_alias p i.topic_alias (ground arith) fits.topic_alias))))))
    | inr e ↦ rw e (λ rest j. refl)
  ]

  pub Sets-limits_block : Sets p (pack_limits_block p i) (λ j.
      put_maximum_packet_size (some_when (p == connect || p == connack) i.maximum_packet_size) (
        put_topic_alias_maximum
          (some_when (p == connect || p == connack) i.topic_alias_maximum)
          (put_receive_maximum (some_when (p == connect || p == connack) i.receive_maximum) j)))
  unfolding pack_limits_block validate_id
  Sets-limits_block = elim (Bool-cases (p == connect || p == connack)) [
    | inl e ↦ rw e (
        Sets-append p _ _ _ _
          (Sets-receive_maximum p i.receive_maximum (ground arith) fits.receive_maximum)
          (Sets-append p _ _ _ _
            (Sets-topic_alias_maximum p i.topic_alias_maximum (ground arith)
              fits.topic_alias_maximum)
            (Sets-maximum_packet_size p i.maximum_packet_size (ground arith)
              fits.maximum_packet_size)))
    | inr e ↦ rw e (λ rest j. refl)
  ]

  pub Sets-connack_block : Sets p (pack_connack_block p i) (λ j.
      put_response_info (bytes_when (p == connack) i.response_info) (
        put_retain_available (some_when (p == connack) i.retain_available) (
          put_shared_sub_available (some_when (p == connack) i.shared_sub_available) (
            put_sub_id_available (some_when (p == connack) i.sub_id_available) (
              put_wildcard_sub_available (some_when (p == connack) i.wildcard_sub_available) (
                put_server_keep_alive (some_when (p == connack) i.server_keep_alive) (
                  put_assigned_client_id
                    (bytes_when (p == connack) i.assigned_client_id)
                    (put_maximum_qos (some_when (p == connack) i.maximum_qos) j))))))))
  unfolding pack_connack_block validate_id
  Sets-connack_block = elim (Bool-cases (p == connack)) [
    | inl e ↦ rw e (
        Sets-append p _ _ _ _ (Sets-maximum_qos p i.maximum_qos (ground arith)) (
          Sets-append p _ _ _ _
            (Sets-assigned_client_id p i.assigned_client_id (ground arith) fits.assigned_client_id)
            (Sets-append p _ _ _ _
              (Sets-server_keep_alive p i.server_keep_alive (ground arith) fits.server_keep_alive)
              (Sets-append p _ _ _ _
                (Sets-wildcard_sub_available p i.wildcard_sub_available (ground arith))
                (Sets-append p _ _ _ _ (Sets-sub_id_available p i.sub_id_available (ground arith)) (
                  Sets-append p _ _ _ _
                    (Sets-shared_sub_available p i.shared_sub_available (ground arith))
                    (Sets-append p _ _ _ _
                      (Sets-retain_available p i.retain_available (ground arith))
                      (Sets-response_info p i.response_info (ground arith)
                        fits.response_info))))))))
    | inr e ↦ rw e (λ rest j. refl)
  ]

  pub Sets-connect_block : Sets p (pack_connect_block p i) (λ j.
      put_request_response_info (some_when (p == connect) i.request_response_info) (
        put_will_delay_interval
          (some_when (p == connect) i.will_delay_interval)
          (put_request_problem_info (some_when (p == connect) i.request_problem_info) j)))
  unfolding pack_connect_block validate_id
  Sets-connect_block = elim (Bool-cases (p == connect)) [
    | inl e ↦ rw e (
        Sets-append p _ _ _ _ (Sets-request_problem_info p i.request_problem_info (ground arith)) (
          Sets-append p _ _ _ _
            (Sets-will_delay_interval p i.will_delay_interval (ground arith)
              fits.will_delay_interval)
            (Sets-request_response_info p i.request_response_info (ground arith))))
    | inr e ↦ rw e (λ rest j. refl)
  ]

  pub Sets-expiry_block : Sets p (pack_expiry_block p i) (λ j.
      put_session_expiry_interval
        (some_when (p == connect || p == connack || p == disconnect) i.session_expiry_interval)
        j)
  unfolding pack_expiry_block validate_id
  Sets-expiry_block = elim (Bool-cases (p == connect || p == connack || p == disconnect)) [
    | inl e ↦ rw e (
        Sets-session_expiry_interval p i.session_expiry_interval (ground arith)
          fits.session_expiry_interval)
    | inr e ↦ rw e (λ rest j. refl)
  ]

  pub Sets-auth_block : Sets p (pack_auth_block p i) (λ j.
      put_auth_data
        (bytes_when (p == connect || p == connack || p == auth) i.auth_data)
        (put_auth_method (bytes_when (p == connect || p == connack || p == auth) i.auth_method) j))
  unfolding pack_auth_block validate_id
  Sets-auth_block = elim (Bool-cases (p == connect || p == connack || p == auth)) [
    | inl e ↦ rw e (
        Sets-append p _ _ _ _ (Sets-auth_method p i.auth_method (ground arith) fits.auth_method)
          (Sets-auth_data p i.auth_data (ground arith) fits.auth_data))
    | inr e ↦ rw e (λ rest j. refl)
  ]

  pub Sets-reference_block : Sets p (pack_reference_block p i) (λ j.
      put_server_reference (bytes_when (p == connack || p == disconnect) i.server_reference) j)
  unfolding pack_reference_block validate_id
  Sets-reference_block = elim (Bool-cases (p == connack || p == disconnect)) [
    | inl e ↦ rw e (Sets-server_reference p i.server_reference (ground arith) fits.server_reference)
    | inr e ↦ rw e (λ rest j. refl)
  ]

  -- A reason string is written into every packet but CONNECT, and read in fewer.
  pub Sets-reason_block :
      (i.reason_string ≡ []) ⊎ (validate_id p prop_reason_string ≡ true)
      → Sets p
          (pack_reason_block p i)
          (put_reason_string (bytes_when (not (p == connect)) i.reason_string))
  unfolding pack_reason_block pack_string
  Sets-reason_block (inl e) = rw e (elim (Bool-cases (p == connect)) [
    | inl c ↦ rw c (λ rest j. refl)
    | inr c ↦ rw c (λ rest j. refl)
  ])
  Sets-reason_block (inr v) = elim (Bool-cases (p == connect)) [
    | inl c ↦ rw c (λ rest j. refl)
    | inr c ↦ rw c (Sets-reason_string p i.reason_string v fits.reason_string)
  ]
