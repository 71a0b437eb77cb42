-- ===== src/Packets/Properties/RoundTrip/MessageFields.antt =====
-- packets/properties.go: the first fields of Properties, by the law of their kind.
use paho_golang.Common.{ℕ, ◌≡◌, refl, Option, true, ◌^◌}
use paho_golang.Packets.Result.{Bytes}
use paho_golang.Packets.Wire.{read_byte}
use paho_golang.Packets.Properties.{
  validate_id, prop_payload_format, prop_message_expiry, prop_content_type, prop_response_topic,
  prop_correlation_data, prop_session_expiry_interval, prop_assigned_client_id,
  prop_server_keep_alive, prop_auth_method, prop_auth_data, prop_request_problem_info,
  prop_will_delay_interval,
}
use paho_golang.Packets.Properties.Pack.{
  pack_byte, pack_uint16, pack_uint32, pack_string, pack_binary,
}
use paho_golang.Packets.Properties.Unpack.{fill, read_prop}
use paho_golang.Packets.Properties.Unpack.Steps.{Sets}
use paho_golang.Packets.Properties.RoundTrip.Kinds.{
  Below, IsShort, Sets-byte, Sets-uint16, Sets-uint32, Sets-string, Sets-binary,
}
use paho_golang.Packets.Properties.RoundTrip.Fields.{
  put_payload_format, put_message_expiry, put_content_type, put_response_topic,
  put_correlation_data, put_session_expiry_interval, put_assigned_client_id, put_server_keep_alive,
  put_auth_method, put_auth_data, put_request_problem_info, put_will_delay_interval,
}

module _ (p : ℕ) where
  pub Sets-payload_format :
      (o : Option ℕ)
      → validate_id p prop_payload_format ≡ true
      → Sets p (pack_byte prop_payload_format o) (put_payload_format o)
  unfolding read_prop fill read_byte
  Sets-payload_format o v =
      Sets-byte p prop_payload_format put_payload_format (λ i. refl) v o (λ x rest i. refl)

  pub Sets-message_expiry :
      (o : Option ℕ)
      → validate_id p prop_message_expiry ≡ true
      → Below (2 ^ 32) o
      → Sets p (pack_uint32 prop_message_expiry o) (put_message_expiry o)
  unfolding read_prop fill read_byte
  Sets-message_expiry o v b =
      Sets-uint32 p prop_message_expiry put_message_expiry (λ i. refl) v o (λ i. refl) b

  pub Sets-content_type :
      (o : Bytes)
      → validate_id p prop_content_type ≡ true
      → IsShort o
      → Sets p (pack_string prop_content_type o) (put_content_type o)
  unfolding read_prop fill read_byte
  Sets-content_type o v b =
      Sets-string p prop_content_type put_content_type (λ i s. record i { content_type = s })
        (λ i. refl) (λ c s i. refl) v o (λ i. refl) b

  pub Sets-response_topic :
      (o : Bytes)
      → validate_id p prop_response_topic ≡ true
      → IsShort o
      → Sets p (pack_string prop_response_topic o) (put_response_topic o)
  unfolding read_prop fill read_byte
  Sets-response_topic o v b =
      Sets-string p prop_response_topic put_response_topic (λ i s. record i { response_topic = s })
        (λ i. refl) (λ c s i. refl) v o (λ i. refl) b

  pub Sets-correlation_data :
      (o : Bytes)
      → validate_id p prop_correlation_data ≡ true
      → IsShort o
      → Sets p (pack_binary prop_correlation_data o) (put_correlation_data o)
  unfolding read_prop fill read_byte
  Sets-correlation_data o v b =
      Sets-binary p prop_correlation_data put_correlation_data
        (λ i s. record i { correlation_data = s }) (λ i. refl) (λ c s i. refl) v o (λ i. refl) b

  pub Sets-session_expiry_interval :
      (o : Option ℕ)
      → validate_id p prop_session_expiry_interval ≡ true
      → Below (2 ^ 32) o
      → Sets p (pack_uint32 prop_session_expiry_interval o) (put_session_expiry_interval o)
  unfolding read_prop fill read_byte
  Sets-session_expiry_interval o v b =
      Sets-uint32 p prop_session_expiry_interval put_session_expiry_interval (λ i. refl) v o
        (λ i. refl) b

  pub Sets-assigned_client_id :
      (o : Bytes)
      → validate_id p prop_assigned_client_id ≡ true
      → IsShort o
      → Sets p (pack_string prop_assigned_client_id o) (put_assigned_client_id o)
  unfolding read_prop fill read_byte
  Sets-assigned_client_id o v b =
      Sets-string p prop_assigned_client_id put_assigned_client_id
        (λ i s. record i { assigned_client_id = s }) (λ i. refl) (λ c s i. refl) v o (λ i. refl) b

  pub Sets-server_keep_alive :
      (o : Option ℕ)
      → validate_id p prop_server_keep_alive ≡ true
      → Below (2 ^ 16) o
      → Sets p (pack_uint16 prop_server_keep_alive o) (put_server_keep_alive o)
  unfolding read_prop fill read_byte
  Sets-server_keep_alive o v b =
      Sets-uint16 p prop_server_keep_alive put_server_keep_alive (λ i. refl) v o (λ i. refl) b

  pub Sets-auth_method :
      (o : Bytes)
      → validate_id p prop_auth_method ≡ true
      → IsShort o
      → Sets p (pack_string prop_auth_method o) (put_auth_method o)
  unfolding read_prop fill read_byte
  Sets-auth_method o v b =
      Sets-string p prop_auth_method put_auth_method (λ i s. record i { auth_method = s })
        (λ i. refl) (λ c s i. refl) v o (λ i. refl) b

  pub Sets-auth_data :
      (o : Bytes)
      → validate_id p prop_auth_data ≡ true
      → IsShort o
      → Sets p (pack_binary prop_auth_data o) (put_auth_data o)
  unfolding read_prop fill read_byte
  Sets-auth_data o v b =
      Sets-binary p prop_auth_data put_auth_data (λ i s. record i { auth_data = s }) (λ i. refl)
        (λ c s i. refl) v o (λ i. refl) b

  pub Sets-request_problem_info :
      (o : Option ℕ)
      → validate_id p prop_request_problem_info ≡ true
      → Sets p (pack_byte prop_request_problem_info o) (put_request_problem_info o)
  unfolding read_prop fill read_byte
  Sets-request_problem_info o v =
      Sets-byte p prop_request_problem_info put_request_problem_info (λ i. refl) v o
        (λ x rest i. refl)

  pub Sets-will_delay_interval :
      (o : Option ℕ)
      → validate_id p prop_will_delay_interval ≡ true
      → Below (2 ^ 32) o
      → Sets p (pack_uint32 prop_will_delay_interval o) (put_will_delay_interval o)
  unfolding read_prop fill read_byte
  Sets-will_delay_interval o v b =
      Sets-uint32 p prop_will_delay_interval put_will_delay_interval (λ i. refl) v o (λ i. refl) b
