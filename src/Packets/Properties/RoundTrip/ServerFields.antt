-- ===== src/Packets/Properties/RoundTrip/ServerFields.antt =====
-- packets/properties.go: the other fields of Properties, by the law of their kind.
use paho_golang.Common.{ℕ, ◌≡◌, refl, Option, true, ◌^◌}
use paho_golang.Packets.Result.{Bytes}
use paho_golang.Packets.Wire.{read_byte}
use paho_golang.Packets.Properties.{
  validate_id, prop_request_response_info, prop_response_info, prop_server_reference,
  prop_reason_string, prop_receive_maximum, prop_topic_alias_maximum, prop_topic_alias,
  prop_maximum_qos, prop_retain_available, prop_maximum_packet_size, prop_wildcard_sub_available,
  prop_sub_id_available, prop_shared_sub_available,
}
use paho_golang.Packets.Properties.Pack.{pack_byte, pack_uint16, pack_uint32, pack_string}
use paho_golang.Packets.Properties.Unpack.{fill, read_prop}
use paho_golang.Packets.Properties.Unpack.Steps.{Sets}
use paho_golang.Packets.Properties.RoundTrip.Kinds.{
  Below, IsShort, Sets-byte, Sets-uint16, Sets-uint32, Sets-string,
}
use paho_golang.Packets.Properties.RoundTrip.Fields.{
  put_request_response_info, put_response_info, put_server_reference, put_reason_string,
  put_receive_maximum, put_topic_alias_maximum, put_topic_alias, put_maximum_qos,
  put_retain_available, put_maximum_packet_size, put_wildcard_sub_available, put_sub_id_available,
  put_shared_sub_available,
}

module _ (p : ℕ) where
  pub Sets-request_response_info :
      (o : Option ℕ)
      → validate_id p prop_request_response_info ≡ true
      → Sets p (pack_byte prop_request_response_info o) (put_request_response_info o)
  unfolding read_prop fill read_byte
  Sets-request_response_info o v =
      Sets-byte p prop_request_response_info put_request_response_info (λ i. refl) v o
        (λ x rest i. refl)

  pub Sets-response_info :
      (o : Bytes)
      → validate_id p prop_response_info ≡ true
      → IsShort o
      → Sets p (pack_string prop_response_info o) (put_response_info o)
  unfolding read_prop fill read_byte
  Sets-response_info o v b =
      Sets-string p prop_response_info put_response_info (λ i s. record i { response_info = s })
        (λ i. refl) (λ c s i. refl) v o (λ i. refl) b

  pub Sets-server_reference :
      (o : Bytes)
      → validate_id p prop_server_reference ≡ true
      → IsShort o
      → Sets p (pack_string prop_server_reference o) (put_server_reference o)
  unfolding read_prop fill read_byte
  Sets-server_reference o v b =
      Sets-string p prop_server_reference put_server_reference
        (λ i s. record i { server_reference = s }) (λ i. refl) (λ c s i. refl) v o (λ i. refl) b

  pub Sets-reason_string :
      (o : Bytes)
      → validate_id p prop_reason_string ≡ true
      → IsShort o
      → Sets p (pack_string prop_reason_string o) (put_reason_string o)
  unfolding read_prop fill read_byte
  Sets-reason_string o v b =
      Sets-string p prop_reason_string put_reason_string (λ i s. record i { reason_string = s })
        (λ i. refl) (λ c s i. refl) v o (λ i. refl) b

  pub Sets-receive_maximum :
      (o : Option ℕ)
      → validate_id p prop_receive_maximum ≡ true
      → Below (2 ^ 16) o
      → Sets p (pack_uint16 prop_receive_maximum o) (put_receive_maximum o)
  unfolding read_prop fill read_byte
  Sets-receive_maximum o v b =
      Sets-uint16 p prop_receive_maximum put_receive_maximum (λ i. refl) v o (λ i. refl) b

  pub Sets-topic_alias_maximum :
      (o : Option ℕ)
      → validate_id p prop_topic_alias_maximum ≡ true
      → Below (2 ^ 16) o
      → Sets p (pack_uint16 prop_topic_alias_maximum o) (put_topic_alias_maximum o)
  unfolding read_prop fill read_byte
  Sets-topic_alias_maximum o v b =
      Sets-uint16 p prop_topic_alias_maximum put_topic_alias_maximum (λ i. refl) v o (λ i. refl) b

  pub Sets-topic_alias :
      (o : Option ℕ)
      → validate_id p prop_topic_alias ≡ true
      → Below (2 ^ 16) o
      → Sets p (pack_uint16 prop_topic_alias o) (put_topic_alias o)
  unfolding read_prop fill read_byte
  Sets-topic_alias o v b =
      Sets-uint16 p prop_topic_alias put_topic_alias (λ i. refl) v o (λ i. refl) b

  pub Sets-maximum_qos :
      (o : Option ℕ)
      → validate_id p prop_maximum_qos ≡ true
      → Sets p (pack_byte prop_maximum_qos o) (put_maximum_qos o)
  unfolding read_prop fill read_byte
  Sets-maximum_qos o v =
      Sets-byte p prop_maximum_qos put_maximum_qos (λ i. refl) v o (λ x rest i. refl)

  pub Sets-retain_available :
      (o : Option ℕ)
      → validate_id p prop_retain_available ≡ true
      → Sets p (pack_byte prop_retain_available o) (put_retain_available o)
  unfolding read_prop fill read_byte
  Sets-retain_available o v =
      Sets-byte p prop_retain_available put_retain_available (λ i. refl) v o (λ x rest i. refl)

  pub Sets-maximum_packet_size :
      (o : Option ℕ)
      → validate_id p prop_maximum_packet_size ≡ true
      → Below (2 ^ 32) o
      → Sets p (pack_uint32 prop_maximum_packet_size o) (put_maximum_packet_size o)
  unfolding read_prop fill read_byte
  Sets-maximum_packet_size o v b =
      Sets-uint32 p prop_maximum_packet_size put_maximum_packet_size (λ i. refl) v o (λ i. refl) b

  pub Sets-wildcard_sub_available :
      (o : Option ℕ)
      → validate_id p prop_wildcard_sub_available ≡ true
      → Sets p (pack_byte prop_wildcard_sub_available o) (put_wildcard_sub_available o)
  unfolding read_prop fill read_byte
  Sets-wildcard_sub_available o v =
      Sets-byte p prop_wildcard_sub_available put_wildcard_sub_available (λ i. refl) v o
        (λ x rest i. refl)

  pub Sets-sub_id_available :
      (o : Option ℕ)
      → validate_id p prop_sub_id_available ≡ true
      → Sets p (pack_byte prop_sub_id_available o) (put_sub_id_available o)
  unfolding read_prop fill read_byte
  Sets-sub_id_available o v =
      Sets-byte p prop_sub_id_available put_sub_id_available (λ i. refl) v o (λ x rest i. refl)

  pub Sets-shared_sub_available :
      (o : Option ℕ)
      → validate_id p prop_shared_sub_available ≡ true
      → Sets p (pack_byte prop_shared_sub_available o) (put_shared_sub_available o)
  unfolding read_prop fill read_byte
  Sets-shared_sub_available o v =
      Sets-byte p prop_shared_sub_available put_shared_sub_available (λ i. refl) v o
        (λ x rest i. refl)
