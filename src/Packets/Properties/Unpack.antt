-- ===== src/Packets/Properties/Unpack.antt =====
-- packets/properties.go: Properties.Unpack.
pub mod Steps
use paho_golang.Common.{
  ℕ, zero, suc, List, [], ◌∷◌, ◌++◌, Option, none, some, Bool, true, false, not, ◌==◌, ◌||◌,
  if◌then◌else◌, length, take, drop,
}
use paho_golang.Common.Int.{ℤ, pos}
use paho_golang.Packets.Result.{
  Bytes, Result, ok, err, Reader, invalid_prop, unknown_prop, out_of_fuel, ◌>>=◌,
}
use paho_golang.Packets.Wire.{
  read_byte, read_uint16, read_uint32, read_string, read_binary, get_vbi, decode_vbi,
}
use paho_golang.Packets.Properties.{
  User, Properties, validate_id, prop_payload_format, prop_message_expiry, prop_content_type,
  prop_response_topic, prop_correlation_data, prop_subscription_identifier,
  prop_session_expiry_interval, prop_assigned_client_id, prop_server_keep_alive, prop_auth_method,
  prop_auth_data, prop_request_problem_info, prop_will_delay_interval, prop_request_response_info,
  prop_response_info, prop_server_reference, prop_reason_string, prop_receive_maximum,
  prop_topic_alias_maximum, prop_topic_alias, prop_maximum_qos, prop_retain_available, prop_user,
  prop_maximum_packet_size, prop_wildcard_sub_available, prop_sub_id_available,
  prop_shared_sub_available,
}

-- `x, err := read(buf); if err != nil { return err }; i.F = &x`
unfoldable pub fill : {A : Type 0} → Reader A → (A → Properties) → Reader Properties
fill read set bs = do (v, rest) ← read bs; ok (set v, rest)

unfoldable pub read_user : Reader User
read_user bs = do
  (k, bs1) ← read_string bs
  (v, bs2) ← read_string bs1
  ok (record { key = k; value = v }, bs2)

-- The switch on the property's code, `t`.
unfoldable pub read_prop : ℕ → Properties → Reader Properties
read_prop t i =
    if t == prop_payload_format
    then fill read_byte (λ v. record i { payload_format = some v })
    else if t == prop_message_expiry
    then fill read_uint32 (λ v. record i { message_expiry = some v })
    else if t == prop_content_type
    then fill read_string (λ v. record i { content_type = v })
    else if t == prop_response_topic
    then fill read_string (λ v. record i { response_topic = v })
    else if t == prop_correlation_data
    then fill read_binary (λ v. record i { correlation_data = v })
    else if t == prop_subscription_identifier
    then fill decode_vbi (λ v. record i { subscription_identifier = some (pos v) })
    else if t == prop_session_expiry_interval
    then fill read_uint32 (λ v. record i { session_expiry_interval = some v })
    else if t == prop_assigned_client_id
    then fill read_string (λ v. record i { assigned_client_id = v })
    else if t == prop_server_keep_alive
    then fill read_uint16 (λ v. record i { server_keep_alive = some v })
    else if t == prop_auth_method
    then fill read_string (λ v. record i { auth_method = v })
    else if t == prop_auth_data
    then fill read_binary (λ v. record i { auth_data = v })
    else if t == prop_request_problem_info
    then fill read_byte (λ v. record i { request_problem_info = some v })
    else if t == prop_will_delay_interval
    then fill read_uint32 (λ v. record i { will_delay_interval = some v })
    else if t == prop_request_response_info
    then fill read_byte (λ v. record i { request_response_info = some v })
    else if t == prop_response_info
    then fill read_string (λ v. record i { response_info = v })
    else if t == prop_server_reference
    then fill read_string (λ v. record i { server_reference = v })
    else if t == prop_reason_string
    then fill read_string (λ v. record i { reason_string = v })
    else if t == prop_receive_maximum
    then fill read_uint16 (λ v. record i { receive_maximum = some v })
    else if t == prop_topic_alias_maximum
    then fill read_uint16 (λ v. record i { topic_alias_maximum = some v })
    else if t == prop_topic_alias
    then fill read_uint16 (λ v. record i { topic_alias = some v })
    else if t == prop_maximum_qos
    then fill read_byte (λ v. record i { maximum_qos = some v })
    else if t == prop_retain_available
    then fill read_byte (λ v. record i { retain_available = some v })
    else if t == prop_user
    then fill read_user (λ v. record i { user = i.user ++ v ∷ [] })
    else if t == prop_maximum_packet_size
    then fill read_uint32 (λ v. record i { maximum_packet_size = some v })
    else if t == prop_wildcard_sub_available
    then fill read_byte (λ v. record i { wildcard_sub_available = some v })
    else if t == prop_sub_id_available
    then fill read_byte (λ v. record i { sub_id_available = some v })
    else if t == prop_shared_sub_available
    then fill read_byte (λ v. record i { shared_sub_available = some v })
    else λ bs. err (unknown_prop t)

-- One round of the loop, behind the code `t`.
unfoldable pub unpack_prop : ℕ → ℕ → Properties → Reader Properties
unpack_prop p t i bs = if validate_id p t then read_prop t i bs else err (invalid_prop t)

-- Each round takes a byte at least, so the bytes of the buffer are fuel enough.
unfoldable pub unpack_loop : ℕ → ℕ → Bytes → Properties → Result Properties
unpack_loop fuel p [] i = ok i
unpack_loop zero p (t ∷ bs) i = err out_of_fuel
unpack_loop (suc fuel) p (t ∷ bs) i = unpack_prop p t i bs >>= λ r. unpack_loop fuel p r.1 r.0

unfoldable pub unpack_all : ℕ → Bytes → Properties → Result Properties
unpack_all p bs i = unpack_loop (length bs) p bs i

-- `r.Next(size)` gives what is there, if that is less.
unfoldable pub unpack : ℕ → Properties → Reader Properties
unpack p i bs = do
  (digits, rest) ← get_vbi bs
  (size, _) ← decode_vbi digits
  let props = unpack_all p (take size rest) i >>= λ i'. ok (i', drop size rest)
  if size == 0 then ok (i, rest) else props
