-- ===== src/Packets/Tests.antt =====
-- The codec at concrete packets.
use mathlib.Core.List.{flatten}
use paho_golang.Common.{
  ℕ, ◌≤◌, ◌<◌, ◌≡◌, refl, List, [], ◌∷◌, ◌++◌, ◌⊎◌, inl, true, false, none, some, arith, length,
}
use paho_golang.Common.Int.{pos, negsuc}
use paho_golang.Packets.Result.{Bytes, ok, err, invalid_prop, invalid_vbi_length}
use paho_golang.Packets.Types
use paho_golang.Packets.Wire.{
  write_uint32, encode_vbi, encode_vbi_loop, get_vbi, decode_vbi, write_uint16, write_string,
  write_binary, truncated,
}
use paho_golang.Packets.Wire.RoundTrip.{vbi, vbi_limit, vbi_round_trip, encode_vbi_domain}
use paho_golang.Packets.Properties.{
  Properties, empty, validate_id, valid_properties, prop_reason_string, prop_user,
}
use paho_golang.Packets.Properties.Pack.{
  pack_byte, pack_uint16, pack_uint32, pack_string, pack_binary, pack_publish_block, pack_vbi,
  pack_sub_block, pack_limits_block, pack_connack_block, pack_connect_block, pack_expiry_block,
  pack_auth_block, pack_reference_block, pack_reason_block, pack_user, pack_properties, pack,
}
use paho_golang.Packets.Properties.Unpack.{unpack}
use paho_golang.Packets.Properties.RoundTrip.{received, unpack-pack_properties}
use paho_golang.Packets.Properties.RoundTrip.Blocks.{Fits, carried}
use paho_golang.Packets.Properties.Faults.{
  unpack_reason_refused, pack_connect_drops_will, without_message,
}
use paho_golang.Packets.Requests.{
  Publish, Unsubscribe, publish_flags, publish_buffers, unsubscribe_buffers, unsubscribe_unpack,
  topics_pack,
}
use paho_golang.Packets.Requests.Unsubscribing.{unsubscribe_unpack_damaged}
use paho_golang.Packets.Control.{
  publish, pubrel, auth, pingreq, control_packet, buffers, written_flags, write_to, read_packet,
}
use paho_golang.Packets.Control.Fresh.{fresh_ack, new_control_packet}
use paho_golang.Packets.Control.RoundTrip.{ContentFits, content_received, read_packet-write_to}

vbi_round_trip_example :
    (bs : Bytes) × (encode_vbi (pos 16384) ≡ ok bs)
    × (1 ≤ length bs)
    × (length bs ≤ 4)
    × (get_vbi (bs ++ 7 ∷ []) ≡ ok (bs, 7 ∷ []))
    × (decode_vbi (bs ++ 7 ∷ []) ≡ ok (16384, 7 ∷ []))
vbi_round_trip_example = vbi_round_trip 16384 (7 ∷ []) (omega arith)

-- A message with an expiry interval and a user property.
abbrev properties : Properties
properties = record empty {
  message_expiry = some 60;
  user = record { key = 107 ∷ []; value = 118 ∷ [] } ∷ [];
}

properties-Fits : Fits properties
properties-Fits = record {
  message_expiry = omega arith;
  content_type = omega arith;
  response_topic = omega arith;
  correlation_data = omega arith;
  session_expiry_interval = tt;
  assigned_client_id = omega arith;
  server_keep_alive = tt;
  auth_method = omega arith;
  auth_data = omega arith;
  will_delay_interval = tt;
  response_info = omega arith;
  server_reference = omega arith;
  reason_string = omega arith;
  receive_maximum = tt;
  topic_alias_maximum = tt;
  topic_alias = tt;
  user = ((omega arith, omega arith), tt);
  maximum_packet_size = tt;
}

abbrev packed_properties : Bytes
packed_properties = 2 ∷ 0 ∷ 0 ∷ 0 ∷ 60 ∷ 38 ∷ 0 ∷ 1 ∷ 107 ∷ 0 ∷ 1 ∷ 118 ∷ []

packed : pack_properties Types.publish properties ≡ ok packed_properties
unfolding pack_properties pack_sub_block pack_publish_block pack_limits_block pack_connack_block
    pack_connect_block pack_expiry_block pack_auth_block pack_reference_block pack_reason_block
    pack_byte pack_uint16 pack_uint32 pack_string pack_binary pack_vbi pack_user write_uint16
    write_uint32 write_string write_binary truncated
packed = refl

abbrev message : Publish
message = record {
  payload = 104 ∷ 105 ∷ [];
  topic = 97 ∷ 47 ∷ 98 ∷ [];
  properties = some properties;
  packet_id = 7;
  qos = 1;
  duplicate = false;
  retain = true;
}

abbrev message_bytes : Bytes
message_bytes = 51 ∷ 22 ∷ 0 ∷ 3 ∷ 97 ∷ 47 ∷ 98 ∷ 0 ∷ 7 ∷ 12 ∷ (packed_properties ++ 104 ∷ 105 ∷ [])

message_written : write_to (control_packet (publish message)) ≡ ok message_bytes
unfolding write_to control_packet buffers written_flags publish_buffers publish_flags pack
    encode_vbi encode_vbi_loop pack_properties pack_sub_block pack_publish_block pack_limits_block
    pack_connack_block pack_connect_block pack_expiry_block pack_auth_block pack_reference_block
    pack_reason_block pack_byte pack_uint16 pack_uint32 pack_string pack_binary pack_vbi pack_user
    write_uint16 write_uint32 write_string write_binary truncated flatten
message_written = refl

publish_has_users : validate_id Types.publish prop_user ≡ true
unfolding validate_id valid_properties
publish_has_users = refl

reason_is_refused : validate_id Types.subscribe prop_reason_string ≡ false
unfolding validate_id valid_properties
reason_is_refused = refl

message-Fits : ContentFits (publish message)
message-Fits = record {
  qos_small = omega arith;
  id_small = omega arith;
  topic_short = omega arith;
  sendable = (properties-Fits, inl refl);
}

read_packet-write_to_example :
    read_packet (message_bytes ++ 192 ∷ 0 ∷ [])
    ≡ ok (
      record (control_packet (publish message)) { content = content_received (publish message) },
      192 ∷ 0 ∷ [],
    )
read_packet-write_to_example =
    read_packet-write_to (publish message) message_bytes (192 ∷ 0 ∷ []) message-Fits message_written

unpack-pack_properties_example :
    unpack Types.publish empty (vbi 12 ++ (packed_properties ++ 104 ∷ []))
    ≡ ok (carried Types.publish properties, 104 ∷ [])
unpack-pack_properties_example =
    unpack-pack_properties Types.publish properties properties-Fits (inl refl) publish_has_users
      packed_properties (104 ∷ []) packed (omega arith)

-- A reason string, in a SUBSCRIBE.
abbrev reasoned : Properties
reasoned = record empty { reason_string = 120 ∷ [] }

reasoned-Fits : Fits reasoned
reasoned-Fits = record {
  message_expiry = tt;
  content_type = omega arith;
  response_topic = omega arith;
  correlation_data = omega arith;
  session_expiry_interval = tt;
  assigned_client_id = omega arith;
  server_keep_alive = tt;
  auth_method = omega arith;
  auth_data = omega arith;
  will_delay_interval = tt;
  response_info = omega arith;
  server_reference = omega arith;
  reason_string = omega arith;
  receive_maximum = tt;
  topic_alias_maximum = tt;
  topic_alias = tt;
  user = tt;
  maximum_packet_size = tt;
}

reasoned_packed : pack_properties Types.subscribe reasoned ≡ ok (31 ∷ 0 ∷ 1 ∷ 120 ∷ [])
unfolding pack_properties pack_sub_block pack_publish_block pack_limits_block pack_connack_block
    pack_connect_block pack_expiry_block pack_auth_block pack_reference_block pack_reason_block
    pack_byte pack_uint16 pack_uint32 pack_string pack_binary pack_vbi pack_user write_uint16
    write_uint32 write_string write_binary truncated
reasoned_packed = refl

unpack_reason_refused_example :
    unpack Types.subscribe empty (vbi 4 ++ ((31 ∷ 0 ∷ 1 ∷ 120 ∷ []) ++ []))
    ≡ err (invalid_prop prop_reason_string)
unpack_reason_refused_example =
    unpack_reason_refused Types.subscribe reasoned reasoned-Fits 120 [] refl refl reason_is_refused
      (31 ∷ 0 ∷ 1 ∷ 120 ∷ []) [] reasoned_packed (omega arith)

-- An UNSUBSCRIBE with one topic.
abbrev leaving : Unsubscribe
leaving = record { topics = (97 ∷ []) ∷ []; properties = none; packet_id = 9 }

abbrev leaving_buffers : List Bytes
leaving_buffers = (0 ∷ 9 ∷ []) ∷ (0 ∷ []) ∷ [] ∷ (0 ∷ 1 ∷ 97 ∷ []) ∷ []

leaving_written : unsubscribe_buffers leaving ≡ ok leaving_buffers
unfolding unsubscribe_buffers topics_pack pack encode_vbi encode_vbi_loop write_string write_binary
    write_uint16 truncated
leaving_written = refl

unsubscribe_unpack_damaged_example :
    (unsubscribe_unpack (flatten leaving_buffers ++ 0 ∷ [])
      ≡ ok (record leaving { properties = some (received Types.unsubscribe leaving.properties) }))
    × (unsubscribe_unpack (flatten leaving_buffers)
        ≡ ok (record leaving { properties = some (received Types.unsubscribe leaving.properties) }))
unsubscribe_unpack_damaged_example =
    unsubscribe_unpack_damaged leaving leaving_buffers 0 (omega arith) tt (omega arith, tt)
      leaving_written

encode_vbi_domain_example :
    ((n : ℕ) × (negsuc 0 ≡ pos n) × (n < vbi_limit) × (encode_vbi (negsuc 0) ≡ ok (vbi n)))
    ⊎ (((n : ℕ) → negsuc 0 ≡ pos n → vbi_limit ≤ n)
        × (encode_vbi (negsuc 0) ≡ err invalid_vbi_length))
encode_vbi_domain_example = encode_vbi_domain (negsuc 0)

pack_connect_drops_will_example :
    (pack_properties Types.connect properties
      ≡ pack_properties Types.connect (without_message properties))
    × (validate_id Types.connect 1 ≡ true)
    × (validate_id Types.connect 2 ≡ true)
    × (validate_id Types.connect 3 ≡ true)
    × (validate_id Types.connect 8 ≡ true)
    × (validate_id Types.connect 9 ≡ true)
pack_connect_drops_will_example = pack_connect_drops_will properties

new_pubrel : new_control_packet Types.pubrel ≡ some (control_packet (pubrel fresh_ack))
unfolding new_control_packet control_packet
new_pubrel = refl

new_pingreq : new_control_packet Types.pingreq ≡ some (control_packet pingreq)
unfolding new_control_packet control_packet
new_pingreq = refl

-- AUTH gets the flags 1, and from its own WriteTo the flags 0.
new_auth :
    new_control_packet Types.auth
    ≡ some (record (control_packet (auth (record { properties = some empty; reason_code = 0 }))) {
      flags = 1;
    })
unfolding new_control_packet control_packet
new_auth = refl

new_unknown : new_control_packet 16 ≡ none
unfolding new_control_packet
new_unknown = refl
