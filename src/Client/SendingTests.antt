-- ===== src/Client/SendingTests.antt =====
-- What the client sends and is answered, and its conversions, at concrete inputs.
use paho_golang.Common.{
  ℕ, ◌≡◌, ◌≤◌, ◌<◌, ◌≢◌, ◌↔◌, refl, List, [], ◌∷◌, ◌++◌, true, false, none, some, All, arith,
}
use paho_golang.Packets.Result.{ok}
use mathlib.Core.List.{flatten}
use paho_golang.Packets.Wire.{encode_vbi, encode_vbi_loop, write_string, write_uint16, truncated}
use paho_golang.Packets.Properties.Pack.{pack}
use paho_golang.Packets.Result.{Bytes}
use paho_golang.Packets.Types
use paho_golang.Packets.Properties.{Properties, empty}
use paho_golang.Packets.Requests
use paho_golang.Packets.Replies
use paho_golang.Packets.Control.{
  ControlPacket, puback, suback, publish, control_packet, write_to, read_packet, buffers,
  written_flags,
}
use paho_golang.Packets.Requests.Publishing.{PublishFits}
use paho_golang.Client.Negotiated.{default_server, server_told}
use paho_golang.Client.Sending.{
  blocking, Surroundings, publish_with_options, publish_answered, subscribe_answered, answered,
  reasons_failed,
}
use paho_golang.Client.Sending.Limits.{ObeysConnack, published-ObeysConnack}
use paho_golang.Client.Sending.Answered.{
  reason_sent, publish_answered-failed, subscribe_answered-failed,
}
use paho_golang.Client.Conversions.{
  UserProperty, get, get_all, add, user_properties_from_packet_user,
}
use paho_golang.Client.Conversions.Messages.{
  Publish, PublishResponse, publish_packet, publish_from_packet_publish, publish_response_from,
}
use paho_golang.Client.Conversions.Connections.{
  Connect, ConnectProperties, connect_packet, connect_from_packet_connect,
}
use paho_golang.Client.Conversions.Messages.{map_properties}
use paho_golang.Client.Conversions.Answers.{
  Connack, connack_from_packet_connack, connack_properties_from,
}
use paho_golang.Client.Conversions.Subscriptions.{Suback, suback_from_packet_suback}
use paho_golang.Client.Conversions.RoundTrip.{publish_seen, published_received}
use paho_golang.Client.Conversions.ConnectRoundTrip.{
  properties_back, no_will, connect_from_packet_connect-connect_packet,
}
use paho_golang.Client.Conversions.Users.{Values, first_of, get_all-add}

-- A server that takes QoS 1 at most and retains nothing.
abbrev limits : Properties
limits = record empty { maximum_qos = some 1; retain_available = some 0 }

abbrev greeting : Replies.Connack
greeting = record { properties = some limits; reason_code = 0; session_present = false }

abbrev greeted : Connack
greeted = record {
  properties = some (connack_properties_from limits);
  reason_code = 0;
  session_present = false;
}

greeting_converted : connack_from_packet_connack greeting ≡ some greeted
unfolding connack_from_packet_connack
greeting_converted = refl

abbrev message : Publish
message = record {
  packet_id = 0;
  qos = 1;
  duplicate = false;
  retain = false;
  topic = 97 ∷ [];
  properties = none;
  payload = 1 ∷ 2 ∷ [];
}

abbrev all_well : Surroundings
all_well = record { stored = true; written = true; answer = none }

message_sent :
    (publish_with_options none (server_told greeted default_server) blocking all_well message).1
    ≡ some (publish_packet message)
unfolding publish_with_options server_told
message_sent = refl

published-ObeysConnack_example : ObeysConnack limits (publish_packet message)
published-ObeysConnack_example =
    published-ObeysConnack greeting limits greeted blocking all_well message
      (publish_packet message) refl greeting_converted message_sent

-- A PUBACK that refuses the message.
abbrev refusal : ControlPacket
refusal = record {
  content = puback (record { properties = some empty; packet_id = 7; reason_code = 135 });
  packet_type = Types.puback;
  flags = 0;
}

abbrev response : PublishResponse
response = record {
  properties = some (record { reason_string = []; user = [] });
  reason_code = 135;
}

refusal_answered : publish_answered 1 refusal ≡ answered response true
unfolding publish_answered publish_response_from user_properties_from_packet_user
refusal_answered = refl

abbrev once : ℕ
once = 1

publish_answered-failed_example :
    (response.reason_code ≡ reason_sent refusal.content)
    × ((true ≡ true) ↔ ((once ≡ 1) × (128 ≤ reason_sent refusal.content)))
publish_answered-failed_example =
    publish_answered-failed once refusal response true refusal_answered

abbrev two_reasons : ControlPacket
two_reasons = record {
  content = suback (record { properties = some empty; packet_id = 7; reasons = 1 ∷ 128 ∷ [] });
  packet_type = Types.suback;
  flags = 0;
}

abbrev seen_reasons : Suback
seen_reasons = record {
  properties = some (record { reason_string = []; user = [] });
  reasons = 1 ∷ 128 ∷ [];
}

reasons_answered : subscribe_answered two_reasons ≡ answered seen_reasons true
unfolding subscribe_answered suback_from_packet_suback user_properties_from_packet_user
    reasons_failed
reasons_answered = refl

subscribe_answered-failed_example : (true ≡ false) ↔ All (λ c. c < 128) (1 ∷ 128 ∷ [])
subscribe_answered-failed_example =
    subscribe_answered-failed two_reasons seen_reasons true reasons_answered

abbrev letter_a : Bytes
letter_a = 97 ∷ []

-- Two values for the key "a" around one for the key "A".
abbrev user : List UserProperty
user =
    record { key = 97 ∷ []; value = 49 ∷ [] }
    ∷ record { key = 65 ∷ []; value = 50 ∷ [] }
    ∷ record { key = 97 ∷ []; value = 51 ∷ [] }
    ∷ []

get_all-add_example :
    Values letter_a user (get_all letter_a user)
    × (get letter_a user ≡ first_of (get_all letter_a user))
    × (letter_a ≡ letter_a
        → get_all letter_a (add letter_a (52 ∷ []) user) ≡ get_all letter_a user ++ (52 ∷ []) ∷ [])
    × (letter_a ≢ letter_a → get_all letter_a (add letter_a (52 ∷ []) user) ≡ get_all letter_a user)
get_all-add_example = get_all-add letter_a letter_a (52 ∷ []) user

abbrev requests : ConnectProperties
requests = record {
  auth_data = [];
  auth_method = [];
  session_expiry_interval = none;
  will_delay_interval = none;
  receive_maximum = none;
  topic_alias_maximum = none;
  maximum_packet_size = none;
  user = [];
  request_problem_info = true;
  request_response_info = true;
}

abbrev asking : Connect
asking = record {
  password = [];
  username = [];
  client_id = [];
  properties = some requests;
  will_message = none;
  will_properties = none;
  keep_alive = 30;
  clean_start = true;
  username_flag = false;
  password_flag = false;
}

connect_from_packet_connect-connect_packet_example :
    connect_from_packet_connect (connect_packet asking)
    ≡ map_properties (λ q. record asking { properties = some q }) (properties_back requests)
connect_from_packet_connect-connect_packet_example =
    connect_from_packet_connect-connect_packet asking requests refl (no_will refl refl)

abbrev sent : Publish
sent = record message { packet_id = 7 }

sent_fits : PublishFits (publish_packet sent)
unfolding publish_packet
sent_fits = record {
  qos_small = omega arith;
  id_small = omega arith;
  topic_short = omega arith;
  sendable = record {};
}

abbrev bytes : List ℕ
bytes = 50 ∷ 8 ∷ 0 ∷ 1 ∷ 97 ∷ 0 ∷ 7 ∷ 0 ∷ 1 ∷ 2 ∷ []

sent_bytes : write_to (control_packet (publish (publish_packet sent))) ≡ ok bytes
unfolding publish_packet write_to buffers control_packet Requests.publish_buffers pack encode_vbi
    encode_vbi_loop flatten write_string write_uint16 truncated written_flags Requests.publish_flags
sent_bytes = refl

published_received_example :
    (c : ControlPacket) × (q : Requests.Publish) × (read_packet (bytes ++ 9 ∷ []) ≡ ok (c, 9 ∷ []))
    × (c.content ≡ publish q)
    × (publish_from_packet_publish q ≡ some (publish_seen sent))
published_received_example = published_received sent bytes (9 ∷ []) sent_fits sent_bytes
