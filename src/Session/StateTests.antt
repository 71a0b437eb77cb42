-- ===== src/Session/StateTests.antt =====
-- The session at concrete states.
use paho_golang.Common.{ℕ, ◌+◌, ◌≡◌, refl, List, [], ◌∷◌, ◌++◌, true, false, none, some, arith}
use mathlib.Core.List.{flatten}
use paho_golang.Packets.Result.{ok}
use paho_golang.Packets.Wire.{encode_vbi, encode_vbi_loop, write_string, write_uint16, truncated}
use paho_golang.Packets.Properties.Pack.{pack}
use paho_golang.Packets.Control.{publish, control_packet, write_to, buffers, written_flags}
use paho_golang.Packets.Connecting.{Connect, fresh_connect}
use paho_golang.Packets.Replies.{Connack}
use paho_golang.Packets.Requests.{Publish, publish_buffers, publish_flags}
use paho_golang.Session.SendQuota.{new_send_quota}
use paho_golang.Session.Storer.{Storer, put_failed}
use paho_golang.Session.State.{Session, new_session, ack, fine, publish_request, add_with_slot}
use paho_golang.Session.MemoryStore.{
  int_zero, Store, new_store, delete, quarantine, reset, get, find, list, list_loop, position,
}
use paho_golang.Session.State.Connected.{con_ack_received}
use paho_golang.Session.State.Resumed.{IsStored, identifiers, sent_again, con_ack_received-resends}
use paho_golang.Session.State.Rewinding.{AddedOrRewound, add_with_slot-AddedOrRewound}
use paho_golang.Session.State.Received.{publish_received}
use paho_golang.Session.State.ExactlyOnce.{here, next, acks, acked_not_delivered_again}
use paho_golang.Session.MemoryStorer.{memory_storer, new_in_memory}

-- A session after a connection, before any message from the server.
abbrev connected_session : Session memory_storer
connected_session = record new_in_memory { connected = true; server_packets = some [] }

abbrev message : Publish
message = record {
  payload = [];
  topic = 97 ∷ [];
  properties = none;
  packet_id = 7;
  qos = 2;
  duplicate = false;
  retain = false;
}

abbrev again : Publish
again = record message { duplicate = true }

abbrev other : Publish
other = record message { packet_id = 8 }

abbrev later : Session memory_storer
later = (ack memory_storer true other (ack memory_storer true message connected_session).0).0

acked_not_delivered_again_example :
    (publish_received memory_storer true again later ≡ ack memory_storer true again later)
    × ((publish_received memory_storer true again later).0.delivered ≡ later.delivered)
acked_not_delivered_again_example =
    acked_not_delivered_again memory_storer true true message again connected_session later [] refl
      refl (next here (acks true other)) refl refl refl (omega arith)

-- A message of QoS 1 that is stored, and the CONNACK that resumes its session.
abbrev stored : Publish
stored = record message { packet_id = 7; qos = 1 }

abbrev stored_bytes : List ℕ
stored_bytes = 50 ∷ 6 ∷ 0 ∷ 1 ∷ 97 ∷ 0 ∷ 7 ∷ 0 ∷ []

abbrev waiting_session : Session memory_storer
waiting_session = record new_in_memory {
  server_packets = some [];
  client_store = record {
    data_map = (7, record { c = int_zero; p = stored_bytes }) ∷ [];
    counter = int_zero + 1;
  };
}

abbrev asking : Connect
asking = record fresh_connect { keep_alive = 30 }

abbrev resuming : Connack
resuming = record { properties = none; reason_code = 0; session_present = true }

stored_written : write_to (control_packet (publish stored)) ≡ ok stored_bytes
unfolding write_to buffers control_packet publish_buffers pack encode_vbi encode_vbi_loop flatten
    write_string write_uint16 truncated written_flags publish_flags
stored_written = refl

stored_there : get 7 waiting_session.client_store ≡ some stored_bytes
unfolding get find
stored_there = refl

stored_listed :
    memory_storer.list waiting_session.client_store ≡ some (identifiers ((7, publish stored) ∷ []))
unfolding list list_loop position
stored_listed = refl

stored-IsStored : IsStored memory_storer waiting_session.client_store (7, publish stored)
stored-IsStored = record {
  bytes = stored_bytes;
  is_there = stored_there;
  is_written = stored_written;
  fits = record {
    qos_small = omega arith;
    id_small = omega arith;
    topic_short = omega arith;
    sendable = record {};
  };
  is_kept = record {};
}

con_ack_received-resends_example :
    let r = con_ack_received memory_storer (λ id. true) asking resuming waiting_session in
    (r.1 ≡ fine) × (r.0.sent ≡ waiting_session.sent ++ sent_again ((7, publish stored) ∷ []))
unfolding new_in_memory
con_ack_received-resends_example =
    con_ack_received-resends memory_storer asking resuming waiting_session []
      ((7, publish stored) ∷ []) refl refl refl stored_listed (stored-IsStored, record {})

-- A store on which Put fails, and a session with a connection over it.
abbrev failing_storer : Storer
failing_storer = record {
  Store = Store;
  put = λ id type c m. put_failed;
  get = get;
  delete = delete;
  quarantine = quarantine;
  list = λ m. some (list m.data_map);
  reset = reset;
}

abbrev failing_session : Session failing_storer
failing_session = record (new_session failing_storer new_store new_store) {
  connected = true;
  inflight = new_send_quota 20;
}

-- A PUBLISH on which Put fails, and one that is added.
add_with_slot-AddedOrRewound_example :
    AddedOrRewound failing_storer failing_session
      (publish_request stored)
      3
      (add_with_slot failing_storer (publish_request stored) 3 failing_session)
    × AddedOrRewound memory_storer connected_session
        (publish_request stored)
        3
        (add_with_slot memory_storer (publish_request stored) 3 connected_session)
unfolding new_in_memory new_session
add_with_slot-AddedOrRewound_example = (
  add_with_slot-AddedOrRewound failing_storer failing_session (publish_request stored) 3
      (omega arith),
  add_with_slot-AddedOrRewound memory_storer connected_session (publish_request stored) 3
      (omega arith),
)
