-- ===== src/Client/RunningTests.antt =====
-- The running client at concrete states.
use paho_golang.Common.{
  ℕ, ◌≡◌, inl, inr, refl, List, [], ◌∷◌, ◌++◌, true, false, if◌then◌else◌, none, some, length,
  arith,
}
use paho_golang.Packets.Result.{ok}
use paho_golang.Packets.Properties.{empty}
use paho_golang.Packets.Types
use paho_golang.Packets.Requests
use paho_golang.Packets.Control.{ControlPacket, publish, pingresp}
use paho_golang.Session.State.{ack}
use paho_golang.Session.MemoryStorer.{memory_storer, new_in_memory}
use paho_golang.Client.Conversions.Messages.{Publish}
use paho_golang.Client.Conversions.Connections.{Connect}
use paho_golang.Client.Negotiated.{default_server}
use paho_golang.Client.Running.{Client, connect, Event}
use paho_golang.Client.AcksTracker.{flush, acked_prefix}
use paho_golang.Client.Running.Calls.{tick, acks_for, tick-sent}
use paho_golang.Client.Pinger.{
  timer, packet_sent, packet_received, ping_resp_timed_out, waiting, Loop, is_unanswered, ping_due,
  run_loop,
}
use paho_golang.Client.Pinger
use paho_golang.Client.Pinger.Timeout.{has_response, missing_response_noticed}
use paho_golang.Client.Running.Incoming.{incoming, packet_came}
use paho_golang.Client.Running.OnceMore.{resent_not_delivered_again}
use paho_golang.Client.Running.Connections.{EndsAs, connect-EndsAs}
use paho_golang.Client.Handlers.{
  Handler, Handlers, call_handlers, route_publish_packets, add_on_publish_received, remove_handler,
  identifiers, handlers_of, is_used,
}
use paho_golang.Client.Handlers.Dispatch.{tracked, call_handlers-last, route_publish_packets-acks}
use paho_golang.Client.Handlers.Identifiers.{add_on_publish_received-ends, removed_twice}

abbrev fresh : Client memory_storer
fresh = record {
  has_connection = true;
  connection_open = true;
  connect_called = false;
  client_id = [];
  keep_alive = 0;
  server_props = default_server;
  client_props = default_server;
  session = record new_in_memory { connected = true; server_packets = some [] };
  auth_response = none;
  auths_sent = [];
  manual_acknowledgment = true;
  auto_close_session = true;
  acks_tracker = [];
}

abbrev message : Requests.Publish
message = record {
  payload = [];
  topic = 97 ∷ [];
  properties = some empty;
  packet_id = 7;
  qos = 2;
  duplicate = false;
  retain = false;
}

abbrev again : Requests.Publish
again = record message { duplicate = true }

-- Another message and a PINGRESP come in between.
abbrev between : List Event
between =
    (
      ok (record {
        content = publish (record message { packet_id = 8 });
        packet_type = Types.publish;
        flags = 4;
      }),
      true,
    )
    ∷ (ok (record { content = pingresp; packet_type = Types.pingresp; flags = 0 }), true)
    ∷ []

abbrev after : Client memory_storer
after =
    (incoming memory_storer none between
      (record fresh { session = (ack memory_storer true message fresh.session).0 })).0

abbrev sent_again : ControlPacket
sent_again = record { content = publish again; packet_type = Types.publish; flags = 12 }

resent_not_delivered_again_example :
    ((packet_came memory_storer none true sent_again after).0.session
      ≡ (ack memory_storer true again after.session).0)
    × ((packet_came memory_storer none true sent_again after).0.session.delivered
        ≡ after.session.delivered)
resent_not_delivered_again_example =
    resent_not_delivered_again memory_storer none between true true message again Types.publish 12
      fresh [] refl refl (record {}, (record {}, record {})) refl refl refl (omega arith)

abbrev asking : Connect
asking = record {
  password = [];
  username = [];
  client_id = [];
  properties = none;
  will_message = none;
  will_properties = none;
  keep_alive = 30;
  clean_start = true;
  username_flag = false;
  password_flag = false;
}

connect-EndsAs_example :
    EndsAs memory_storer none []
      (λ n. true)
      asking
      fresh
      (connect memory_storer none true false [] (λ n. true) asking fresh)
connect-EndsAs_example = connect-EndsAs memory_storer none [] (λ n. true) asking fresh true false

-- A handler that takes every message, and one that takes none and returns the error 3.
abbrev takes : Handler ℕ
takes = λ p handled errs. (true, none)

abbrev fails : Handler ℕ
fails = λ p handled errs. (handled, some 3)

abbrev two_handlers : Handlers ℕ
two_handlers = (0, takes) ∷ (1, fails) ∷ []

abbrev received : Publish
received = record {
  packet_id = 7;
  qos = 2;
  duplicate = false;
  retain = false;
  topic = 97 ∷ [];
  properties = none;
  payload = [];
}

call_handlers-last_example :
    let r = call_handlers (takes ∷ fails ∷ []) received false [] in
    let (ha, err) = fails received r.0 r.1 in
    (call_handlers (takes ∷ fails ∷ fails ∷ []) received false []
      ≡ (if ha then true else r.0, r.1 ++ err ∷ []))
    × (length r.1 ≡ 2)
call_handlers-last_example = call_handlers-last (takes ∷ fails ∷ []) fails received

route_publish_packets-acks_example :
    (route_publish_packets false two_handlers (message ∷ again ∷ []) []
      ≡ some (message ∷ again ∷ [], []))
    × (route_publish_packets true two_handlers (message ∷ again ∷ []) []
        ≡ some ([], tracked (message ∷ again ∷ []) []))
route_publish_packets-acks_example =
    route_publish_packets-acks two_handlers (message ∷ again ∷ []) []
      ((empty, refl), ((empty, refl), record {}))

add_on_publish_received-ends_example :
    (id : ℕ) × (hs' : Handlers ℕ) × (add_on_publish_received fails two_handlers ≡ some (id, hs'))
    × (is_used id (identifiers two_handlers) ≡ false)
    × (handlers_of hs' ≡ handlers_of two_handlers ++ fails ∷ [])
    × (remove_handler id hs' ≡ two_handlers)
add_on_publish_received-ends_example = add_on_publish_received-ends fails two_handlers

added_first :
    add_on_publish_received takes two_handlers ≡ some (2, (0, takes) ∷ (1, fails) ∷ (2, takes) ∷ [])
unfolding add_on_publish_received
added_first = refl

added_second :
    add_on_publish_received fails (remove_handler 2 ((0, takes) ∷ (1, fails) ∷ (2, takes) ∷ []))
    ≡ some (2, (0, takes) ∷ (1, fails) ∷ (2, fails) ∷ [])
unfolding add_on_publish_received remove_handler
added_second = refl

abbrev third : ℕ
third = 2

removed_twice_example :
    (third ≡ third)
    × (remove_handler {Error = ℕ} third ((0, takes) ∷ (1, fails) ∷ (third, fails) ∷ [])
        ≡ two_handlers)
removed_twice_example =
    removed_twice takes fails two_handlers ((0, takes) ∷ (1, fails) ∷ (2, takes) ∷ [])
      ((0, takes) ∷ (1, fails) ∷ (2, fails) ∷ []) 2 2 added_first added_second

-- Two messages that are acknowledged, and one that is not.
abbrev acking : Client memory_storer
acking = record fresh {
  acks_tracker =
      record { pb = message; acknowledged = true }
      ∷ record { pb = record message { packet_id = 8; qos = 1 }; acknowledged = true }
      ∷ record { pb = record message { packet_id = 9 }; acknowledged = false }
      ∷ [];
}

tick-sent_example :
    let d = tick memory_storer (λ pb. true) acking in
    (d.session.sent ≡ acking.session.sent ++ acks_for memory_storer (flush acking.acks_tracker).0)
    × (d.acks_tracker ≡ (flush acking.acks_tracker).1)
unfolding flush acked_prefix
tick-sent_example = tick-sent memory_storer acking (inr refl, (inl refl, record {})) refl

-- A client that sends and receives while no PINGRESP comes.
abbrev busy : Loop
busy = record {
  pinger = record {
    last_packet_sent = 5;
    last_packet_received = 3;
    last_ping_response = 0;
    running = true;
  };
  last_ping_sent = 0;
  wait = 0;
  pings = 0;
}

abbrev busy_calls : List Pinger.Event
busy_calls = packet_received 22 ∷ packet_sent 25 ∷ []

missing_response_noticed_example :
    (run_loop 10 (timer 20 21 ∷ busy_calls ++ timer 31 31 ∷ []) busy).1
    ≡ (if has_response busy_calls then waiting else ping_resp_timed_out)
unfolding is_unanswered ping_due
missing_response_noticed_example =
    missing_response_noticed 10 20 21 31 31 busy_calls busy refl (omega arith) (omega arith)
      (omega arith, (omega arith, record {}))
