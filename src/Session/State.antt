-- ===== src/Session/State.antt =====
-- paho/session/state/state.go. Each function is what happens while `mu` is held; what was written
-- to a connection, handed to `pubChan` or sent to a response channel is recorded in order.
pub mod Received
pub mod Connected
pub mod Resending
pub mod ServerPackets
pub mod Rewinding
pub mod Closing
pub mod Tidying
pub mod ExactlyOnce
pub mod Resumed
use paho_golang.Common.{
  ℕ, List, [], ◌∷◌, ◌++◌, Bool, true, false, not, ◌&&◌, ◌||◌, ◌==◌, if◌then◌else◌, Option, none,
  some, leb,
}
use paho_golang.Common.Maps.{lookup, without, insert}
use paho_golang.Packets.Types
use paho_golang.Packets.Properties.{Properties, empty}
use paho_golang.Packets.Acks.{Ack}
use paho_golang.Packets.Requests.{Publish, Subscribe, Unsubscribe}
use paho_golang.Packets.Replies.{Disconnect}
use paho_golang.Packets.Control.{
  Content, ControlPacket, publish, publish_packet, subscribe_packet, unsubscribe_packet,
  puback_packet, pubrec_packet, pubrel_packet, pubcomp_packet,
}
use paho_golang.Session.SendQuota.{SendQuota, new_send_quota, acquire, release}
use paho_golang.Session.PacketIds.{ClientGenerated, State, allocate_next_packet_id}
use paho_golang.Session.Storer.{Storer, PutResult, stored, put_failed, put_panicked}

-- A field of a nil *Properties that may be nil itself.
abbrev pub property : Option Properties → (Properties → Option ℕ) → Option ℕ
property none f = none
property (some i) f = f i

abbrev pub or_else : Option ℕ → ℕ → ℕ
or_else none n = n
or_else (some m) n = m

abbrev pub expiry_of : Option Disconnect → Option ℕ
expiry_of none = none
expiry_of (some dp) = property dp.properties (λ i. i.session_expiry_interval)

abbrev pub closing_answers : List (ℕ × ClientGenerated) → List (ℕ × Option ControlPacket)
closing_answers [] = []
closing_answers ((id, cg) ∷ ps) = (cg.response_chan, none) ∷ closing_answers ps

abbrev pub or_same {ℓ} : {A : Type ℓ} → A → Option A → A
or_same a none = a
or_same a (some b) = b

-- The store after a Put of a PUBREC or PUBREL, whose error is only logged; they can be written, so
-- that Put does not panic.
abbrev pub after_put : {A : Type 0} → A → PutResult A → A
after_put m (stored n) = n
after_put m _ = m

-- The packets that AddToSession takes, and their SetIdentifier and Type.
pub data Request : Type 0 where
  publish_request : Publish → Request
  subscribe_request : Subscribe → Request
  unsubscribe_request : Unsubscribe → Request

abbrev pub set_identifier : ℕ → Request → Request
set_identifier id (publish_request p) = publish_request (record p { packet_id = id })
set_identifier id (subscribe_request p) = subscribe_request (record p { packet_id = id })
set_identifier id (unsubscribe_request p) = unsubscribe_request (record p { packet_id = id })

abbrev pub request_type : Request → ℕ
request_type (publish_request p) = Types.publish
request_type (subscribe_request p) = Types.subscribe
request_type (unsubscribe_request p) = Types.unsubscribe

-- How far AddToSession comes before it waits.
pub data Start : Type 0 where
  no_connection waits has_slot : Start

-- How AddToSession ends from the slot on, with the packet where it was changed.
pub data Added : Type 0 where
  added store_failed : Request → Added
  ids_exhausted store_panicked : Added

-- The packets that the session writes.
abbrev pub puback_for : Publish → ControlPacket
puback_for pb =
    puback_packet (record { properties = some empty; packet_id = pb.packet_id; reason_code = 0 })

abbrev pub pubrec_for : Publish → ControlPacket
pubrec_for pb =
    pubrec_packet (record { properties = some empty; packet_id = pb.packet_id; reason_code = 0 })

abbrev pub pubrel_for : ℕ → ℕ → ControlPacket
pubrel_for id reason =
    pubrel_packet (record { properties = none; packet_id = id; reason_code = reason })

abbrev pub pubcomp_for : ℕ → ControlPacket
pubcomp_for id = pubcomp_packet (record { properties = none; packet_id = id; reason_code = 0 })

-- s.serverPackets[id] = type, which panics on a nil map
abbrev pub record_server : ℕ → ℕ → Option (List (ℕ × ℕ)) → Option (List (ℕ × ℕ))
record_server id type none = none
record_server id type (some ps) = some (insert id type ps)

abbrev pub forget_server : ℕ → Option (List (ℕ × ℕ)) → Option (List (ℕ × ℕ))
forget_server id none = none
forget_server id (some ps) = some (without id ps)

abbrev pub server_packet : ℕ → Option (List (ℕ × ℕ)) → Option ℕ
server_packet id none = none
server_packet id (some ps) = lookup id ps

-- What a call reports: `bad_call` stands for the errors that are no failed writes, and
-- `write_panicked` is a write to a connection that is nil.
pub data Report : Type 0 where
  fine write_failed bad_call write_panicked : Report

abbrev pub report : Bool → Report
report true = fine
report false = write_failed

module _ (St : Storer) where
  -- State, with the packets that went out, the publishes that were delivered, and the answers.
  -- `connected` is `conn != nil`; `connectionLostAt` is written and never read.
  pub record Session : Type 0 where
    pub connected : Bool
    pub session_expiry_interval : ℕ
    pub ids : State
    pub client_store : St.Store
    pub server_packets : Option (List (ℕ × ℕ))
    pub server_store : St.Store
    pub inflight : SendQuota
    pub sent : List ControlPacket
    pub delivered : List Publish
    pub answers : List (ℕ × Option ControlPacket)

  -- New
  unfoldable pub new_session : St.Store → St.Store → Session
  new_session client server = record {
    connected = false;
    session_expiry_interval = 0;
    ids = record { client_packets = []; last_mid = 0 };
    client_store = client;
    server_packets = none;
    server_store = server;
    inflight = new_send_quota 0;
    sent = [];
    delivered = [];
    answers = [];
  }

  -- clean
  unfoldable pub clean : Session → Session
  clean s = record s {
    server_packets = some [];
    ids = record (s.ids) { client_packets = [] };
    server_store = St.reset s.server_store;
    client_store = St.reset s.client_store;
  }

  -- connectionLost
  unfoldable pub connection_lost : Option Disconnect → Session → Session
  unfolding clean
  connection_lost dp s =
      let expiry = or_else (expiry_of dp) s.session_expiry_interval in
      let down = record s { connected = false; session_expiry_interval = expiry } in
      if s.connected then (if expiry == 0 then clean down else down) else s

  -- Close
  unfoldable pub close : Session → Session
  unfolding connection_lost
  close s =
      let down = connection_lost none s in
      record down {
        answers = down.answers ++ closing_answers down.ids.client_packets;
        ids = record (down.ids) { client_packets = [] };
      }

  -- endClientGenerated
  unfoldable pub end_client_generated : ℕ → ControlPacket → Session → Session
  unfolding lookup
  end_client_generated id recv s = elim (lookup id s.ids.client_packets) [
    | none ↦ s
    | some cg ↦
        let done = record s {
          answers = s.answers ++ (cg.response_chan, some recv) ∷ [];
          ids = record (s.ids) { client_packets = without id s.ids.client_packets };
        } in
        if cg.packet_type == Types.publish || cg.packet_type == Types.pubrel
        then record done {
          inflight = (release s.inflight).0;
          client_store = or_same s.client_store (St.delete id s.client_store);
        }
        else done
  ]

  -- AddToSession up to the slot; `ready` is the channel of a publisher that waits.
  unfoldable pub begin_add : Request → ℕ → Session → Session × Start
  unfolding acquire
  begin_add r ready s =
      if not s.connected
      then (s, no_connection)
      else if request_type r == Types.publish
      then (let (quota, granted) = acquire ready false s.inflight in
          (record s { inflight = quota }, if granted then has_slot else waits))
      else (s, has_slot)

  -- AddToSession from the slot on, where Put has stored the packet or failed.
  unfoldable pub add_stored : ℕ → Request → Session → PutResult St.Store → Session × Added
  add_stored id r s (stored m) = (record s { client_store = m }, added r)
  add_stored id r s put_panicked = (s, store_panicked)
  add_stored id r s put_failed = (
    record s {
      ids = record (s.ids) { client_packets = without id s.ids.client_packets };
      inflight = (release s.inflight).0;
    },
    store_failed (set_identifier 0 r),
  )

  -- AddToSession from the slot on, where the identifier was allocated.
  unfoldable pub add_allocated : ℕ → Request → Session → Session × Added
  unfolding add_stored
  add_allocated id (publish_request p) s =
      let q = record p { packet_id = id } in
      add_stored id (publish_request q) s
        (St.put id Types.publish (publish_packet q) s.client_store)
  add_allocated id r s = (s, added (set_identifier id r))

  -- AddToSession from the slot on.
  unfoldable pub add_with_slot : Request → ℕ → Session → Session × Added
  unfolding add_allocated
  add_with_slot r resp s =
      let cg : ClientGenerated = record { packet_type = request_type r; response_chan = resp } in
      let (ids, o) = allocate_next_packet_id cg s.ids in
      let s' = record s { ids = ids } in
      elim o [
        | some id ↦ add_allocated id r s'
        | none ↦ (
          if request_type r == Types.publish
              then record s' { inflight = (release s.inflight).0 }
              else s',
          ids_exhausted,
        )
      ]

  -- A write to the connection, which succeeds or fails.
  abbrev pub write : Bool → ControlPacket → Session → Session
  write true c s = record s { sent = s.sent ++ c ∷ [] }
  write false c s = s

  -- `if s.conn != nil { … = WriteTo(s.conn) }`: whether that went without an error.
  abbrev pub write_if_up : Bool → ControlPacket → Session → Session × Bool
  write_if_up w c s = if s.connected then (write w c s, w) else (s, true)

  -- `WriteTo(s.conn)` without a test for nil, whose error is only logged.
  abbrev pub write_or_panic : Bool → ControlPacket → Session → Session × Report
  write_or_panic w c s = if s.connected then (write w c s, fine) else (s, write_panicked)

  -- The end of ack for QoS 2.
  unfoldable pub note_pubrec : Publish → Session → Session
  unfolding insert
  note_pubrec pb s = record s {
    server_store =
        after_put s.server_store (St.put pb.packet_id Types.pubrec (pubrec_for pb) s.server_store);
    server_packets = record_server pb.packet_id Types.pubrec s.server_packets;
  }

  -- ack, and Ack, which calls it; `w` is whether a write succeeds.
  unfoldable pub ack : Bool → Publish → Session → Session × Report
  unfolding note_pubrec
  ack w pb s =
      if pb.qos == 1
      then (let r = write_if_up w (puback_for pb) s in (r.0, report r.1))
      else if pb.qos == 2
      then (let r = write_if_up w (pubrec_for pb) s in (note_pubrec pb r.0, report r.1))
      else (s, bad_call)
