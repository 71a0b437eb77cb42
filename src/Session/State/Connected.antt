-- ===== src/Session/State/Connected.antt =====
-- paho/session/state/state.go: ConAckReceived and loadServerSession.
use paho_golang.Common.{
  ℕ, ◌/◌, List, [], ◌∷◌, Bool, true, false, ◌||◌, ◌==◌, if◌then◌else◌, Option, none, some,
}
use paho_golang.Common.Maps.{lookup, insert}
use paho_golang.Packets.Types
use paho_golang.Packets.Result.{ok, err}
use paho_golang.Packets.Requests.{Publish}
use paho_golang.Packets.Connecting.{Connect}
use paho_golang.Packets.Replies.{Connack}
use paho_golang.Packets.Control.{ControlPacket, publish, pubrel, read_packet}
use paho_golang.Session.SendQuota.{new_send_quota, retransmit}
use paho_golang.Session.PacketIds.{ClientGenerated}
use paho_golang.Session.Storer.{Storer}
use paho_golang.Session.State.{
  Session, property, clean, or_else, connection_lost, or_same, write, Report, fine, write_failed,
  bad_call,
}

abbrev pub set_duplicate : Publish → ControlPacket → ControlPacket
set_duplicate pub_ c = record c { content = publish (record pub_ { duplicate = true }) }

-- What is sent again for a stored packet, if anything is: PUBLISH with the DUP flag, or PUBREL.
abbrev pub to_resend : ControlPacket → Option ControlPacket
to_resend c = elim (c.content) [
  | publish pb ↦ some (set_duplicate pb c)
  | pubrel a ↦ some c
  | _ ↦ none
]

-- The entry that a packet gets which is not in clientPackets; nothing waits on its channel, 0.
abbrev pub adopt : ℕ → ℕ → List (ℕ × ClientGenerated) → List (ℕ × ClientGenerated)
adopt id type ps = elim (lookup id ps) [
  | none ↦ insert id (record { packet_type = type; response_chan = 0 }) ps
  | some cg ↦ ps
]

abbrev pub connack_expiry : Connect → Connack → ℕ
connack_expiry cp ca =
    or_else (property ca.properties (λ i. i.session_expiry_interval))
      (or_else (property cp.properties (λ i. i.session_expiry_interval)) 0)

module _ (St : Storer) where
  -- The loop of loadServerSession over the stored identifiers, with the map and the store so far.
  unfoldable pub load_loop : List ℕ → List (ℕ × ℕ) → St.Store → List (ℕ × ℕ) × St.Store
  unfolding insert
  load_loop [] ps m = (ps, m)
  load_loop (id ∷ ids) ps m = elim (St.get id m) [
    | none ↦ load_loop ids ps m
    | some bytes ↦ elim bytes [
      | [] ↦ load_loop ids ps (or_same m (St.quarantine id m))
      | b ∷ bs ↦
          if b / 16 == Types.publish || b / 16 == Types.pubrec
          then load_loop ids (insert id (b / 16) ps) m
          else load_loop ids ps (or_same m (St.quarantine id m))
    ]
  ]

  -- loadServerSession, with whether it went without an error
  unfoldable pub load_server_session : Session St → Session St × Bool
  unfolding load_loop
  load_server_session s = elim (St.list s.server_store) [
    | none ↦ (record s { server_packets = some [] }, false)
    | some ids ↦
        let (ps, m) = load_loop ids [] s.server_store in
        (record s { server_packets = some ps; server_store = m }, true)
  ]

  -- `if s.serverPackets == nil`
  abbrev pub load_unless : Option (List (ℕ × ℕ)) → Session St → Session St × Bool
  load_unless none s = load_server_session s
  load_unless (some ps) s = (s, true)

  unfoldable pub load_if_new : Session St → Session St × Bool
  load_if_new s = load_unless s.server_packets s

  abbrev pub quarantined : ℕ → Session St → Session St
  quarantined id s = record s {
    client_store = or_same s.client_store (St.quarantine id s.client_store);
  }

  abbrev pub resent : ℕ → ControlPacket → Session St → Session St
  resent id c s = record (write St true c s) {
    inflight = retransmit s.inflight;
    ids = record (s.ids) { client_packets = adopt id c.packet_type s.ids.client_packets };
  }

  -- The loop of ConAckReceived over the stored identifiers; `w` tells whether the write for an
  -- identifier succeeds. The result is false after a failed write, which ends the loop.
  unfoldable pub resend_loop : (ℕ → Bool) → List ℕ → Session St → Session St × Bool
  resend_loop w [] s = (s, true)
  resend_loop w (id ∷ ids) s = elim (St.get id s.client_store) [
    | none ↦ resend_loop w ids s
    | some bytes ↦ elim (read_packet bytes) [
      | err e ↦ resend_loop w ids (quarantined id s)
      | ok (p, rest) ↦ elim (to_resend p) [
        | none ↦ resend_loop w ids (quarantined id s)
        | some c ↦ elim (w id) [
          | true ↦ resend_loop w ids (resent id c s)
          | false ↦ (record s { inflight = retransmit s.inflight }, false)
        ]
      ]
    ]
  ]

  -- ConAckReceived up to the map of server packets
  unfoldable pub begin_connection : Connect → Connack → Session St → Session St
  unfolding connection_lost clean
  begin_connection cp ca s =
      let lost = if s.connected then connection_lost St none s else s in
      let up = record lost { connected = true } in
      let present = if ca.session_present then up else clean St up in
      record present { session_expiry_interval = connack_expiry cp ca }

  -- ConAckReceived from the new send quota on
  unfoldable pub resend_stored : (ℕ → Bool) → Connack → Session St → Session St × Report
  unfolding resend_loop
  resend_stored w ca s =
      let maximum = or_else (property ca.properties (λ i. i.receive_maximum)) 65535 in
      let s' = record s { inflight = new_send_quota maximum } in
      elim (St.list s.client_store) [
        | none ↦ (s', bad_call)
        | some ids ↦
            let (t, done) = resend_loop w ids s' in (t, if done then fine else write_failed)
      ]

  abbrev pub connected_with : (ℕ → Bool) → Connack → Session St × Bool → Session St × Report
  connected_with w ca (t, loaded) = if loaded then resend_stored w ca t else (t, bad_call)

  -- ConAckReceived
  unfoldable pub con_ack_received :
      (ℕ → Bool) → Connect → Connack → Session St → Session St × Report
  unfolding begin_connection load_if_new resend_stored
  con_ack_received w cp ca s = connected_with w ca (load_if_new (begin_connection cp ca s))
