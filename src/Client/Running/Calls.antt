-- ===== src/Client/Running/Calls.antt =====
-- paho/client.go: Ack and the ticker that sends the acknowledgements, Authenticate, Disconnect and
-- shutdown.
use paho_golang.Common.{
  ◌≡◌, ◌⊎◌, inl, inr, refl, ap, sym, ◌∙◌, List, [], ◌∷◌, ◌++◌, append_assoc, append-nil, Bool, true,
  false, not, ◌==◌, if◌then◌else◌, Option, none, some, All,
}
use paho_golang.Packets.Requests
use paho_golang.Packets.Replies
use paho_golang.Packets.Control.{ControlPacket}
use paho_golang.Packets.Control
use paho_golang.Session.Storer.{Storer}
use paho_golang.Session.State.{
  Session, ack, note_pubrec, connection_lost, close, puback_for, pubrec_for,
}
use paho_golang.Client.AcksTracker.{mark_as_acked, flush, reset}
use paho_golang.Client.Conversions.Messages.{Publish, publish_packet}
use paho_golang.Client.Conversions.Answers.{
  Auth, AuthResponse, auth_packet, Disconnect, disconnect_packet, auth_response_from_packet_auth,
  auth_response_from_packet_disconnect,
}
use paho_golang.Client.Running.{Client, as_auth}

-- The result of Ack: ErrManualAcknowledgmentDisabled, nil, or ErrPacketNotFound.
pub data AckResult : Type 0 where
  manual_disabled acknowledged packet_not_found : AckResult

-- How Authenticate ends; `interrupted` is the end of the context.
pub data AuthResult : Type 0 where
  in_progress write_error interrupted panicked unexpected_answer : AuthResult
  authenticated : AuthResponse → AuthResult

abbrev pub as_disconnect : ControlPacket → Option Replies.Disconnect
as_disconnect p = elim (p.content) [ Control.disconnect d ↦ some d | _ ↦ none ]

abbrev pub response_or_panic : Option AuthResponse → AuthResult
response_or_panic none = panicked
response_or_panic (some r) = authenticated r

-- The end of Authenticate, for the packet that came.
unfoldable pub auth_answered : ControlPacket → AuthResult
auth_answered rp = elim (as_auth rp.content) [
  | some a ↦ response_or_panic (auth_response_from_packet_auth a)
  | none ↦ elim (as_disconnect rp) [
    | some d ↦ response_or_panic (auth_response_from_packet_disconnect d)
    | none ↦ unexpected_answer
  ]
]

module _ (St : Storer) where
  -- Ack
  unfoldable pub ack_message : Publish → Client St → Client St × AckResult
  ack_message pb c =
      if not c.manual_acknowledgment
      then (c, manual_disabled)
      else if pb.qos == 0
      then (c, acknowledged)
      else elim (mark_as_acked (publish_packet pb) c.acks_tracker) [
        | none ↦ (c, packet_not_found)
        | some t ↦ (record c { acks_tracker = t }, acknowledged)
      ]

  -- The callback of flush: ack for each message, whose error is not looked at.
  unfoldable pub ack_each :
      (Requests.Publish → Bool) → List Requests.Publish → Session St → Session St
  ack_each w [] s = s
  ack_each w (pb ∷ pbs) s = ack_each w pbs (ack St (w pb) pb s).0

  -- One tick of the ticker of Connect.
  unfoldable pub tick : (Requests.Publish → Bool) → Client St → Client St
  unfolding ack_each
  tick w c =
      let (pbs, order) = flush c.acks_tracker in
      record c { session = ack_each w pbs c.session; acks_tracker = order }

  -- shutdown
  unfoldable pub shutdown : Client St → Client St
  shutdown c =
      let lost = connection_lost St none c.session in
      record c {
        connection_open = false;
        acks_tracker = reset c.acks_tracker;
        session = if c.auto_close_session then close St lost else lost;
      }

  -- Disconnect: the packet that is written, whether that fails, and the shutdown.
  unfoldable pub disconnect :
      Bool → Disconnect → Client St → Client St × (Replies.Disconnect × Bool)
  unfolding shutdown
  disconnect written d c = (shutdown c, (disconnect_packet d, written))

  abbrev pub closed_channel : Client St → Client St
  closed_channel c = record c { auth_response = none }

  -- Authenticate up to its wait; none is that it waits.
  unfoldable pub begin_authenticate : Bool → Auth → Client St → Client St × Option AuthResult
  begin_authenticate written a c = elim (c.auth_response) [
    | some buffer ↦ (c, some in_progress)
    | none ↦
        if written
        then (
          record c { auth_response = some []; auths_sent = c.auths_sent ++ auth_packet a ∷ [] },
          none,
        )
        else (closed_channel c, some write_error)
  ]

  -- Authenticate from its wait on: a packet is taken from the channel, or the context ends.
  unfoldable pub end_authenticate : Client St → Client St × AuthResult
  unfolding auth_answered
  end_authenticate c = elim (c.auth_response) [
    | none ↦ (closed_channel c, interrupted)
    | some buffer ↦ elim buffer [
      | [] ↦ (closed_channel c, interrupted)
      | rp ∷ rest ↦ (closed_channel c, auth_answered rp)
    ]
  ]

  -- What acknowledges a message.
  abbrev pub ack_for : Requests.Publish → ControlPacket
  ack_for pb = if pb.qos == 1 then puback_for pb else pubrec_for pb

  abbrev pub acks_for : List Requests.Publish → List ControlPacket
  acks_for [] = []
  acks_for (pb ∷ pbs) = ack_for pb ∷ acks_for pbs

  abbrev pub NeedsAck : Requests.Publish → Type 0
  NeedsAck pb = (pb.qos ≡ 1) ⊎ (pb.qos ≡ 2)

  ack-sent :
      (pb : Requests.Publish) (s : Session St)
      → NeedsAck pb
      → s.connected ≡ true
      → let t = (ack St true pb s).0 in (t.sent ≡ s.sent ++ ack_for pb ∷ []) × (t.connected ≡ true)
  unfolding ack note_pubrec
  ack-sent pb s (inl one) up = (rw (one, up) refl, rw (one, up) refl)
  ack-sent pb s (inr two) up = (rw (two, up) refl, rw (two, up) refl)

  ack_each-sent :
      (pbs : List Requests.Publish) (s : Session St)
      → All NeedsAck pbs
      → s.connected ≡ true
      → (ack_each (λ pb. true) pbs s).sent ≡ s.sent ++ acks_for pbs
  unfolding ack_each
  ack_each-sent [] s all up = sym (append-nil s.sent)
  ack_each-sent (pb ∷ pbs) s (n, all) up =
      let (sent, still) = ack-sent pb s n up in
      ack_each-sent pbs (ack St true pb s).0 all still
      ∙ ap (λ l. l ++ acks_for pbs) sent
      ∙ append_assoc s.sent (ack_for pb ∷ []) (acks_for pbs)

  -- A tick sends, over a connection whose writes succeed, one PUBACK or PUBREC for each message that
  -- flush hands over, in that order, and keeps the rest in the tracker. The messages have QoS 1 or 2.
  pub tick-sent :
      (c : Client St)
      → All NeedsAck (flush c.acks_tracker).0
      → c.session.connected ≡ true
      → let d = tick (λ pb. true) c in
        (d.session.sent ≡ c.session.sent ++ acks_for (flush c.acks_tracker).0)
        × (d.acks_tracker ≡ (flush c.acks_tracker).1)
  unfolding tick
  tick-sent c all up = (ack_each-sent (flush c.acks_tracker).0 c.session all up, refl)
