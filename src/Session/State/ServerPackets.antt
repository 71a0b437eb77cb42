-- ===== src/Session/State/ServerPackets.antt =====
-- paho/session/state/state.go: what each call leaves in serverPackets.
use paho_golang.Session.PacketIds.{ClientGenerated, allocate_next_packet_id}
use paho_golang.Session.State.{Start, request_type}
use paho_golang.Session.State.Resending.{resend_loop_keeps, con_ack_received-resumed}
use paho_golang.Common.{
  if_both, if_each, ℕ, ◌≡◌, refl, sym, ap, ◌∙◌, ◌≢◌, inl, inr, List, Bool, true, false, not, ◌&&◌,
  ◌||◌, ◌==◌, ==_iff, Option, none, some, leb, ltb, Option-cases, arith,
}
use paho_golang.Common.Maps.{lookup, lookup-without, lookup-insert}
use paho_golang.Packets.Types
use paho_golang.Packets.Acks.{Ack}
use paho_golang.Packets.Requests.{Publish}
use paho_golang.Packets.Connecting.{Connect}
use paho_golang.Packets.Replies.{Connack, Disconnect}
use paho_golang.Packets.Control.{
  ControlPacket, Content, publish, puback, pubrec, pubrel, pubcomp, suback, unsuback, connect,
  connack, subscribe, unsubscribe, pingreq, pingresp, disconnect, auth,
}
use paho_golang.Session.Storer.{Storer, PutResult, stored, put_failed, put_panicked}
use paho_golang.Session.State.{
  Session, Request, begin_add, add_with_slot, add_allocated, add_stored, or_else, expiry_of,
  connection_lost, end_client_generated, write, write_or_panic, write_if_up, pubrec_for, puback_for,
  record_server, forget_server, server_packet, note_pubrec, ack, Report, publish_request,
  subscribe_request, unsubscribe_request,
}
use paho_golang.Session.State.Received.{
  publish_received, pubrec_received, pubrel_received, packet_received,
}
use paho_golang.Session.State.Connected.{resend_stored, con_ack_received}

-- A packet that does not end the transaction `id` of the server.
abbrev pub IsNotRelease : ℕ → Content → Type 0
IsNotRelease id (pubrel a) = a.packet_id ≢ id
IsNotRelease id c = Unit {0}

pub record_server-pubrec :
    (id j : ℕ) (o : Option (List (ℕ × ℕ)))
    → server_packet id o ≡ some Types.pubrec
    → server_packet id (record_server j Types.pubrec o) ≡ some Types.pubrec
record_server-pubrec id j none e = e
record_server-pubrec id j (some ps) e =
    lookup-insert id j Types.pubrec ps ∙ if_both (λ o. o ≡ some Types.pubrec) (id == j) refl e

pub forget_server-other :
    (id j : ℕ) (o : Option (List (ℕ × ℕ)))
    → j ≢ id
    → server_packet id (forget_server j o) ≡ server_packet id o
forget_server-other id j none n = refl
forget_server-other id j (some ps) n =
    lookup-without id j ps
    ∙ if_each (λ o. o ≡ lookup id ps) (id == j) (λ e. absurd (n (sym ((==_iff id j).0 e))))
        (λ e. refl)

module _ (St : Storer) where
  abbrev pub type_of : ℕ → Session St → Option ℕ
  type_of id s = server_packet id s.server_packets

  pub write-server_packets :
      (w : Bool) (c : ControlPacket) (s : Session St)
      → (write St w c s).server_packets ≡ s.server_packets
  write-server_packets true c s = refl
  write-server_packets false c s = refl

  pub write_if_up-server_packets :
      (w : Bool) (c : ControlPacket) (s : Session St)
      → (write_if_up St w c s).0.server_packets ≡ s.server_packets
  write_if_up-server_packets w c s =
      if_both (λ (r : Session St × Bool). r.0.server_packets ≡ s.server_packets) s.connected
        (write-server_packets w c s) refl

  pub note_pubrec-type_of :
      (id : ℕ) (pb : Publish) (s : Session St)
      → type_of id s ≡ some Types.pubrec
      → type_of id (note_pubrec St pb s) ≡ some Types.pubrec
  unfolding note_pubrec
  note_pubrec-type_of id pb s e = record_server-pubrec id pb.packet_id s.server_packets e

  pub ack-type_of :
      (id : ℕ) (w : Bool) (pb : Publish) (s : Session St)
      → type_of id s ≡ some Types.pubrec
      → type_of id (ack St w pb s).0 ≡ some Types.pubrec
  unfolding ack
  ack-type_of id w pb s e =
      let P = λ (r : Session St × Report). type_of id r.0 ≡ some Types.pubrec in
      if_both P (pb.qos == 1)
        (ap (server_packet id) (write_if_up-server_packets w (puback_for pb) s) ∙ e)
        (if_both P (pb.qos == 2)
          (note_pubrec-type_of id pb (write_if_up St w (pubrec_for pb) s).0
            (ap (server_packet id) (write_if_up-server_packets w (pubrec_for pb) s) ∙ e))
          e)

  pub end_client_generated-server_packets :
      (id : ℕ) (recv : ControlPacket) (s : Session St)
      → (end_client_generated St id recv s).server_packets ≡ s.server_packets
  unfolding end_client_generated
  end_client_generated-server_packets id recv s =
      elim (Option-cases (lookup id s.ids.client_packets)) [
        | inl e ↦ rw (end_client_generated, e) refl
        | inr (cg, e) ↦
            rw (end_client_generated, e)
              (if_both (λ (r : Session St). r.server_packets ≡ s.server_packets)
                (cg.packet_type == Types.publish || cg.packet_type == Types.pubrel) refl refl)
      ]

  write_or_panic-server_packets :
      (w : Bool) (c : ControlPacket) (s : Session St)
      → (write_or_panic St w c s).0.server_packets ≡ s.server_packets
  write_or_panic-server_packets w c s =
      if_both (λ (r : Session St × Report). r.0.server_packets ≡ s.server_packets) s.connected
        (write-server_packets w c s) refl

  pub pubrec_received-server_packets :
      (w : Bool) (recv : ControlPacket) (a : Ack) (s : Session St)
      → (pubrec_received St w recv a s).0.server_packets ≡ s.server_packets
  unfolding pubrec_received
  pubrec_received-server_packets w recv a s =
      elim (Option-cases (lookup a.packet_id s.ids.client_packets)) [
        | inl e ↦ rw (pubrec_received, e) (write_or_panic-server_packets w _ s)
        | inr (cg, e) ↦
            rw (pubrec_received, e)
              (if_both (λ (r : Session St × Report). r.0.server_packets ≡ s.server_packets)
                (leb 128 a.reason_code) (end_client_generated-server_packets a.packet_id recv s)
                (write_or_panic-server_packets w _ _))
      ]

  pub pubrel_received-type_of :
      (id : ℕ) (w : Bool) (a : Ack) (s : Session St)
      → a.packet_id ≢ id
      → type_of id (pubrel_received St w a s).0 ≡ type_of id s
  unfolding pubrel_received
  pubrel_received-type_of id w a s n =
      let P = λ (r : Session St × Report). type_of id r.0 ≡ type_of id s in
      if_both P (leb 128 a.reason_code) refl
        (if_both P s.connected (forget_server-other id a.packet_id s.server_packets n) refl)

  pub publish_received-type_of :
      (id : ℕ) (w : Bool) (pb : Publish) (s : Session St)
      → type_of id s ≡ some Types.pubrec
      → type_of id (publish_received St w pb s).0 ≡ some Types.pubrec
  unfolding publish_received
  publish_received-type_of id w pb s e =
      let P = λ (r : Session St × Report). type_of id r.0 ≡ some Types.pubrec in
      elim (Option-cases (server_packet pb.packet_id s.server_packets)) [
        | inl n ↦
            rw (publish_received, n)
              (if_both P (ltb 0 pb.qos && pb.packet_id == 0) e (if_both P (pb.qos == 2) e e))
        | inr (t, n) ↦
            rw (publish_received, n)
              (if_both P (ltb 0 pb.qos && pb.packet_id == 0) e (
                if_both P (pb.qos == 2)
                  (if_both P (t == Types.pubrec && pb.duplicate) (ack-type_of id w pb s e) e) e))
      ]

  pub packet_received-type_of :
      (id : ℕ) (w : Bool) (t f : ℕ) (c : Content) (s : Session St)
      → IsNotRelease id c
      → type_of id s ≡ some Types.pubrec
      → let recv : ControlPacket = record { content = c; packet_type = t; flags = f } in
        type_of id (packet_received St w recv s).0 ≡ some Types.pubrec
  unfolding packet_received
  packet_received-type_of id w t f (suback a) s n e =
      ap (server_packet id) (end_client_generated-server_packets a.packet_id _ s) ∙ e
  packet_received-type_of id w t f (unsuback a) s n e =
      ap (server_packet id) (end_client_generated-server_packets a.packet_id _ s) ∙ e
  packet_received-type_of id w t f (puback a) s n e =
      ap (server_packet id) (end_client_generated-server_packets a.packet_id _ s) ∙ e
  packet_received-type_of id w t f (pubcomp a) s n e =
      ap (server_packet id) (end_client_generated-server_packets a.packet_id _ s) ∙ e
  packet_received-type_of id w t f (pubrec a) s n e =
      ap (server_packet id) (pubrec_received-server_packets w _ a s) ∙ e
  packet_received-type_of id w t f (publish pb) s n e = publish_received-type_of id w pb s e
  packet_received-type_of id w t f (pubrel a) s n e = pubrel_received-type_of id w a s n ∙ e
  packet_received-type_of id w t f (connect c) s n e = e
  packet_received-type_of id w t f (connack c) s n e = e
  packet_received-type_of id w t f (subscribe c) s n e = e
  packet_received-type_of id w t f (unsubscribe c) s n e = e
  packet_received-type_of id w t f pingreq s n e = e
  packet_received-type_of id w t f pingresp s n e = e
  packet_received-type_of id w t f (disconnect d) s n e = e
  packet_received-type_of id w t f (auth a) s n e = e

  pub begin_add-server_packets :
      (r : Request) (ready : ℕ) (s : Session St)
      → (begin_add St r ready s).0.server_packets ≡ s.server_packets
  unfolding begin_add
  begin_add-server_packets r ready s =
      let P = λ (r : Session St × Start). r.0.server_packets ≡ s.server_packets in
      if_both P (not s.connected) refl (if_both P (request_type r == Types.publish) refl refl)

  pub add_stored-server_packets :
      (id : ℕ) (r : Request) (s : Session St) (o : PutResult St.Store)
      → (add_stored St id r s o).0.server_packets ≡ s.server_packets
  unfolding add_stored
  add_stored-server_packets id r s put_failed = refl
  add_stored-server_packets id r s put_panicked = refl
  add_stored-server_packets id r s (stored m) = refl

  pub add_allocated-server_packets :
      (id : ℕ) (r : Request) (s : Session St)
      → (add_allocated St id r s).0.server_packets ≡ s.server_packets
  unfolding add_allocated
  add_allocated-server_packets id (publish_request p) s =
      add_stored-server_packets id (publish_request (record p { packet_id = id })) s _
  add_allocated-server_packets id (subscribe_request p) s = refl
  add_allocated-server_packets id (unsubscribe_request p) s = refl

  pub add_with_slot-server_packets :
      (r : Request) (resp : ℕ) (s : Session St)
      → (add_with_slot St r resp s).0.server_packets ≡ s.server_packets
  unfolding add_with_slot
  add_with_slot-server_packets r resp s =
      let cg : ClientGenerated = record { packet_type = request_type r; response_chan = resp } in
      elim (Option-cases (allocate_next_packet_id cg s.ids).1) [
        | inl e ↦
            rw (add_with_slot, e)
              (if_both (λ (r : Session St). r.server_packets ≡ s.server_packets)
                (request_type r == Types.publish) refl refl)
        | inr (id, e) ↦ rw (add_with_slot, e) (add_allocated-server_packets id r _)
      ]

  pub resend_stored-server_packets :
      (w : ℕ → Bool) (ca : Connack) (s : Session St)
      → (resend_stored St w ca s).0.server_packets ≡ s.server_packets
  unfolding resend_stored
  resend_stored-server_packets w ca s = elim (Option-cases (St.list s.client_store)) [
    | inl e ↦ rw (resend_stored, e) refl
    | inr (ids, e) ↦
        rw (resend_stored, e)
          (resend_loop_keeps St (λ t. t.server_packets ≡ s.server_packets) (λ id t p. p)
            (λ id c t p. p) (λ t p. p) w ids _ refl)
  ]

  pub con_ack_received-server_packets :
      (w : ℕ → Bool) (cp : Connect) (ca : Connack) (s : Session St) (ps : List (ℕ × ℕ))
      → ca.session_present ≡ true
      → s.connected ≡ false
      → s.server_packets ≡ some ps
      → (con_ack_received St w cp ca s).0.server_packets ≡ some ps
  con_ack_received-server_packets w cp ca s ps present down e =
      ap (λ r. r.0.server_packets) (con_ack_received-resumed St w cp ca s ps present down e)
      ∙ resend_stored-server_packets w ca _
      ∙ e

  pub connection_lost-server_packets :
      (dp : Option Disconnect) (s : Session St)
      → (or_else (expiry_of dp) s.session_expiry_interval == 0) ≡ false
      → (connection_lost St dp s).server_packets ≡ s.server_packets
  unfolding connection_lost
  connection_lost-server_packets dp s e =
      rw (connection_lost, e)
        (if_both (λ (r : Session St). r.server_packets ≡ s.server_packets) s.connected refl refl)

  pub has_type :
      (id : ℕ) (o : Option (List (ℕ × ℕ))) (t : ℕ)
      → server_packet id o ≡ some t
      → (ps : List (ℕ × ℕ)) × (o ≡ some ps)
  has_type id none t e = ground arith
  has_type id (some ps) t e = (ps, refl)
