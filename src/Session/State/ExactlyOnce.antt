-- ===== src/Session/State/ExactlyOnce.antt =====
-- paho/session/state/state.go: what the session remembers of a QoS 2 message from the server.
use paho_golang.Common.{
  if_both, ℕ, ◌≡◌, refl, sym, ap, ◌∙◌, List, Bool, true, false, ◌==◌, ==_refl, Option, some, arith,
  ◌<◌,
}
use paho_golang.Common.Maps.{lookup-insert}
use paho_golang.Packets.Types
use paho_golang.Packets.Requests.{Publish}
use paho_golang.Packets.Connecting.{Connect}
use paho_golang.Packets.Replies.{Connack, Disconnect}
use paho_golang.Packets.Control.{ControlPacket}
use paho_golang.Session.Storer.{Storer}
use paho_golang.Session.State.{
  Session, Request, begin_add, add_with_slot, or_else, expiry_of, connection_lost, write,
  pubrec_for, record_server, server_packet, note_pubrec, ack, Report,
}
use paho_golang.Session.State.Received.{publish_received, packet_received}
use paho_golang.Session.State.Connected.{con_ack_received}
use paho_golang.Session.State.ServerPackets.{
  IsNotRelease, type_of, write_if_up-server_packets, ack-type_of, packet_received-type_of,
  begin_add-server_packets, add_with_slot-server_packets, con_ack_received-server_packets,
  connection_lost-server_packets, has_type,
}

module _ (St : Storer) where
  -- What may happen to a session while a message `id` of the server is not released: these calls,
  -- without the packet PUBREL for `id` and the end of the session.
  pub data Step (id : ℕ) (s : Session St) : Session St → Type 0 where
    acks : (w : Bool) (pb : Publish) → Step id s (ack St w pb s).0
    receives :
        (w : Bool) (recv : ControlPacket)
        → IsNotRelease id recv.content
        → Step id s (packet_received St w recv s).0
    begins : (r : Request) (ready : ℕ) → Step id s (begin_add St r ready s).0
    adds : (r : Request) (resp : ℕ) → Step id s (add_with_slot St r resp s).0
    loses :
        (dp : Option Disconnect)
        → (or_else (expiry_of dp) s.session_expiry_interval == 0) ≡ false
        → Step id s (connection_lost St dp s)
    resumes :
        (w : ℕ → Bool) (cp : Connect) (ca : Connack)
        → ca.session_present ≡ true
        → s.connected ≡ false
        → Step id s (con_ack_received St w cp ca s).0

  pub data Reach (id : ℕ) (s : Session St) : Session St → Type 0 where
    here : Reach id s s
    next : {t u : Session St} → Reach id s t → Step id t u → Reach id s u

  step-type_of :
      (id : ℕ) (s t : Session St)
      → Step id s t
      → type_of St id s ≡ some Types.pubrec
      → type_of St id t ≡ some Types.pubrec
  step-type_of id s t (acks w pb) e = ack-type_of St id w pb s e
  step-type_of id s t (receives w recv n) e =
      packet_received-type_of St id w recv.packet_type recv.flags recv.content s n e
  step-type_of id s t (begins r ready) e =
      ap (server_packet id) (begin_add-server_packets St r ready s) ∙ e
  step-type_of id s t (adds r resp) e =
      ap (server_packet id) (add_with_slot-server_packets St r resp s) ∙ e
  step-type_of id s t (loses dp n) e =
      ap (server_packet id) (connection_lost-server_packets St dp s n) ∙ e
  step-type_of id s t (resumes w cp ca present down) e =
      let (ps, known) = has_type St id s.server_packets Types.pubrec e in
      ap (server_packet id) (con_ack_received-server_packets St w cp ca s ps present down known)
      ∙ ap (server_packet id) (sym known)
      ∙ e

  Reach-type_of :
      (id : ℕ) (s t : Session St)
      → Reach id s t
      → type_of St id s ≡ some Types.pubrec
      → type_of St id t ≡ some Types.pubrec
  Reach-type_of id s t here e = e
  Reach-type_of id s t (next {t = u} r step) e = step-type_of id u t step (Reach-type_of id s u r e)

  acked-type_of :
      (w : Bool) (pb : Publish) (s : Session St) (ps : List (ℕ × ℕ))
      → pb.qos ≡ 2
      → s.server_packets ≡ some ps
      → type_of St pb.packet_id (ack St w pb s).0 ≡ some Types.pubrec
  unfolding ack note_pubrec
  acked-type_of w pb s ps two e =
      let known = write_if_up-server_packets St w (pubrec_for pb) s ∙ e in
      rw (ack, two)
        (ap (λ o. server_packet pb.packet_id (record_server pb.packet_id Types.pubrec o)) known
          ∙ lookup-insert pb.packet_id pb.packet_id Types.pubrec ps
          ∙ rw (==_refl pb.packet_id) refl)

  publish_received-duplicate :
      (w : Bool) (q : Publish) (s : Session St)
      → q.qos ≡ 2
      → q.duplicate ≡ true
      → 0 < q.packet_id
      → type_of St q.packet_id s ≡ some Types.pubrec
      → publish_received St w q s ≡ ack St w q s
  unfolding publish_received
  publish_received-duplicate w q s two dup id e =
      let z : (q.packet_id == 0) ≡ false = ground arith in
      rw (publish_received, e, two, dup, z) refl

  write-delivered :
      (w : Bool) (c : ControlPacket) (s : Session St) → (write St w c s).delivered ≡ s.delivered
  write-delivered true c s = refl
  write-delivered false c s = refl

  ack-delivered :
      (w : Bool) (pb : Publish) (s : Session St) → (ack St w pb s).0.delivered ≡ s.delivered
  unfolding ack note_pubrec
  ack-delivered w pb s =
      let P = λ (r : Session St × Report). r.0.delivered ≡ s.delivered in
      let Q = λ (r : Session St × Bool). r.0.delivered ≡ s.delivered in
      if_both P (pb.qos == 1) (if_both Q s.connected (write-delivered w _ s) refl)
        (if_both P (pb.qos == 2) (if_both Q s.connected (write-delivered w _ s) refl) refl)

  -- A QoS 2 message that the application has acknowledged is not delivered again: sent once more with
  -- the DUP flag, it is only acknowledged again, after any messages acknowledged, packets received or
  -- added, connections lost and sessions resumed, but its release and a loss with expiry interval 0.
  pub acked_not_delivered_again :
      (w v : Bool) (pb q : Publish) (s t : Session St) (ps : List (ℕ × ℕ))
      → pb.qos ≡ 2
      → s.server_packets ≡ some ps
      → Reach pb.packet_id (ack St w pb s).0 t
      → q.qos ≡ 2
      → q.duplicate ≡ true
      → q.packet_id ≡ pb.packet_id
      → 0 < pb.packet_id
      → (publish_received St v q t ≡ ack St v q t)
        × ((publish_received St v q t).0.delivered ≡ t.delivered)
  acked_not_delivered_again w v pb q s t ps two known r two' dup same id =
      let e : type_of St q.packet_id t ≡ some Types.pubrec =
        rw (same) (Reach-type_of pb.packet_id _ t r (acked-type_of w pb s ps two known)) in
      let a = publish_received-duplicate v q t two' dup (rw (same) id) e in
      (a, ap (λ x. x.0.delivered) a ∙ ack-delivered v q t)
