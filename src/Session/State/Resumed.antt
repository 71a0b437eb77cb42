-- ===== src/Session/State/Resumed.antt =====
-- paho/session/state/state.go: what ConAckReceived sends again when the server resumes the session.
use paho_golang.Common.{
  ℕ, ◌≡◌, refl, sym, ap, ◌∙◌, List, [], ◌∷◌, ◌++◌, append_assoc, append-nil, Bool, true, false,
  some, All, arith, if◌then◌else◌,
}
use paho_golang.Packets.Result.{Bytes, ok}
use paho_golang.Packets.Requests.Publishing.{publish_received}
use paho_golang.Packets.Connecting.{Connect}
use paho_golang.Packets.Replies.{Connack}
use paho_golang.Packets.Control.{
  Content, ControlPacket, publish, pubrel, control_packet, write_to, read_packet,
}
use paho_golang.Packets.Control.RoundTrip.{content_received, ContentFits, read_packet-write_to}
use paho_golang.Session.SendQuota.{new_send_quota}
use paho_golang.Session.Storer.{Storer}
use paho_golang.Session.State.{Session, Report, fine, write_failed, or_else, property}
use paho_golang.Session.State.Connected.{
  to_resend, resent, resend_loop, resend_stored, con_ack_received, connack_expiry,
}
use paho_golang.Session.State.Resending.{resend_loop-resent, con_ack_received-resumed}

-- The packets that are stored and sent again: PUBLISH and PUBREL.
abbrev pub IsKept : Content → Type 0
IsKept c = elim c [ publish p ↦ Unit {0} | pubrel a ↦ Unit {0} | _ ↦ Path ℕ 0 1 ]

-- How it is sent again: a PUBLISH with the DUP flag.
abbrev pub again : Content → ControlPacket
again (publish p) = record (control_packet (publish p)) {
  content = publish (record (publish_received p) { duplicate = true });
}
again c = record (control_packet c) { content = content_received c }

abbrev pub identifiers : List (ℕ × Content) → List ℕ
identifiers [] = []
identifiers ((id, c) ∷ es) = id ∷ identifiers es

abbrev pub sent_again : List (ℕ × Content) → List ControlPacket
sent_again [] = []
sent_again ((id, c) ∷ es) = again c ∷ sent_again es

to_resend-again :
    (c : Content)
    → IsKept c
    → to_resend (record (control_packet c) { content = content_received c }) ≡ some (again c)
unfolding content_received
to_resend-again (publish p) k = refl
to_resend-again (pubrel a) k = refl
to_resend-again c k = absurd (omega (arith, k))

module _ (St : Storer) where
  -- A stored packet: what its WriteTo wrote.
  pub record IsStored (m : St.Store) (e : ℕ × Content) : Type 0 where
    pub bytes : Bytes
    pub is_there : St.get e.0 m ≡ some bytes
    pub is_written : write_to (control_packet e.1) ≡ ok bytes
    pub fits : ContentFits e.1
    pub is_kept : IsKept e.1

  resend_loop-stored :
      (es : List (ℕ × Content)) (s : Session St)
      → All (IsStored s.client_store) es
      → ((resend_loop St (λ id. true) (identifiers es) s).1 ≡ true)
        × ((resend_loop St (λ id. true) (identifiers es) s).0.sent ≡ s.sent ++ sent_again es)
  unfolding resend_loop
  resend_loop-stored [] s all = (refl, sym (append-nil s.sent))
  resend_loop-stored ((id, c) ∷ es) s (kept, all) =
      let read : read_packet kept.bytes
          ≡ ok (record (control_packet c) { content = content_received c }, []) =
        ap read_packet (sym (append-nil kept.bytes))
        ∙ read_packet-write_to c kept.bytes [] kept.fits kept.is_written in
      let step =
        resend_loop-resent St (λ id. true) id (identifiers es) s kept.bytes []
          (record (control_packet c) { content = content_received c }) (again c) kept.is_there read
          (to_resend-again c kept.is_kept) refl in
      let (done, sent) = resend_loop-stored es (resent St id (again c) s) all in
      (
        ap (λ (r : Session St × Bool). r.1) step ∙ done,
        ap (λ (r : Session St × Bool). r.0.sent) step
            ∙ sent
            ∙ append_assoc s.sent (again c ∷ []) (sent_again es),
      )

  -- When the server resumes the session, every stored packet is sent again, in the order of the
  -- store, a PUBLISH with the DUP flag, and ConAckReceived reports no error. The stored packets fit
  -- the wire, the session had loaded its server packets and had no connection, and the writes
  -- succeed.
  pub con_ack_received-resends :
      (cp : Connect) (ca : Connack) (s : Session St) (ps : List (ℕ × ℕ)) (es : List (ℕ × Content))
      → ca.session_present ≡ true
      → s.connected ≡ false
      → s.server_packets ≡ some ps
      → St.list s.client_store ≡ some (identifiers es)
      → All (IsStored s.client_store) es
      → let r = con_ack_received St (λ id. true) cp ca s in
        (r.1 ≡ fine) × (r.0.sent ≡ s.sent ++ sent_again es)
  unfolding resend_stored
  con_ack_received-resends cp ca s ps es present down known listed all =
      let up : Session St = record s {
        connected = true;
        session_expiry_interval = connack_expiry cp ca;
        inflight = new_send_quota (or_else (property ca.properties (λ i. i.receive_maximum)) 65535);
      } in
      let loop = resend_loop St (λ id. true) (identifiers es) up in
      let (done, sent) = resend_loop-stored es up all in
      let whole : con_ack_received St (λ id. true) cp ca s
          ≡ (loop.0, if loop.1 then fine else write_failed) =
        con_ack_received-resumed St (λ id. true) cp ca s ps present down known
        ∙ rw (resend_stored, listed) refl in
      (
        ap (λ (r : Session St × Report). r.1) whole
            ∙ ap (λ b. if b then fine else write_failed) done,
        ap (λ (r : Session St × Report). r.0.sent) whole ∙ sent,
      )
