-- ===== src/Session/State/Resending.antt =====
-- paho/session/state/state.go: the loop of ConAckReceived over the stored packets, by its branches.
use paho_golang.Common.{
  ℕ, ◌≡◌, refl, ap, ◌∙◌, inl, inr, List, [], ◌∷◌, Bool, true, false, none, some, Bool-cases,
  Option-cases,
}
use paho_golang.Packets.Result.{Bytes, ok, err, Error, Result-cases}
use paho_golang.Packets.Control.{ControlPacket, read_packet}
use paho_golang.Session.SendQuota.{retransmit}
use paho_golang.Session.Storer.{Storer}
use paho_golang.Session.State.{Session}
use paho_golang.Packets.Connecting.{Connect}
use paho_golang.Packets.Replies.{Connack}
use paho_golang.Session.State.Connected.{
  load_unless, begin_connection, load_if_new, resend_stored, con_ack_received, connack_expiry,
  quarantined, resent, resend_loop, to_resend, connected_with,
}

module _ (St : Storer) where
  pub resend_loop-missing :
      (w : ℕ → Bool) (id : ℕ) (ids : List ℕ) (s : Session St)
      → St.get id s.client_store ≡ none
      → resend_loop St w (id ∷ ids) s ≡ resend_loop St w ids s
  unfolding resend_loop
  resend_loop-missing w id ids s e = rw (resend_loop, e) refl

  pub resend_loop-unreadable :
      (w : ℕ → Bool) (id : ℕ) (ids : List ℕ) (s : Session St) (bytes : Bytes) (x : Error)
      → St.get id s.client_store ≡ some bytes
      → read_packet bytes ≡ err x
      → resend_loop St w (id ∷ ids) s ≡ resend_loop St w ids (quarantined St id s)
  unfolding resend_loop
  resend_loop-unreadable w id ids s bytes x e f = rw (resend_loop, e, f) refl

  pub resend_loop-unexpected :
      (w : ℕ → Bool) (id : ℕ) (ids : List ℕ) (s : Session St) (bytes rest : Bytes)
      (p : ControlPacket)
      → St.get id s.client_store ≡ some bytes
      → read_packet bytes ≡ ok (p, rest)
      → to_resend p ≡ none
      → resend_loop St w (id ∷ ids) s ≡ resend_loop St w ids (quarantined St id s)
  unfolding resend_loop
  resend_loop-unexpected w id ids s bytes rest p e f g = rw (resend_loop, e, f, g) refl

  pub resend_loop-resent :
      (w : ℕ → Bool) (id : ℕ) (ids : List ℕ) (s : Session St) (bytes rest : Bytes)
      (p c : ControlPacket)
      → St.get id s.client_store ≡ some bytes
      → read_packet bytes ≡ ok (p, rest)
      → to_resend p ≡ some c
      → w id ≡ true
      → resend_loop St w (id ∷ ids) s ≡ resend_loop St w ids (resent St id c s)
  unfolding resend_loop
  resend_loop-resent w id ids s bytes rest p c e f g h = rw (resend_loop, e, f, g, h) refl

  pub resend_loop-failed :
      (w : ℕ → Bool) (id : ℕ) (ids : List ℕ) (s : Session St) (bytes rest : Bytes)
      (p c : ControlPacket)
      → St.get id s.client_store ≡ some bytes
      → read_packet bytes ≡ ok (p, rest)
      → to_resend p ≡ some c
      → w id ≡ false
      → resend_loop St w (id ∷ ids) s ≡ (record s { inflight = retransmit s.inflight }, false)
  unfolding resend_loop
  resend_loop-failed w id ids s bytes rest p c e f g h = rw (resend_loop, e, f, g, h) refl

  -- What each branch keeps, the loop keeps.
  module _ (P : Session St → Type 0)
      (keep_quarantined : (id : ℕ) (s : Session St) → P s → P (quarantined St id s))
      (keep_resent : (id : ℕ) (c : ControlPacket) (s : Session St) → P s → P (resent St id c s))
      (keep_failed : (s : Session St)
        → P s
        → P (record s { inflight = retransmit s.inflight })) where
    pub resend_loop_keeps :
        (w : ℕ → Bool) (ids : List ℕ) (s : Session St) → P s → P (resend_loop St w ids s).0
    unfolding resend_loop
    resend_loop_keeps w [] s p = p
    resend_loop_keeps w (id ∷ ids) s p = elim (Option-cases (St.get id s.client_store)) [
      | inl e ↦ rw (resend_loop-missing w id ids s e) (resend_loop_keeps w ids s p)
      | inr (bytes, e) ↦ elim (Result-cases (read_packet bytes)) [
        | inr (x, f) ↦
            rw (resend_loop-unreadable w id ids s bytes x e f)
              (resend_loop_keeps w ids (quarantined St id s) (keep_quarantined id s p))
        | inl ((q, rest), f) ↦ elim (Option-cases (to_resend q)) [
          | inl g ↦
              rw (resend_loop-unexpected w id ids s bytes rest q e f g)
                (resend_loop_keeps w ids (quarantined St id s) (keep_quarantined id s p))
          | inr (c, g) ↦ elim (Bool-cases (w id)) [
            | inl h ↦
                rw (resend_loop-resent w id ids s bytes rest q c e f g h)
                  (resend_loop_keeps w ids (resent St id c s) (keep_resent id c s p))
            | inr h ↦ rw (resend_loop-failed w id ids s bytes rest q c e f g h) (keep_failed s p)
          ]
        ]
      ]
    ]

  begin_connection-resumed :
      (cp : Connect) (ca : Connack) (s : Session St)
      → ca.session_present ≡ true
      → s.connected ≡ false
      → begin_connection St cp ca s
        ≡ record s { connected = true; session_expiry_interval = connack_expiry cp ca }
  unfolding begin_connection
  begin_connection-resumed cp ca s present down = rw (begin_connection, down, present) refl

  load_if_new-loaded :
      (s : Session St) (ps : List (ℕ × ℕ))
      → s.server_packets ≡ some ps
      → load_if_new St s ≡ (s, true)
  unfolding load_if_new
  load_if_new-loaded s ps e = ap (λ o. load_unless St o s) e

  -- A connection that resumes the session of this State.
  pub con_ack_received-resumed :
      (w : ℕ → Bool) (cp : Connect) (ca : Connack) (s : Session St) (ps : List (ℕ × ℕ))
      → ca.session_present ≡ true
      → s.connected ≡ false
      → s.server_packets ≡ some ps
      → con_ack_received St w cp ca s
        ≡ resend_stored St w ca
            (record s { connected = true; session_expiry_interval = connack_expiry cp ca })
  unfolding con_ack_received
  con_ack_received-resumed w cp ca s ps present down e =
      let up : Session St = record s {
        connected = true;
        session_expiry_interval = connack_expiry cp ca;
      } in
      ap (λ x. connected_with St w ca (load_if_new St x))
        (begin_connection-resumed cp ca s present down)
      ∙ ap (connected_with St w ca) (load_if_new-loaded up ps e)
