-- ===== src/Client/Running/OnceMore.antt =====
-- paho/client.go and paho/session/state/state.go: a QoS 2 message that is sent again, across the loop
-- of incoming.
use mathlib.Core.Path.{subst}
use paho_golang.Common.{
  ℕ, ◌≡◌, ◌≢◌, refl, ap, sym, ◌∙◌, ◌<◌, inl, inr, List, [], ◌∷◌, Bool, true, false, ◌==◌, ltb,
  if◌then◌else◌, if_both, if_each, Option, none, some, Option-cases, All, arith,
}
use paho_golang.Packets.Result.{ok, err}
use paho_golang.Packets.Replies
use paho_golang.Packets.Requests
use paho_golang.Packets.Control.{
  Content, ControlPacket, publish, puback, pubrec, pubrel, pubcomp, suback, unsuback, connect,
  connack, subscribe, unsubscribe, pingreq, pingresp, disconnect, auth,
}
use paho_golang.Session.Storer.{Storer}
use paho_golang.Session.State.{Session, ack}
use paho_golang.Session.State.Received.{deliver, packet_received, publish_received}
use paho_golang.Session.State.ServerPackets.{IsNotRelease}
use paho_golang.Session.State.ExactlyOnce.{Reach, here, next, receives, acked_not_delivered_again}
use paho_golang.Client.Running.{Auther, Event, Client, auth_reply}
use paho_golang.Client.Running.Incoming.{
  Stop, unless_panicked, goes_on, failed, server_disconnected, crashed, replied, auth_came,
  publish_came, packet_came, going_on, incoming, with_session,
}

-- An event that neither releases the message `id` nor disconnects.
abbrev pub IsHarmless : ℕ → Event → Type 0
IsHarmless id (err x, w) = Unit {0}
IsHarmless id (ok recv, w) = elim (recv.content) [
  | disconnect d ↦ Path ℕ 0 1
  | pubrel a ↦ a.packet_id ≢ id
  | _ ↦ Unit {0}
]

module _ (St : Storer) where
  deliver-packet_received :
      (w : Bool) (t f : ℕ) (pb : Requests.Publish) (s : Session St)
      → ltb 0 pb.qos ≡ false
      → let recv : ControlPacket = record { content = publish pb; packet_type = t; flags = f } in
        (packet_received St w recv s).0 ≡ deliver St pb s
  unfolding packet_received publish_received
  deliver-packet_received w t f pb s e =
      let z : (pb.qos == 2) ≡ false = ground arith in rw (e, z) refl

  replied-session :
      (w : Bool) (o : Option Replies.Auth) (c : Client St)
      → (replied St w o c).0.session ≡ c.session
  replied-session w none c = refl
  replied-session true (some a) c = refl
  replied-session false (some a) c = refl

  auth_came-session :
      (h : Auther) (w : Bool) (recv : ControlPacket) (r : Replies.Auth) (c : Client St)
      → (auth_came St h w recv r c).0.session ≡ c.session
  unfolding auth_came
  auth_came-session h w recv r c =
      let P = λ (x : Client St × Stop). x.0.session ≡ c.session in
      if_both P (r.reason_code == 0) refl (
        if_both P (r.reason_code == 24)
          (elim (Option-cases h) [
            | inl e ↦ rw (e) refl
            | inr (f, e) ↦ rw (e) (replied-session w (auth_reply f r) c)
          ])
          refl)

  module _ (id : ℕ) (s : Session St) where
    -- The session of the client can be reached from `s`.
    Reached : Client St → Type 0
    Reached c = Reach St id s c.session

    received-Reached :
        (w : Bool) (recv : ControlPacket) (c : Client St)
        → IsNotRelease id recv.content
        → Reached c
        → Reached (record c { session = (packet_received St w recv c.session).0 })
    unfolding Reached
    received-Reached w recv c n r = next r (receives w recv n)

    publish_came-Reached :
        (w : Bool) (t f : ℕ) (pb : Requests.Publish) (c : Client St)
        → Reached c
        → let recv : ControlPacket = record { content = publish pb; packet_type = t; flags = f } in
          Reached (publish_came St w recv pb c).0
    unfolding publish_came Reached
    publish_came-Reached w t f pb c r =
        let recv : ControlPacket = record { content = publish pb; packet_type = t; flags = f } in
        let got = received-Reached w recv c (record {}) r in
        if_each (λ (x : Client St × Stop). Reached x.0) (ltb 0 pb.qos) (λ e. got)
          (λ e. subst (λ t. Reach St id s t) (deliver-packet_received w t f pb c.session e) got)

    packet_came-Reached :
        (h : Auther) (w : Bool) (t f : ℕ) (content : Content) (c : Client St)
        → let recv : ControlPacket = record { content = content; packet_type = t; flags = f } in
          IsHarmless id (ok recv, w) → Reached c → Reached (packet_came St h w recv c).0
    unfolding packet_came Reached
    packet_came-Reached h w t f (connect x) c n r = r
    packet_came-Reached h w t f (connack x) c n r = r
    packet_came-Reached h w t f (publish pb) c n r = publish_came-Reached w t f pb c r
    packet_came-Reached h w t f (puback a) c n r = received-Reached w _ c (record {}) r
    packet_came-Reached h w t f (pubrec a) c n r = received-Reached w _ c (record {}) r
    packet_came-Reached h w t f (pubrel a) c n r = received-Reached w _ c n r
    packet_came-Reached h w t f (pubcomp a) c n r = received-Reached w _ c (record {}) r
    packet_came-Reached h w t f (subscribe x) c n r = r
    packet_came-Reached h w t f (suback a) c n r = received-Reached w _ c (record {}) r
    packet_came-Reached h w t f (unsubscribe x) c n r = r
    packet_came-Reached h w t f (unsuback a) c n r = received-Reached w _ c (record {}) r
    packet_came-Reached h w t f pingreq c n r = r
    packet_came-Reached h w t f pingresp c n r = r
    packet_came-Reached h w t f (disconnect d) c n r = absurd (omega (arith, n))
    packet_came-Reached h w t f (auth a) c n r =
        subst (λ t. Reach St id s t) (sym (auth_came-session h w _ a c)) r

    going_on-Reached :
        (then_ : Client St → Client St × Stop) (x : Client St × Stop)
        → ((c : Client St) → Reached c → Reached (then_ c).0)
        → Reached x.0
        → Reached (going_on St then_ x).0
    going_on-Reached then_ (c, goes_on) f r = f c r
    going_on-Reached then_ (c, failed) f r = r
    going_on-Reached then_ (c, server_disconnected) f r = r
    going_on-Reached then_ (c, crashed) f r = r

    incoming-Reached :
        (h : Auther) (es : List Event) (c : Client St)
        → All (IsHarmless id) es
        → Reached c
        → Reached (incoming St h es c).0
    unfolding incoming
    incoming-Reached h [] c all r = r
    incoming-Reached h ((err x, w) ∷ es) c all r = r
    incoming-Reached h ((ok recv, w) ∷ es) c (n, all) r =
        going_on-Reached (incoming St h es) (packet_came St h w recv c)
          (λ d. incoming-Reached h es d all)
          (packet_came-Reached h w recv.packet_type recv.flags recv.content c n r)

  packet_came-publish :
      (h : Auther) (w : Bool) (t f : ℕ) (q : Requests.Publish) (c : Client St)
      → ltb 0 q.qos ≡ true
      → let recv : ControlPacket = record { content = publish q; packet_type = t; flags = f } in
        (packet_came St h w recv c).0.session ≡ (publish_received St w q c.session).0
  unfolding packet_came publish_came packet_received
  packet_came-publish h w t f q c e =
      let session_of : Client St × Stop → Session St = λ x. x.0.session in
      ap
        (λ b. session_of (
          if b
          then (
            with_session St c (publish_received St w q c.session).0,
            unless_panicked (publish_received St w q c.session).1,
          )
          else (with_session St c (deliver St q c.session), goes_on)))
        e

  -- A QoS 2 message that the application has acknowledged is not put to it again by the loop of
  -- incoming: after any packets from the server but its PUBREL and a DISCONNECT, the message sent
  -- once more with the DUP flag is not delivered, and is acknowledged again.
  pub resent_not_delivered_again :
      (h : Auther) (es : List Event) (w v : Bool) (pb q : Requests.Publish) (t f : ℕ)
      (c : Client St) (ps : List (ℕ × ℕ))
      → pb.qos ≡ 2
      → c.session.server_packets ≡ some ps
      → All (IsHarmless pb.packet_id) es
      → q.qos ≡ 2
      → q.duplicate ≡ true
      → q.packet_id ≡ pb.packet_id
      → 0 < pb.packet_id
      → let recv : ControlPacket = record { content = publish q; packet_type = t; flags = f } in
        let d = (incoming St h es (record c { session = (ack St w pb c.session).0 })).0 in
        ((packet_came St h v recv d).0.session ≡ (ack St v q d.session).0)
        × ((packet_came St h v recv d).0.session.delivered ≡ d.session.delivered)
  unfolding Reached
  resent_not_delivered_again h es w v pb q t f c ps two known all two' dup same pos =
      let acked : Client St = record c { session = (ack St w pb c.session).0 } in
      let d = (incoming St h es acked).0 in
      let r = incoming-Reached pb.packet_id acked.session h es acked all here in
      let (again, kept) =
        acked_not_delivered_again St w v pb q c.session d.session ps two known r two' dup same
          pos in
      let taken = packet_came-publish h v t f q d (rw (two') refl) in
      (taken ∙ ap (λ x. x.0) again, ap (λ (x : Session St). x.delivered) taken ∙ kept)
