-- ===== src/Client/Conversions/ConnectRoundTrip.antt =====
-- paho/cp_connect.go: what comes back from a Connect that is converted to a packet and back.
use paho_golang.Common.{
  Option-cases, ◌≡◌, refl, ap, ◌∙◌, true, false, if◌then◌else◌, Option, none, some, Bool-cases, inl,
  inr,
}
use paho_golang.Packets.Connecting
use paho_golang.Packets.Properties.{Properties}
use paho_golang.Client.Conversions.Messages.{map_properties}
use paho_golang.Client.Conversions.RoundTrip.{user_properties_from_packet_user-to_packet_properties}
use paho_golang.Client.Conversions.Connections.{
  Connect, ConnectProperties, WillMessage, WillProperties, connect_properties_from,
  packet_connect_properties, packet_will_properties, will_properties_from, connect_packet,
  connect_from_packet_connect, set_will, without_will,
}

-- What the conversion back makes of the properties: nothing, since it panics, when both requests
-- for information have been made; no request for response information in any case.
abbrev pub properties_back : ConnectProperties → Option ConnectProperties
properties_back p =
    if p.request_response_info
    then if p.request_problem_info then none else some (record p { request_response_info = false })
    else some p

connect_properties_from-packet_connect_properties :
    (p : ConnectProperties)
    → connect_properties_from (packet_connect_properties p) ≡ properties_back p
unfolding connect_properties_from
connect_properties_from-packet_connect_properties p = elim (Bool-cases p.request_response_info) [
  | inl e ↦ elim (Bool-cases p.request_problem_info) [
    | inl f ↦ rw (e, f) refl
    | inr f ↦
        rw (e, f)
          (ap
            (λ u.
              some (record p {
                user = u;
                request_response_info = false;
                request_problem_info = false;
              }))
            (user_properties_from_packet_user-to_packet_properties p.user))
  ]
  | inr e ↦ elim (Bool-cases p.request_problem_info) [
    | inl f ↦
        rw (e, f)
          (ap
            (λ u.
              some
                (record p { user = u; request_response_info = false; request_problem_info = true }))
            (user_properties_from_packet_user-to_packet_properties p.user))
    | inr f ↦
        rw (e, f)
          (ap
            (λ u.
              some (record p {
                user = u;
                request_response_info = false;
                request_problem_info = false;
              }))
            (user_properties_from_packet_user-to_packet_properties p.user))
  ]
]

will_properties_from-packet_will_properties :
    (p : WillProperties) → will_properties_from (packet_will_properties p) ≡ p
will_properties_from-packet_will_properties p =
    ap (λ u. record p { user = u }) (user_properties_from_packet_user-to_packet_properties p.user)

-- The will is a message with properties, or there is none.
pub data WillIsWhole (c : Connect) : Type 0 where
  no_will : c.will_message ≡ none → c.will_properties ≡ none → WillIsWhole c
  whole_will :
      (m : WillMessage) (w : WillProperties)
      → c.will_message ≡ some m
      → c.will_properties ≡ some w
      → WillIsWhole c

set_will-without_will :
    (c : Connect) (q : ConnectProperties)
    → WillIsWhole c
    → set_will (connect_packet c) (without_will (connect_packet c) q)
      ≡ some (record c { properties = some q })
unfolding set_will connect_packet
set_will-without_will c q (no_will e f) = rw (connect_packet, e, f) refl
set_will-without_will c q (whole_will m w e f) =
    rw (connect_packet, e, f)
      (ap
        (λ w'.
          some (record c { properties = some q; will_message = some m; will_properties = some w' }))
        (will_properties_from-packet_will_properties w))

set_will_each :
    (c : Connect)
    → WillIsWhole c
    → (o : Option ConnectProperties)
    → (elim o [
      | none ↦ none
      | some q ↦ set_will (connect_packet c) (without_will (connect_packet c) q)
    ])
      ≡ map_properties (λ q. record c { properties = some q }) o
set_will_each c w none = refl
set_will_each c w (some q) = set_will-without_will c q w

connect_packet-properties :
    (c : Connect)
    → (connect_packet c).properties ≡ map_properties packet_connect_properties c.properties
unfolding connect_packet
connect_packet-properties c = elim (Option-cases c.will_message) [
  | inl e ↦ rw (connect_packet, e) refl
  | inr (m, e) ↦ rw (connect_packet, e) refl
]

connect_from_packet_connect-parts :
    (d : Connecting.Connect) (i : Properties) (o : Option ConnectProperties)
    → d.properties ≡ some i
    → connect_properties_from i ≡ o
    → connect_from_packet_connect d
      ≡ elim o [ none ↦ none | some q ↦ set_will d (without_will d q) ]
unfolding connect_from_packet_connect
connect_from_packet_connect-parts d i o e f = rw (connect_from_packet_connect, e, f) refl

-- A Connect with properties, and with a will message and will properties or without both, that is
-- converted to a packet and back: it comes back as it was when no response information is requested.
-- When it is, and problem information as well, the conversion panics; otherwise the request is lost.
pub connect_from_packet_connect-connect_packet :
    (c : Connect) (p : ConnectProperties)
    → c.properties ≡ some p
    → WillIsWhole c
    → connect_from_packet_connect (connect_packet c)
      ≡ map_properties (λ q. record c { properties = some q }) (properties_back p)
unfolding connect_from_packet_connect
connect_from_packet_connect-connect_packet c p e w =
    connect_from_packet_connect-parts (connect_packet c) (packet_connect_properties p)
      (properties_back p)
      (connect_packet-properties c ∙ ap (map_properties packet_connect_properties) e)
      (connect_properties_from-packet_connect_properties p)
    ∙ set_will_each c w (properties_back p)
