-- ===== src/Client/Running/Incoming.antt =====
-- paho/client.go: incoming, the loop over the packets from the server.
use paho_golang.Common.{
  List, [], ◌∷◌, ◌++◌, Bool, true, false, ◌==◌, if◌then◌else◌, ltb, Option, none, some,
}
use paho_golang.Packets.Result.{ok, err}
use paho_golang.Packets.Replies
use paho_golang.Packets.Requests
use paho_golang.Packets.Control.{
  ControlPacket, publish, puback, pubrec, pubrel, pubcomp, suback, unsuback, connack, disconnect,
  auth,
}
use paho_golang.Session.Storer.{Storer}
use paho_golang.Session.State.{Session, Report, write_panicked, connection_lost}
use paho_golang.Session.State.Received.{deliver, packet_received}
use paho_golang.Client.Running.{Auther, Event, auth_reply, Client}

-- Why the loop returned: `failed` calls error, `server_disconnected` calls OnServerDisconnect or
-- error, and `crashed` is a panic.
pub data Stop : Type 0 where
  goes_on failed server_disconnected crashed : Stop

-- A panic in the session ends incoming, an error does not.
abbrev pub unless_panicked : Report → Stop
unless_panicked write_panicked = crashed
unless_panicked _ = goes_on

-- The send on authResponse, which has room for one packet and drops what does not fit.
abbrev pub offered : ControlPacket → Option (List ControlPacket) → Option (List ControlPacket)
offered recv none = none
offered recv (some []) = some (recv ∷ [])
offered recv (some (p ∷ ps)) = some (p ∷ ps)

module _ (St : Storer) where
  abbrev pub with_session : Client St → Session St → Client St
  with_session c s = record c { session = s }

  abbrev pub replied : Bool → Option Replies.Auth → Client St → Client St × Stop
  replied w none c = (c, crashed)
  replied true (some a) c = (record c { auths_sent = c.auths_sent ++ a ∷ [] }, goes_on)
  replied false (some a) c = (c, failed)

  -- AUTH: success is 0, and 24 asks to continue.
  unfoldable pub auth_came :
      Auther → Bool → ControlPacket → Replies.Auth → Client St → Client St × Stop
  auth_came h w recv r c =
      if r.reason_code == 0
      then (record c { auth_response = offered recv c.auth_response }, goes_on)
      else if r.reason_code == 24
      then elim h [ none ↦ (c, goes_on) | some f ↦ replied w (auth_reply f r) c ]
      else (c, goes_on)

  -- The packets that the session takes; its error is not looked at.
  abbrev pub session_came : Bool → ControlPacket → Client St → Client St × Stop
  session_came w recv c =
      let r = packet_received St w recv c.session in (with_session c r.0, unless_panicked r.1)

  -- PUBLISH
  unfoldable pub publish_came :
      Bool → ControlPacket → Requests.Publish → Client St → Client St × Stop
  publish_came w recv pb c =
      if ltb 0 pb.qos
      then session_came w recv c
      else (with_session c (deliver St pb c.session), goes_on)

  -- The switch of incoming. ReadPacket gives a packet the content of its type.
  unfoldable pub packet_came : Auther → Bool → ControlPacket → Client St → Client St × Stop
  unfolding auth_came publish_came
  packet_came h w recv c = elim (recv.content) [
    | connack r ↦ (c, failed)
    | auth r ↦ auth_came h w recv r c
    | publish pb ↦ publish_came w recv pb c
    | puback a ↦ session_came w recv c
    | pubcomp a ↦ session_came w recv c
    | suback a ↦ session_came w recv c
    | unsuback a ↦ session_came w recv c
    | pubrec a ↦ session_came w recv c
    | pubrel a ↦ session_came w recv c
    | disconnect d ↦ (
      record c {
        auth_response = offered recv c.auth_response;
        session = connection_lost St (some d) c.session;
      },
      server_disconnected,
    )
    | _ ↦ (c, goes_on)
  ]

  abbrev pub going_on : (Client St → Client St × Stop) → Client St × Stop → Client St × Stop
  going_on next (c, goes_on) = next c
  going_on next (c, stop) = (c, stop)

  -- incoming; at the end of the events it waits for the next one.
  unfoldable pub incoming : Auther → List Event → Client St → Client St × Stop
  unfolding packet_came
  incoming h [] c = (c, goes_on)
  incoming h ((err x, w) ∷ es) c = (c, failed)
  incoming h ((ok recv, w) ∷ es) c = going_on (incoming h es) (packet_came h w recv c)
