-- ===== src/Client/Handlers/Dispatch.antt =====
-- paho/client.go: routePublishPackets, for every message that it takes from the channel.
use paho_golang.Common.{
  ◌+◌, ◌≡◌, refl, ap, List, [], ◌∷◌, ◌++◌, Bool, true, false, not, ◌==◌, if◌then◌else◌, Option,
  some, length, arith, length-append, All,
}
use paho_golang.Packets.Properties.{Properties}
use paho_golang.Packets.Requests
use paho_golang.Client.AcksTracker.{Tracker, add}
use paho_golang.Client.Conversions.Messages.{Publish, publish_from_packet_publish}
use paho_golang.Client.Handlers.{
  Handler, Handlers, call_handlers, route_publish, route_publish_packets,
}

-- The messages whose conversion does not panic: those with properties, as all are that are read.
abbrev pub HasProperties : Requests.Publish → Type 0
HasProperties pb = (i : Properties) × (pb.properties ≡ some i)

-- The messages that the tracker is given, one after the other.
unfoldable pub tracked : List Requests.Publish → Tracker → Tracker
tracked [] order = order
tracked (pb ∷ pbs) order = tracked pbs (if not (pb.qos == 0) then add pb order else order)

module _ {Error : Type 0} where
  -- The loop over the handlers, in two parts: the later ones are given what the earlier ones
  -- returned.
  call_handlers-append :
      (gs hs : List (Handler Error)) (pkt : Publish) (handled : Bool) (errs : List (Option Error))
      → call_handlers (gs ++ hs) pkt handled errs
        ≡ (let r = call_handlers gs pkt handled errs in call_handlers hs pkt r.0 r.1)
  unfolding call_handlers
  call_handlers-append [] hs pkt handled errs = refl
  call_handlers-append (g ∷ gs) hs pkt handled errs = call_handlers-append gs hs pkt _ _

  call_handlers-length :
      (hs : List (Handler Error)) (pkt : Publish) (handled : Bool) (errs : List (Option Error))
      → length (call_handlers hs pkt handled errs).1 ≡ length errs + length hs
  unfolding call_handlers
  call_handlers-length [] pkt handled errs = omega arith
  call_handlers-length (h ∷ hs) pkt handled errs =
      let (ha, err) = h pkt handled errs in
      omega (
        arith,
        call_handlers-length hs pkt (if ha then true else handled) (errs ++ err ∷ []),
        length-append errs (err ∷ []),
      )

  -- The handlers are called in order on every message: a handler behind the others is told whether
  -- one of them has handled the message, and is given one error, nil included, for each of them.
  pub call_handlers-last :
      (gs : List (Handler Error)) (h : Handler Error) (pkt : Publish)
      → let r = call_handlers gs pkt false [] in
        let (ha, err) = h pkt r.0 r.1 in
        (call_handlers (gs ++ h ∷ []) pkt false [] ≡ (if ha then true else r.0, r.1 ++ err ∷ []))
        × (length r.1 ≡ length gs)
  unfolding call_handlers
  call_handlers-last gs h pkt = (
    call_handlers-append gs (h ∷ []) pkt false [],
    omega (arith, call_handlers-length gs pkt false []),
  )

  -- Without manual acknowledgment the loop acknowledges every message, once and in the order of
  -- arrival, and gives none to the tracker. With it the loop acknowledges none, and the tracker gets
  -- the messages of QoS 1 and 2 in the order of arrival. The messages have properties.
  pub route_publish_packets-acks :
      (hs : Handlers Error) (pbs : List Requests.Publish) (order : Tracker)
      → All HasProperties pbs
      → (route_publish_packets false hs pbs order ≡ some (pbs, order))
        × (route_publish_packets true hs pbs order ≡ some ([], tracked pbs order))
  unfolding route_publish_packets route_publish publish_from_packet_publish tracked
  route_publish_packets-acks hs [] order all = (refl, refl)
  route_publish_packets-acks hs (pb ∷ pbs) order ((i, e), all) =
      let later = if not (pb.qos == 0) then add pb order else order in
      (
        rw (route_publish_packets, e, (route_publish_packets-acks hs pbs order all).0)
            (ap (λ o. some (record pb { properties = o } ∷ pbs, order)) e),
        rw (route_publish_packets, e, (route_publish_packets-acks hs pbs later all).1)
            (ap
              (λ o. some (
                [],
                tracked pbs
                    (if not (pb.qos == 0) then add (record pb { properties = o }) order else order),
              ))
              e),
      )
