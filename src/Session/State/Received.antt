-- ===== src/Session/State/Received.antt =====
-- paho/session/state/state.go: PacketReceived.
use paho_golang.Common.{[], ◌∷◌, ◌++◌, Bool, ◌&&◌, ◌==◌, if◌then◌else◌, none, some, ltb, leb}
use paho_golang.Common.Maps.{lookup, without}
use paho_golang.Packets.Types
use paho_golang.Packets.Acks.{Ack}
use paho_golang.Packets.Requests.{Publish}
use paho_golang.Packets.Control.{
  ControlPacket, publish, puback, pubrec, pubrel, pubcomp, suback, unsuback,
}
use paho_golang.Session.Storer.{Storer}
use paho_golang.Session.State.{
  Session, end_client_generated, or_same, pubrel_for, pubcomp_for, write, write_or_panic, after_put,
  forget_server, server_packet, Report, fine, bad_call, report, ack,
}

module _ (St : Storer) where
  -- `pubChan <- rp`
  abbrev pub deliver : Publish → Session St → Session St
  deliver pb s = record s { delivered = s.delivered ++ pb ∷ [] }

  -- PUBLISH: a second QoS 2 message with the DUP flag is acknowledged again, and not delivered.
  unfoldable pub publish_received : Bool → Publish → Session St → Session St × Report
  unfolding ack
  publish_received w pb s =
      if ltb 0 pb.qos && pb.packet_id == 0
      then (s, bad_call)
      else if pb.qos == 2
      then (elim (server_packet pb.packet_id s.server_packets) [
        | none ↦ (deliver pb s, fine)
        | some last_sent ↦
            if last_sent == Types.pubrec && pb.duplicate
            then ack St w pb s
            else (deliver pb s, fine)
      ])
      else (deliver pb s, fine)

  -- PUBREC
  unfoldable pub pubrec_received : Bool → ControlPacket → Ack → Session St → Session St × Report
  unfolding end_client_generated lookup
  pubrec_received w recv rp s = elim (lookup rp.packet_id s.ids.client_packets) [
    | none ↦ write_or_panic St w (pubrel_for rp.packet_id 146) s
    | some cg ↦
        if leb 128 rp.reason_code
        then (end_client_generated St rp.packet_id recv s, fine)
        else write_or_panic St w (pubrel_for rp.packet_id 0) (record s {
          client_store =
              after_put s.client_store
                (St.put rp.packet_id Types.pubrel (pubrel_for rp.packet_id 0) s.client_store);
        })
  ]

  -- PUBREL
  unfoldable pub pubrel_received : Bool → Ack → Session St → Session St × Report
  unfolding without
  pubrel_received w pr s =
      if leb 128 pr.reason_code
      then (s, fine)
      else if s.connected
      then (
        record (write St w (pubcomp_for pr.packet_id) s) {
          server_packets = forget_server pr.packet_id s.server_packets;
          server_store = or_same s.server_store (St.delete pr.packet_id s.server_store);
        },
        report w,
      )
      else (s, fine)

  -- PacketReceived
  unfoldable pub packet_received : Bool → ControlPacket → Session St → Session St × Report
  unfolding publish_received pubrec_received pubrel_received end_client_generated
  packet_received w recv s = elim (recv.content) [
    | suback a ↦ (end_client_generated St a.packet_id recv s, fine)
    | unsuback a ↦ (end_client_generated St a.packet_id recv s, fine)
    | puback a ↦ (end_client_generated St a.packet_id recv s, fine)
    | pubrec a ↦ pubrec_received w recv a s
    | pubcomp a ↦ (end_client_generated St a.packet_id recv s, fine)
    | publish pb ↦ publish_received w pb s
    | pubrel a ↦ pubrel_received w a s
    | _ ↦ (s, fine)
  ]
