-- ===== src/Packets/Control/Fresh.antt =====
-- packets/packets.go: NewControlPacket.
use paho_golang.Common.{ℕ, [], false, Option, none, some, ◌==◌, if◌then◌else◌}
use paho_golang.Packets.Types
use paho_golang.Packets.Properties.{empty}
use paho_golang.Packets.Acks.{Ack}
use paho_golang.Packets.Requests.{Publish}
use paho_golang.Packets.Connecting.{fresh_connect}
use paho_golang.Packets.Control.{
  ControlPacket, connect, connack, publish, puback, pubrec, pubrel, pubcomp, subscribe, suback,
  unsubscribe, unsuback, pingreq, pingresp, disconnect, auth,
}

abbrev pub fresh_ack : Ack
fresh_ack = record { properties = some empty; packet_id = 0; reason_code = 0 }

abbrev pub fresh_publish : Publish
fresh_publish = record {
  payload = [];
  topic = [];
  properties = some empty;
  packet_id = 0;
  qos = 0;
  duplicate = false;
  retain = false;
}

-- NewControlPacket
unfoldable pub new_control_packet : ℕ → Option ControlPacket
new_control_packet t =
    if t == Types.connect
    then some (record { content = connect fresh_connect; packet_type = t; flags = 0 })
    else if t == Types.connack
    then some (record {
      content =
          connack (record { properties = some empty; reason_code = 0; session_present = false });
      packet_type = t;
      flags = 0;
    })
    else if t == Types.publish
    then some (record { content = publish fresh_publish; packet_type = t; flags = 0 })
    else if t == Types.puback
    then some (record { content = puback fresh_ack; packet_type = t; flags = 0 })
    else if t == Types.pubrec
    then some (record { content = pubrec fresh_ack; packet_type = t; flags = 0 })
    else if t == Types.pubrel
    then some (record { content = pubrel fresh_ack; packet_type = t; flags = 2 })
    else if t == Types.pubcomp
    then some (record { content = pubcomp fresh_ack; packet_type = t; flags = 0 })
    else if t == Types.subscribe
    then some (record {
      content = subscribe (record { properties = some empty; subscriptions = []; packet_id = 0 });
      packet_type = t;
      flags = 2;
    })
    else if t == Types.suback
    then some (record {
      content = suback (record { properties = some empty; reasons = []; packet_id = 0 });
      packet_type = t;
      flags = 0;
    })
    else if t == Types.unsubscribe
    then some (record {
      content = unsubscribe (record { topics = []; properties = some empty; packet_id = 0 });
      packet_type = t;
      flags = 2;
    })
    else if t == Types.unsuback
    then some (record {
      content = unsuback (record { properties = some empty; reasons = []; packet_id = 0 });
      packet_type = t;
      flags = 0;
    })
    else if t == Types.pingreq
    then some (record { content = pingreq; packet_type = t; flags = 0 })
    else if t == Types.pingresp
    then some (record { content = pingresp; packet_type = t; flags = 0 })
    else if t == Types.disconnect
    then some (record {
      content = disconnect (record { properties = some empty; reason_code = 0 });
      packet_type = t;
      flags = 0;
    })
    else if t == Types.auth
    then some (record {
      content = auth (record { properties = some empty; reason_code = 0 });
      packet_type = t;
      flags = 1;
    })
    else none
