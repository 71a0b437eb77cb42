-- ===== src/Client/Negotiated.antt =====
-- paho/client.go: NewClient's CommsProperties, and what Connect makes of them.
use paho_golang.Common.{ℕ, [], ◌∷◌, Bool, true, none, some}
use paho_golang.Packets.Result.{Bytes}
use paho_golang.Client.Conversions.Connections.{Connect}
use paho_golang.Client.Conversions.Answers.{Connack}
use paho_golang.Session.State.{or_else}

pub record CommsProperties : Type 0 where
  pub maximum_packet_size : ℕ
  pub receive_maximum : ℕ
  pub topic_alias_maximum : ℕ
  pub maximum_qos : ℕ
  pub retain_available : Bool
  pub wildcard_sub_available : Bool
  pub sub_id_available : Bool
  pub shared_sub_available : Bool

-- The server's properties in NewClient.
abbrev pub default_server : CommsProperties
default_server = record {
  maximum_packet_size = 0;
  receive_maximum = 65535;
  topic_alias_maximum = 0;
  maximum_qos = 2;
  retain_available = true;
  wildcard_sub_available = true;
  sub_id_available = true;
  shared_sub_available = true;
}

-- The client's own properties after the CONNECT; NewClient leaves the four flags false, and nothing
-- reads them.
unfoldable pub client_told : Connect → CommsProperties → CommsProperties
client_told cp c = elim (cp.properties) [
  | none ↦ c
  | some p ↦ record c {
    maximum_packet_size = or_else p.maximum_packet_size c.maximum_packet_size;
    receive_maximum = or_else p.receive_maximum c.receive_maximum;
    topic_alias_maximum = or_else p.topic_alias_maximum c.topic_alias_maximum;
  }
]

-- The server's properties after the CONNACK.
unfoldable pub server_told : Connack → CommsProperties → CommsProperties
server_told ca c = elim (ca.properties) [
  | none ↦ c
  | some p ↦ record c {
    receive_maximum = or_else p.receive_maximum c.receive_maximum;
    maximum_qos = or_else p.maximum_qos c.maximum_qos;
    maximum_packet_size = or_else p.maximum_packet_size c.maximum_packet_size;
    topic_alias_maximum = or_else p.topic_alias_maximum c.topic_alias_maximum;
    retain_available = p.retain_available;
    wildcard_sub_available = p.wildcard_sub_available;
    sub_id_available = p.sub_id_available;
    shared_sub_available = p.shared_sub_available;
  }
]

-- The keepalive that the ping handler runs with.
unfoldable pub keep_alive_told : Connack → ℕ → ℕ
keep_alive_told ca k = elim (ca.properties) [ none ↦ k | some p ↦ or_else p.server_keep_alive k ]

abbrev pub unless_assigned : Bytes → Bytes → Bytes
unless_assigned [] id = id
unless_assigned (b ∷ bs) id = b ∷ bs

unfoldable pub client_id_told : Connack → Bytes → Bytes
client_id_told ca id = elim (ca.properties) [
  | none ↦ id
  | some p ↦ unless_assigned p.assigned_client_id id
]
