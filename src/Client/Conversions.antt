-- ===== src/Client/Conversions.antt =====
-- paho/cp_utils.go: user properties, and their conversion from and to those of package packets.
-- The conversions of the packets, in the files below, give none where the code dereferences nil.
pub mod Messages
pub mod Connections
pub mod Answers
pub mod Subscriptions
pub mod Users
pub mod RoundTrip
pub mod ConnectRoundTrip
use paho_golang.Common.{
  ℕ, List, [], ◌∷◌, ◌++◌, map, Option, none, some, Bool, true, false, if◌then◌else◌,
}
use paho_golang.Packets.Result.{Bytes}
use paho_golang.Client.Router.{same}
use paho_golang.Packets.Properties.{User}

pub record UserProperty : Type 0 where
  pub key : Bytes
  pub value : Bytes

-- Add
abbrev pub add : Bytes → Bytes → List UserProperty → List UserProperty
add key value u = u ++ record { key = key; value = value } ∷ []

-- Get, which returns "" when no property has the key.
unfoldable pub get : Bytes → List UserProperty → Bytes
get key [] = []
get key (v ∷ u) = let rest = get key u in if same v.key key then v.value else rest

-- GetAll
unfoldable pub get_all : Bytes → List UserProperty → List Bytes
get_all key [] = []
get_all key (v ∷ u) = let rest = get_all key u in if same v.key key then v.value ∷ rest else rest

abbrev pub to_packet_user : UserProperty → User
to_packet_user v = record { key = v.key; value = v.value }

abbrev pub from_packet_user : User → UserProperty
from_packet_user v = record { key = v.key; value = v.value }

-- ToPacketProperties
unfoldable pub to_packet_properties : List UserProperty → List User
to_packet_properties u = map to_packet_user u

unfoldable pub user_properties_from_packet_user : List User → List UserProperty
user_properties_from_packet_user up = map from_packet_user up

-- BoolToByte
abbrev pub bool_to_byte : Bool → ℕ
bool_to_byte b = if b then 1 else 0
