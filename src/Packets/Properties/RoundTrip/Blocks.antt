-- ===== src/Packets/Properties/RoundTrip/Blocks.antt =====
-- packets/properties.go: the properties that Pack writes, and its parts with a loop or an error.
use paho_golang.Common.{
  ℕ, ◌≡◌, refl, List, [], ◌∷◌, ◌++◌, Option, none, some, true, false, ◌^◌, Bool, not, Bool-cases,
  append-nil, ◌==◌, ◌||◌, All, append_assoc, inl, inr, arith,
}
use mathlib.Core.Path.{subst}
use paho_golang.Common.Int.{ℤ}
use paho_golang.Packets.Result.{Bytes, ok}
use paho_golang.Packets.Types.{connect, connack, publish, subscribe, disconnect, auth}
use paho_golang.Packets.Wire.{write_string}
use paho_golang.Packets.Wire.RoundTrip.{
  vbi, decode_vbi-vbi, encode_vbi_domain, read_string-write_string,
}
use paho_golang.Packets.Properties.{
  User, Properties, validate_id, prop_subscription_identifier, prop_user,
}
use paho_golang.Packets.Properties.Pack.{pack_user, pack_vbi, pack_sub_block}
use paho_golang.Packets.Properties.Unpack.{fill, read_user, read_prop}
use paho_golang.Packets.Properties.Unpack.Steps.{Sets, Sets-append, Sets-prop}
use paho_golang.Packets.Properties.RoundTrip.Kinds.{Below, IsShort}
use paho_golang.Packets.Properties.RoundTrip.Fields.{put_subscription_identifier}

-- What fits the wire: the words and the length prefixes.
pub record Fits (i : Properties) : Type 0 where
  pub message_expiry : Below (2 ^ 32) i.message_expiry
  pub content_type : IsShort i.content_type
  pub response_topic : IsShort i.response_topic
  pub correlation_data : IsShort i.correlation_data
  pub session_expiry_interval : Below (2 ^ 32) i.session_expiry_interval
  pub assigned_client_id : IsShort i.assigned_client_id
  pub server_keep_alive : Below (2 ^ 16) i.server_keep_alive
  pub auth_method : IsShort i.auth_method
  pub auth_data : IsShort i.auth_data
  pub will_delay_interval : Below (2 ^ 32) i.will_delay_interval
  pub response_info : IsShort i.response_info
  pub server_reference : IsShort i.server_reference
  pub reason_string : IsShort i.reason_string
  pub receive_maximum : Below (2 ^ 16) i.receive_maximum
  pub topic_alias_maximum : Below (2 ^ 16) i.topic_alias_maximum
  pub topic_alias : Below (2 ^ 16) i.topic_alias
  pub user : All (λ u. IsShort u.key × IsShort u.value) i.user
  pub maximum_packet_size : Below (2 ^ 32) i.maximum_packet_size

-- A field that a packet type does not carry is as good as absent.
abbrev pub some_when {ℓ} : {A : Type ℓ} → Bool → Option A → Option A
some_when true o = o
some_when false o = none

abbrev pub bytes_when : Bool → Bytes → Bytes
bytes_when true s = s
bytes_when false s = []

-- The properties of `i` that Pack writes into a packet of type `p`.
unfoldable pub carried : ℕ → Properties → Properties
carried p i = record {
  payload_format = some_when (p == publish) i.payload_format;
  message_expiry = some_when (p == publish) i.message_expiry;
  content_type = bytes_when (p == publish) i.content_type;
  response_topic = bytes_when (p == publish) i.response_topic;
  correlation_data = bytes_when (p == publish) i.correlation_data;
  subscription_identifier = some_when (p == publish || p == subscribe) i.subscription_identifier;
  session_expiry_interval =
      some_when (p == connect || p == connack || p == disconnect) i.session_expiry_interval;
  assigned_client_id = bytes_when (p == connack) i.assigned_client_id;
  server_keep_alive = some_when (p == connack) i.server_keep_alive;
  auth_method = bytes_when (p == connect || p == connack || p == auth) i.auth_method;
  auth_data = bytes_when (p == connect || p == connack || p == auth) i.auth_data;
  request_problem_info = some_when (p == connect) i.request_problem_info;
  will_delay_interval = some_when (p == connect) i.will_delay_interval;
  request_response_info = some_when (p == connect) i.request_response_info;
  response_info = bytes_when (p == connack) i.response_info;
  server_reference = bytes_when (p == connack || p == disconnect) i.server_reference;
  reason_string = bytes_when (not (p == connect)) i.reason_string;
  receive_maximum = some_when (p == connect || p == connack) i.receive_maximum;
  topic_alias_maximum = some_when (p == connect || p == connack) i.topic_alias_maximum;
  topic_alias = some_when (p == publish) i.topic_alias;
  maximum_qos = some_when (p == connack) i.maximum_qos;
  retain_available = some_when (p == connack) i.retain_available;
  user = i.user;
  maximum_packet_size = some_when (p == connect || p == connack) i.maximum_packet_size;
  wildcard_sub_available = some_when (p == connack) i.wildcard_sub_available;
  sub_id_available = some_when (p == connack) i.sub_id_available;
  shared_sub_available = some_when (p == connack) i.shared_sub_available;
}

ok-injective : {s t : Bytes} → ok s ≡ ok t → s ≡ t
ok-injective e = cc

Sets-nothing : (p : ℕ) (s : Bytes) → ok [] ≡ ok s → Sets p s (λ j. j)
Sets-nothing p s e = subst (λ t. Sets p t (λ j. j)) (ok-injective e) (λ rest j. refl)

module _ (p : ℕ) where
  pub Sets-vbi :
      (o : Option ℤ) (s : Bytes)
      → validate_id p prop_subscription_identifier ≡ true
      → pack_vbi prop_subscription_identifier o ≡ ok s
      → Sets p s (put_subscription_identifier o)
  unfolding pack_vbi read_prop fill
  Sets-vbi none s v e = subst (λ t. Sets p t (λ j. j)) (ok-injective e) (λ rest j. refl)
  Sets-vbi (some z) s v e = elim (encode_vbi_domain z) [
    | inr (_, bad) ↦ ground (arith, bad)
    | inl (n, at, small, enc) ↦
        subst (λ t. Sets p t (put_subscription_identifier (some z))) (ok-injective (rw enc at e))
          (Sets-prop p prop_subscription_identifier (vbi n) (put_subscription_identifier (some z)) v
            (λ rest j. rw (decode_vbi-vbi rest n small, at)))
  ]

  pub Sets-sub_block :
      (i : Properties) (s : Bytes)
      → pack_sub_block p i ≡ ok s
      → Sets p s (
          put_subscription_identifier
            (some_when (p == publish || p == subscribe) i.subscription_identifier))
  unfolding pack_sub_block validate_id
  Sets-sub_block i s e = elim (Bool-cases (p == publish || p == subscribe)) [
    | inl g ↦ rw g (Sets-vbi i.subscription_identifier s (ground arith) (rw g at e))
    | inr g ↦ rw g (Sets-nothing p s (rw g at e))
  ]

  Sets-one_user :
      (u : User)
      → validate_id p prop_user ≡ true
      → IsShort u.key
      → IsShort u.value
      → Sets p
          (prop_user ∷ (write_string u.key ++ write_string u.value))
          (λ j. record j { user = j.user ++ u ∷ [] })
  unfolding read_prop fill read_user
  Sets-one_user u v hk hv =
      Sets-prop p prop_user (write_string u.key ++ write_string u.value)
        (λ j. record j { user = j.user ++ u ∷ [] }) v
        λ rest j. rw (
          append_assoc (write_string u.key) (write_string u.value) rest,
          read_string-write_string u.key (write_string u.value ++ rest) hk,
          read_string-write_string u.value rest hv,
        )

  pub Sets-user :
      (us : List User)
      → validate_id p prop_user ≡ true
      → All (λ u. IsShort u.key × IsShort u.value) us
      → Sets p (pack_user us) (λ j. record j { user = j.user ++ us })
  unfolding pack_user
  Sets-user [] v h rest j = rw (append-nil j.user)
  Sets-user (u ∷ us) v (h, hs) rest j =
      rw
        (
          ← append_assoc (write_string u.key) (write_string u.value) (pack_user us),
          ← append_assoc j.user (u ∷ []) us,
        )
        (Sets-append p (prop_user ∷ (write_string u.key ++ write_string u.value)) (pack_user us)
          (λ j. record j { user = j.user ++ u ∷ [] }) (λ j. record j { user = j.user ++ us })
          (Sets-one_user u v h.0 h.1) (Sets-user us v hs) rest j)
