-- ===== src/Packets/Properties/Faults.antt =====
-- packets/properties.go: where Pack and ValidProperties disagree.
use paho_golang.Common.{ℕ, ◌<◌, ◌≡◌, refl, ◌∙◌, [], ◌∷◌, ◌++◌, length, none, true, false, ◌==◌}
use paho_golang.Packets.Result.{Bytes, ok, err, invalid_prop, >>=-eq-ok}
use paho_golang.Packets.Types.{connect}
use paho_golang.Packets.Wire.{write_string}
use paho_golang.Packets.Wire.RoundTrip.{vbi, vbi_limit}
use paho_golang.Packets.Properties.{Properties, empty, validate_id, prop_reason_string}
use paho_golang.Packets.Properties.Pack.{
  pack_properties, pack_sub_block, pack_publish_block, pack_limits_block, pack_connack_block,
  pack_connect_block, pack_expiry_block, pack_auth_block, pack_reference_block, pack_reason_block,
  pack_string,
}
use paho_golang.Packets.Properties.Unpack.{unpack_all, unpack, unpack_prop}
use paho_golang.Packets.Properties.Unpack.Steps.{unpack_all-cons}
use paho_golang.Packets.Properties.RoundTrip.{packed, unpack_framed_err}
use paho_golang.Packets.Properties.RoundTrip.Blocks.{Fits, Sets-sub_block}
use paho_golang.Packets.Properties.RoundTrip.FieldBlocks.{
  Sets-publish_block, Sets-limits_block, Sets-connack_block, Sets-connect_block, Sets-expiry_block,
  Sets-auth_block, Sets-reference_block,
}

module _ (p : ℕ) (i : Properties) (fits : Fits i) (c : ℕ) (s : Bytes)
    (given : i.reason_string ≡ c ∷ s) (other : (p == connect) ≡ false)
    (refused : validate_id p prop_reason_string ≡ false) where
  reason_block_refused :
      (rest : Bytes) (j : Properties)
      → unpack_all p (pack_reason_block p i ++ rest) j ≡ err (invalid_prop prop_reason_string)
  unfolding pack_reason_block pack_string unpack_prop
  reason_block_refused rest j =
      rw (
        other,
        given,
        unpack_all-cons p prop_reason_string (write_string (c ∷ s) ++ rest) j,
        refused,
      )

  unpack_all_refused :
      (sub : Bytes)
      → pack_sub_block p i ≡ ok sub
      → unpack_all p (packed p i sub) empty ≡ err (invalid_prop prop_reason_string)
  unfolding packed
  unpack_all_refused sub hs =
      Sets-publish_block p i fits _ _
      ∙ Sets-sub_block p i sub hs _ _
      ∙ Sets-limits_block p i fits _ _
      ∙ Sets-connack_block p i fits _ _
      ∙ Sets-connect_block p i fits _ _
      ∙ Sets-expiry_block p i fits _ _
      ∙ Sets-auth_block p i fits _ _
      ∙ Sets-reference_block p i fits _ _
      ∙ reason_block_refused _ _

  -- Pack writes a reason string into packets for which ValidateID refuses it, such as PUBLISH,
  -- SUBSCRIBE and UNSUBSCRIBE: then Unpack fails on the bytes that Pack wrote, with the error that
  -- names the reason string. The fields fit the wire, and the packet is not CONNECT.
  pub unpack_reason_refused :
      (bs rest : Bytes)
      → pack_properties p i ≡ ok bs
      → length bs < vbi_limit
      → unpack p empty (vbi (length bs) ++ (bs ++ rest)) ≡ err (invalid_prop prop_reason_string)
  unfolding pack_properties packed
  unpack_reason_refused bs rest e small =
      let (sub, hs, e') = >>=-eq-ok (pack_sub_block p i) (λ sub. ok (packed p i sub)) e in
      unpack_framed_err p bs rest empty (invalid_prop prop_reason_string) small
        (cc (unpack_all_refused sub hs))

-- The properties without those of a message.
abbrev pub without_message : Properties → Properties
without_message i = record i {
  payload_format = none;
  message_expiry = none;
  content_type = [];
  response_topic = [];
  correlation_data = [];
}

-- The five properties of a will message, which ValidateID allows in CONNECT, are not written into
-- one: Pack makes the same bytes for CONNECT with and without them.
pub pack_connect_drops_will :
    (i : Properties)
    → (pack_properties connect i ≡ pack_properties connect (without_message i))
      × (validate_id connect 1 ≡ true)
      × (validate_id connect 2 ≡ true)
      × (validate_id connect 3 ≡ true)
      × (validate_id connect 8 ≡ true)
      × (validate_id connect 9 ≡ true)
unfolding pack_properties pack_sub_block pack_publish_block pack_limits_block pack_connack_block
    pack_connect_block pack_expiry_block pack_auth_block pack_reference_block pack_reason_block
    validate_id
pack_connect_drops_will i = (refl, refl, refl, refl, refl, refl)
