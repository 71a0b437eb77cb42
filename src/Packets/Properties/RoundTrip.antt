-- ===== src/Packets/Properties/RoundTrip.antt =====
-- packets/properties.go: what Unpack makes of the bytes that Pack wrote.
pub mod Kinds
pub mod Fields
pub mod MessageFields
pub mod ServerFields
pub mod Blocks
pub mod FieldBlocks
use paho_golang.Common.{
  ℕ, zero, suc, ◌<◌, ◌≤◌, ◌≡◌, refl, sym, ap, ◌∙◌, List, [], ◌∷◌, ◌++◌, append_assoc, append-nil,
  length, take, drop, take-append_self, drop-append_self, Option, none, some, Bool, true, false,
  not, ◌==◌, ◌||◌, ◌⊎◌, inl, inr, Bool-cases, arith,
}
use paho_golang.Common.Int.{ℤ, pos}
use paho_golang.Packets.Result.{Bytes, Result, ok, err, Error, ◌>>=◌, >>=-eq-ok}
use paho_golang.Packets.Wire.{decode_vbi, encode_vbi}
use paho_golang.Packets.Types.{connect, connack, publish, subscribe, disconnect, auth}
use paho_golang.Packets.Wire.RoundTrip.{
  vbi, length-vbi, vbi_limit, encode_vbi_domain, get_vbi-vbi, decode_vbi-vbi,
}
use paho_golang.Packets.Properties.{
  User, Properties, empty, validate_id, prop_user, prop_reason_string,
}
use paho_golang.Packets.Properties.Pack.{
  pack_properties, pack_sub_block, pack_publish_block, pack_limits_block, pack_connack_block,
  pack_connect_block, pack_expiry_block, pack_auth_block, pack_reference_block, pack_reason_block,
  pack_user, pack,
}
use paho_golang.Packets.Properties.Unpack.{unpack_all, unpack}
use paho_golang.Packets.Properties.Unpack.Steps.{Sets, Sets-append, unpack_all-nil}
use Kinds.{or_some, or_bytes}
use Blocks.{Fits, carried, Sets-sub_block, Sets-user}
use FieldBlocks.{
  Sets-publish_block, Sets-limits_block, Sets-connack_block, Sets-connect_block, Sets-expiry_block,
  Sets-auth_block, Sets-reference_block, Sets-reason_block,
}

or_some-none {ℓ} : {A : Type ℓ} (o : Option A) → or_some o none ≡ o
or_some-none none = refl
or_some-none (some x) = refl

or_bytes-nil : (s : Bytes) → or_bytes s [] ≡ s
or_bytes-nil [] = refl
or_bytes-nil (c ∷ s) = refl

ok-injective : {s t : Bytes} → ok s ≡ ok t → s ≡ t
ok-injective e = cc

-- The reason string is absent, or allowed in packets of type `p`.
abbrev pub ReasonIsReadable : ℕ → Properties → Type 0
ReasonIsReadable p i = (i.reason_string ≡ []) ⊎ (validate_id p prop_reason_string ≡ true)

pub decode_vbi-digits : (n : ℕ) → n < vbi_limit → decode_vbi (vbi n) ≡ ok (n, [])
decode_vbi-digits n h = rw (append-nil (vbi n)) at (decode_vbi-vbi [] n h)

-- The frame around the properties: their length, and what follows them.
unpack_framed :
    (p : ℕ) (bs rest : Bytes) (i j : Properties)
    → length bs < vbi_limit
    → unpack_all p bs i ≡ ok j
    → unpack p i (vbi (length bs) ++ (bs ++ rest)) ≡ ok (j, rest)
unfolding unpack
unpack_framed p [] rest i j small e =
    rw (get_vbi-vbi rest 0 small, decode_vbi-digits 0 small) (cc (unpack_all-nil p i))
unpack_framed p (b ∷ bs) rest i j small e =
    rw
      (
        get_vbi-vbi ((b ∷ bs) ++ rest) (length (b ∷ bs)) small,
        decode_vbi-digits (length (b ∷ bs)) small,
        take-append_self bs rest,
        drop-append_self bs rest,
        e,
      )
      (ground arith)

pub unpack_framed_err :
    (p : ℕ) (bs rest : Bytes) (i : Properties) (x : Error)
    → length bs < vbi_limit
    → unpack_all p bs i ≡ err x
    → unpack p i (vbi (length bs) ++ (bs ++ rest)) ≡ err x
unfolding unpack
unpack_framed_err p [] rest i x small e = cc (unpack_all-nil p i)
unpack_framed_err p (b ∷ bs) rest i x small e =
    rw
      (
        get_vbi-vbi ((b ∷ bs) ++ rest) (length (b ∷ bs)) small,
        decode_vbi-digits (length (b ∷ bs)) small,
        take-append_self bs rest,
        drop-append_self bs rest,
        e,
      )
      (ground arith)

-- The bytes of a packet's properties, with the subscription identifier's, `sub`.
unfoldable pub packed : ℕ → Properties → Bytes → Bytes
packed p i sub =
    pack_publish_block p i
    ++ (sub
        ++ (pack_limits_block p i
            ++ (pack_connack_block p i
                ++ (pack_connect_block p i
                    ++ (pack_expiry_block p i
                        ++ (pack_auth_block p i
                            ++ (pack_reference_block p i
                                ++ (pack_reason_block p i ++ pack_user i.user))))))))

module _ (p : ℕ) (i : Properties) (fits : Fits i) (reason : ReasonIsReadable p i)
    (users : validate_id p prop_user ≡ true) where
  unpack_all-packed :
      (sub : Bytes)
      → pack_sub_block p i ≡ ok sub
      → (rest : Bytes)
      → unpack_all p (packed p i sub ++ rest) empty ≡ unpack_all p rest (carried p i)
  unfolding packed carried
  unpack_all-packed sub hs rest =
      Sets-append p _ _ _ _ (Sets-publish_block p i fits)
        (Sets-append p _ _ _ _ (Sets-sub_block p i sub hs) (
          Sets-append p _ _ _ _ (Sets-limits_block p i fits) (
            Sets-append p _ _ _ _ (Sets-connack_block p i fits) (
              Sets-append p _ _ _ _ (Sets-connect_block p i fits) (
                Sets-append p _ _ _ _ (Sets-expiry_block p i fits) (
                  Sets-append p _ _ _ _ (Sets-auth_block p i fits) (
                    Sets-append p _ _ _ _ (Sets-reference_block p i fits) (
                      Sets-append p _ _ _ _ (Sets-reason_block p i fits reason)
                        (Sets-user p i.user users fits.user)))))))))
        rest empty
      ∙ simp (or_some-none, or_bytes-nil)

  pub unpack_all-pack_properties :
      (bs : Bytes) → pack_properties p i ≡ ok bs → unpack_all p bs empty ≡ ok (carried p i)
  unfolding pack_properties packed
  unpack_all-pack_properties bs e =
      let (sub, hs, e') = >>=-eq-ok (pack_sub_block p i) (λ sub. ok (packed p i sub)) e in
      rw (← ok-injective e', ← append-nil (packed p i sub))
        (unpack_all-packed sub hs [] ∙ unpack_all-nil p (carried p i))

  -- Behind its length Unpack reads what Pack wrote: exactly the fields that a packet of type `p`
  -- carries, and it leaves what follows. Numbers fit their words and strings their prefixes, `p` has
  -- user properties, and there is a reason string only where it is allowed.
  pub unpack-pack_properties :
      (bs rest : Bytes)
      → pack_properties p i ≡ ok bs
      → length bs < vbi_limit
      → unpack p empty (vbi (length bs) ++ (bs ++ rest)) ≡ ok (carried p i, rest)
  unpack-pack_properties bs rest e small =
      unpack_framed p bs rest empty (carried p i) small (unpack_all-pack_properties bs e)

-- A nil *Properties writes nothing and is read back as an empty one.
abbrev pub received : ℕ → Option Properties → Properties
received p none = empty
received p (some i) = carried p i

-- The fields fit the wire, and a reason string stands only where it is allowed.
abbrev pub IsSendable : ℕ → Option Properties → Type 0
IsSendable p none = Unit {0}
IsSendable p (some i) = Fits i × ReasonIsReadable p i

pub unpack_all-pack :
    (p : ℕ) (o : Option Properties) (bs : Bytes)
    → IsSendable p o
    → validate_id p prop_user ≡ true
    → pack p o ≡ ok bs
    → unpack_all p bs empty ≡ ok (received p o)
unfolding pack
unpack_all-pack p none bs h users e = rw (← ok-injective e) (unpack_all-nil p empty)
unpack_all-pack p (some i) bs (fits, reason) users e =
    unpack_all-pack_properties p i fits reason users bs e

pub vbi_of_ok :
    (n : ℕ) (size : Bytes) → encode_vbi (pos n) ≡ ok size → (n < vbi_limit) × (vbi n ≡ size)
vbi_of_ok n size e = elim (encode_vbi_domain (pos n)) [
  | inl (m, at, small, enc) ↦ ground (arith, at, small, enc, ok-injective {s = vbi m} {t = size})
  | inr (large, bad) ↦ cc
]

pub length-encode_vbi : (n : ℕ) (size : Bytes) → encode_vbi (pos n) ≡ ok size → 1 ≤ length size
length-encode_vbi n size e = let (small, same) = vbi_of_ok n size e in rw (← same) (length-vbi n).0

-- The properties as every packet holds them: packed, behind their length.
pub unpack-pack :
    (p : ℕ) (o : Option Properties) (bs size rest : Bytes)
    → IsSendable p o
    → validate_id p prop_user ≡ true
    → pack p o ≡ ok bs
    → encode_vbi (pos (length bs)) ≡ ok size
    → unpack p empty (size ++ (bs ++ rest)) ≡ ok (received p o, rest)
unpack-pack p o bs size rest h users e enc =
    let (small, same) = vbi_of_ok (length bs) size enc in
    rw (← same) (unpack_framed p bs rest empty _ small (unpack_all-pack p o bs h users e))
