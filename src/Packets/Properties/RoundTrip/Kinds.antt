-- ===== src/Packets/Properties/RoundTrip/Kinds.antt =====
-- What Unpack makes of each property that Pack writes.
use paho_golang.Common.{ℕ, ◌^◌, ◌<◌, ◌≡◌, [], ◌∷◌, length, Option, none, some, true}
use paho_golang.Packets.Result.{Bytes, ok}
use paho_golang.Packets.Wire.{
  write_uint16, write_uint32, write_string, write_binary, read_uint16, read_uint32, read_string,
  read_binary,
}
use paho_golang.Packets.Wire.RoundTrip.{
  read_uint16-write_uint16, read_uint32-write_uint32, read_string-write_string,
  read_binary-write_binary,
}
use paho_golang.Packets.Properties.{Properties, validate_id}
use paho_golang.Packets.Properties.Pack.{
  pack_byte, pack_uint16, pack_uint32, pack_string, pack_binary,
}
use paho_golang.Packets.Properties.Unpack.{fill, read_prop}
use paho_golang.Packets.Properties.Unpack.Steps.{Sets, Sets-prop}

-- A number that its machine word holds, and a string that its length prefix counts.
abbrev pub Below : ℕ → Option ℕ → Type 0
Below n none = Unit {0}
Below n (some v) = v < n

abbrev pub IsShort : Bytes → Type 0
IsShort s = length s < 2 ^ 16

-- A field that is present overwrites; one that is absent leaves what stood there.
abbrev pub or_some {ℓ} : {A : Type ℓ} → Option A → Option A → Option A
or_some none y = y
or_some (some x) y = some x

abbrev pub or_bytes : Bytes → Bytes → Bytes
or_bytes [] y = y
or_bytes (c ∷ s) y = c ∷ s

-- The four kinds of field, for a setter that leaves the record alone where the field is absent.
module _ (p code : ℕ) (put : Option ℕ → Properties → Properties)
    (absent : (i : Properties) → put none i ≡ i) (v : validate_id p code ≡ true) where
  pub Sets-byte :
      (o : Option ℕ)
      → ((x : ℕ) (rest : Bytes) (i : Properties)
          → read_prop code i (x ∷ rest) ≡ ok (put (some x) i, rest))
      → Sets p (pack_byte code o) (put o)
  unfolding pack_byte
  Sets-byte none h rest i = rw (absent i)
  Sets-byte (some x) h rest i = Sets-prop p code (x ∷ []) (put (some x)) v (h x) rest i

  pub Sets-uint16 :
      (o : Option ℕ)
      → ((i : Properties) → read_prop code i ≡ fill read_uint16 (λ x. put (some x) i))
      → Below (2 ^ 16) o
      → Sets p (pack_uint16 code o) (put o)
  unfolding pack_uint16 fill
  Sets-uint16 none h b rest i = rw (absent i)
  Sets-uint16 (some x) h b rest i =
      Sets-prop p code (write_uint16 x) (put (some x)) v
        (λ r j. rw (h j, read_uint16-write_uint16 x r b)) rest i

  pub Sets-uint32 :
      (o : Option ℕ)
      → ((i : Properties) → read_prop code i ≡ fill read_uint32 (λ x. put (some x) i))
      → Below (2 ^ 32) o
      → Sets p (pack_uint32 code o) (put o)
  unfolding pack_uint32 fill
  Sets-uint32 none h b rest i = rw (absent i)
  Sets-uint32 (some x) h b rest i =
      Sets-prop p code (write_uint32 x) (put (some x)) v
        (λ r j. rw (h j, read_uint32-write_uint32 x r b)) rest i

module _ (p code : ℕ) (put : Bytes → Properties → Properties)
    (set : Properties → Bytes → Properties) (absent : (i : Properties) → put [] i ≡ i)
    (present : (c : ℕ) (s : Bytes) (i : Properties) → set i (c ∷ s) ≡ put (c ∷ s) i)
    (v : validate_id p code ≡ true) where
  pub Sets-string :
      (s : Bytes)
      → ((i : Properties) → read_prop code i ≡ fill read_string (set i))
      → IsShort s
      → Sets p (pack_string code s) (put s)
  unfolding pack_string fill
  Sets-string [] h b rest i = rw (absent i)
  Sets-string (c ∷ s) h b rest i =
      Sets-prop p code (write_string (c ∷ s)) (put (c ∷ s)) v
        (λ r j. rw (h j, read_string-write_string (c ∷ s) r b, present c s j)) rest i

  pub Sets-binary :
      (s : Bytes)
      → ((i : Properties) → read_prop code i ≡ fill read_binary (set i))
      → IsShort s
      → Sets p (pack_binary code s) (put s)
  unfolding pack_binary fill
  Sets-binary [] h b rest i = rw (absent i)
  Sets-binary (c ∷ s) h b rest i =
      Sets-prop p code (write_binary (c ∷ s)) (put (c ∷ s)) v
        (λ r j. rw (h j, read_binary-write_binary (c ∷ s) r b, present c s j)) rest i
