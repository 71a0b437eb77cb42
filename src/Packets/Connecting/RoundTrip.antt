-- ===== src/Packets/Connecting/RoundTrip.antt =====
-- packets/connect.go: Unpack on what Buffers wrote.
use mathlib.Core.List.{flatten}
use paho_golang.Common.{
  ℕ, ◌+◌, ◌*◌, ◌/◌, ◌%◌, ◌^◌, ◌<◌, ◌≡◌, refl, List, [], ◌∷◌, ◌++◌, append_assoc, append-nil, length,
  none, some, Bool, true, false, arith, ◌==◌, ==_iff, if◌then◌else◌,
}
use paho_golang.Common.Int.{pos}
use paho_golang.Common.Finite.{all_from, all_from_zero, all_bools, all_bools_sound}
use paho_golang.Packets.Result.{Bytes, ok, ◌>>=◌, >>=-eq-ok}
use paho_golang.Packets.Types.{connect}
use paho_golang.Packets.Wire.{
  read_byte, read_string, read_binary, write_uint16, write_string, write_binary, encode_vbi,
}
use paho_golang.Packets.Wire.RoundTrip.{
  read_uint16-write_uint16, read_string-write_string, read_binary-write_binary,
}
use paho_golang.Packets.Properties.{validate_id}
use paho_golang.Packets.Properties.Pack.{pack}
use paho_golang.Packets.Properties.RoundTrip.{received, IsSendable, unpack-pack}
use paho_golang.Packets.Properties.RoundTrip.Kinds.{IsShort}
use paho_golang.Packets.Requests.{flag}
use paho_golang.Packets.Connecting.{
  Connect, join_flags, pack_flags, unpack_flags, fresh_connect, read_if, read_will, set_will,
  connect_unpack, will_buffer, connect_buffers,
}

-- The flags byte as a sum.
abbrev flag_sum : (username password will retain clean : Bool) → ℕ → ℕ
flag_sum u p w r c q = flag u 128 + flag p 64 + (if w then 4 + q * 8 + flag r 32 else 0) + flag c 2

-- The table of all flags, an argument at a time.
abbrev at_qos : (u p w r c : Bool) → Bool
at_qos u p w r c = all_from 0 4 (λ q. join_flags u p w r c q == flag_sum u p w r c q)

abbrev at_retain : (u p w r : Bool) → Bool
at_retain u p w r = all_bools (at_qos u p w r)

abbrev at_will : (u p w : Bool) → Bool
at_will u p w = all_bools (at_retain u p w)

abbrev at_password : (u p : Bool) → Bool
at_password u p = all_bools (at_will u p)

abbrev at_username : Bool → Bool
at_username u = all_bools (at_password u)

flag_table : all_bools at_username ≡ true
unfolding all_from join_flags
flag_table = refl

flag_row : (u p w r c : Bool) → at_qos u p w r c ≡ true
flag_row u p w r c = all_bools_sound (at_qos u p w r) c (
    all_bools_sound (at_retain u p w) r (
      all_bools_sound (at_will u p) w
        (all_bools_sound (at_password u) p (all_bools_sound at_username u flag_table))))

join_flags-flag_sum :
    (u p w r c : Bool) (q : ℕ) → q < 4 → join_flags u p w r c q ≡ flag_sum u p w r c q
join_flags-flag_sum u p w r c q h =
    (==_iff _ _).0 (
      all_from_zero 4 (λ k. join_flags u p w r c k == flag_sum u p w r c k) q (flag_row u p w r c)
        h)

-- What UnpackFlags finds in it: the will's QoS and RETAIN only with a will.
flag_sum_bits :
    (u p w r c : Bool) (q : ℕ)
    → q < 4
    → let f = flag_sum u p w r c q in
      ((f / 2 % 2 == 1) ≡ c)
      × ((f / 4 % 2 == 1) ≡ w)
      × (f / 8 % 4 ≡ (if w then q else 0))
      × ((f / 32 % 2 == 1) ≡ (if w then r else false))
      × ((f / 64 % 2 == 1) ≡ p)
      × ((f / 128 % 2 == 1) ≡ u)
flag_sum_bits u p true r c q h = ground arith
flag_sum_bits u p false r c q h = ground arith

ok-injective : {A : Type 0} {s t : A} → ok s ≡ ok t → s ≡ t
ok-injective e = cc

-- A CONNECT as its receiver sees it: without a will, user name or password where their flags are
-- not set.
abbrev pub connect_received : Connect → Connect
connect_received c = record c {
  properties = some (received connect c.properties);
  will_properties = if c.will_flag then some (received connect c.will_properties) else none;
  will_topic = if c.will_flag then c.will_topic else [];
  will_message = if c.will_flag then c.will_message else [];
  will_qos = if c.will_flag then c.will_qos else 0;
  will_retain = if c.will_flag then c.will_retain else false;
  username = if c.username_flag then c.username else [];
  password = if c.password_flag then c.password else [];
}

pub record ConnectFits (c : Connect) : Type 0 where
  pub name_short : IsShort c.protocol_name
  pub id_short : IsShort c.client_id
  pub topic_short : IsShort c.will_topic
  pub message_short : IsShort c.will_message
  pub username_short : IsShort c.username
  pub password_short : IsShort c.password
  pub keep_alive_small : c.keep_alive < 2 ^ 16
  pub qos_small : c.will_qos < 4
  pub sendable : IsSendable connect c.properties
  pub will_sendable : IsSendable connect c.will_properties

-- An optional string, as it is written and read.
read_if-write :
    (b : Bool) (s rest : Bytes)
    → IsShort s
    → (read_if b [] read_string ((if b then write_string s else []) ++ rest)
        ≡ ok ((if b then s else []), rest))
      × (read_if b [] read_binary ((if b then write_binary s else []) ++ rest)
          ≡ ok ((if b then s else []), rest))
read_if-write true s rest h = (read_string-write_string s rest h, read_binary-write_binary s rest h)
read_if-write false s rest h = (refl, refl)

module _ (c : Connect) (fits : ConnectFits c) where
  set_will-will_buffer :
      (h : Connect) (will rest : Bytes)
      → will_buffer c ≡ ok will
      → set_will h (will ++ rest)
        ≡ ok (
          record h {
            will_properties = some (received connect c.will_properties);
            will_topic = c.will_topic;
            will_message = c.will_message;
          },
          rest,
        )
  unfolding set_will read_will will_buffer validate_id
  set_will-will_buffer h will rest e =
      let (idvp, packed, e1) = >>=-eq-ok (pack connect c.will_properties) _ e in
      let (size, sized, e2) = >>=-eq-ok (encode_vbi (pos (length idvp))) _ e1 in
      let topic : Bytes = write_string c.will_topic in
      let message : Bytes = write_binary c.will_message in
      rw (
        ← ok-injective e2,
        append_assoc size (idvp ++ (topic ++ message)) rest,
        append_assoc idvp (topic ++ message) rest,
        append_assoc topic message rest,
        unpack-pack connect c.will_properties idvp size (topic ++ (message ++ rest))
            fits.will_sendable refl packed sized,
        read_string-write_string c.will_topic (message ++ rest) fits.topic_short,
        read_binary-write_binary c.will_message rest fits.message_short,
      )

  read_will_part :
      (w : Bool) (h : Connect) (will rest : Bytes)
      → (if w then will_buffer c else ok []) ≡ ok will
      → read_if w h (set_will h) (will ++ rest)
        ≡ ok (
          record h {
            will_properties =
                if w then some (received connect c.will_properties) else h.will_properties;
            will_topic = if w then c.will_topic else h.will_topic;
            will_message = if w then c.will_message else h.will_message;
          },
          rest,
        )
  read_will_part true h will rest e = set_will-will_buffer h will rest e
  read_will_part false h will rest e = rw (← ok-injective e)

  -- Behind the fixed part of the packet.
  connect_tail : Bytes → Bytes
  connect_tail will =
      will
      ++ ((if c.username_flag then write_string c.username else [])
          ++ (if c.password_flag then write_binary c.password else []))

  -- The receiver when the client identifier is read.
  connect_head : Connect
  connect_head = record fresh_connect {
    clean_start = c.clean_start;
    will_flag = c.will_flag;
    will_qos = if c.will_flag then c.will_qos else 0;
    will_retain = if c.will_flag then c.will_retain else false;
    password_flag = c.password_flag;
    username_flag = c.username_flag;
    protocol_name = c.protocol_name;
    protocol_version = c.protocol_version;
    keep_alive = c.keep_alive;
    properties = some (received connect c.properties);
    client_id = c.client_id;
  }

  unpack_flags-pack_flags :
      (h : Connect)
      → unpack_flags (pack_flags c) h ≡ record h {
        clean_start = c.clean_start;
        will_flag = c.will_flag;
        will_qos = if c.will_flag then c.will_qos else 0;
        will_retain = if c.will_flag then c.will_retain else false;
        password_flag = c.password_flag;
        username_flag = c.username_flag;
      }
  unfolding unpack_flags pack_flags
  unpack_flags-pack_flags h =
      let (b1, b2, b3, b5, b6, b7) =
        flag_sum_bits c.username_flag c.password_flag c.will_flag c.will_retain c.clean_start
          c.will_qos fits.qos_small in
      rw (
        join_flags-flag_sum c.username_flag c.password_flag c.will_flag c.will_retain c.clean_start
            c.will_qos fits.qos_small,
        b1,
        b2,
        b3,
        b5,
        b6,
        b7,
      )

  -- The will, the user name and the password.
  read_tail :
      (will : Bytes)
      → (if c.will_flag then will_buffer c else ok []) ≡ ok will
      → (read_if c.will_flag connect_head (set_will connect_head) (connect_tail will) >>= λ r.
          read_if r.0.username_flag r.0.username read_string r.1 >>= λ u.
          read_if r.0.password_flag r.0.password read_binary u.1 >>= λ p.
          ok (record r.0 { username = u.0; password = p.0 }))
        ≡ ok (connect_received c)
  unfolding connect_tail connect_head fresh_connect
  read_tail will e =
      let user : Bytes = if c.username_flag then write_string c.username else [] in
      let pass : Bytes = if c.password_flag then write_binary c.password else [] in
      rw (
        read_will_part c.will_flag connect_head will (user ++ pass) e,
        (read_if-write c.username_flag c.username pass fits.username_short).0,
        rw (append-nil pass) at (read_if-write c.password_flag c.password [] fits.password_short).1,
      )

  -- CONNECT: Unpack gives back the connection request: protocol name and version, the flags, keep
  -- alive and client identifier, the properties that it carries, and the will, user name and
  -- password where their flags announce them. The fields fit the wire.
  pub connect_unpack-connect_buffers :
      (bufs : List Bytes)
      → connect_buffers c ≡ ok bufs
      → connect_unpack (flatten bufs) ≡ ok (connect_received c)
  unfolding connect_buffers connect_unpack flatten read_byte validate_id connect_tail connect_head
  connect_unpack-connect_buffers bufs e =
      let (idvp, packed, e1) = >>=-eq-ok (pack connect c.properties) _ e in
      let (size, sized, e2) = >>=-eq-ok (encode_vbi (pos (length idvp))) _ e1 in
      let (will, willed, e3) = >>=-eq-ok (if c.will_flag then will_buffer c else ok []) _ e2 in
      let id : Bytes = write_string c.client_id in
      let alive : Bytes = write_uint16 c.keep_alive in
      let tail : Bytes = connect_tail will in
      let after : Bytes = alive ++ (size ++ (idvp ++ (id ++ tail))) in
      rw
        (
          ← ok-injective e3,
          flatten,
          append-nil,
          read_string-write_string c.protocol_name (c.protocol_version ∷ pack_flags c ∷ after)
              fits.name_short,
          read_uint16-write_uint16 c.keep_alive (size ++ (idvp ++ (id ++ tail)))
              fits.keep_alive_small,
          unpack-pack connect c.properties idvp size (id ++ tail) fits.sendable refl packed sized,
          read_string-write_string c.client_id tail fits.id_short,
          unpack_flags-pack_flags,
        )
        (read_tail will willed)
