-- ===== src/Packets/Connecting.antt =====
-- packets/connect.go. Unpack is on the receiver that ReadPacket makes, with empty properties; what
-- it leaves of the buffer is dropped there.
pub mod RoundTrip
use Prim.Native.Nat.{bit_or}
use paho_golang.Common.{
  ℕ, ◌*◌, ◌/◌, ◌%◌, List, [], ◌∷◌, ◌++◌, Option, none, some, Bool, true, false, ◌==◌, if◌then◌else◌,
  length,
}
use paho_golang.Common.Int.{pos}
use paho_golang.Packets.Result.{Bytes, Reader, Result, ok, err, ◌>>=◌}
use paho_golang.Packets.Types.{connect}
use paho_golang.Packets.Wire.{
  read_byte, read_uint16, read_string, read_binary, write_uint16, write_string, write_binary,
  encode_vbi,
}
use paho_golang.Packets.Properties.{Properties, empty}
use paho_golang.Packets.Properties.Pack.{pack}
use paho_golang.Packets.Properties.Unpack.{unpack}
use paho_golang.Packets.Requests.{flag}

pub record Connect : Type 0 where
  pub will_message : Bytes
  pub password : Bytes
  pub username : Bytes
  pub protocol_name : Bytes
  pub client_id : Bytes
  pub will_topic : Bytes
  pub properties : Option Properties
  pub will_properties : Option Properties
  pub keep_alive : ℕ
  pub protocol_version : ℕ
  pub will_qos : ℕ
  pub password_flag : Bool
  pub username_flag : Bool
  pub will_retain : Bool
  pub will_flag : Bool
  pub clean_start : Bool

-- PackFlags: the bits of the will are set only with the will's own.
pub join_flags : (username password will retain clean : Bool) → ℕ → ℕ
join_flags username password will retain clean qos =
    let f = bit_or (flag username 128) (flag password 64) in
    let with_will = bit_or (bit_or (bit_or f 4) (qos * 8 % 256)) (flag retain 32) in
    bit_or (if will then with_will else f) (flag clean 2)

pub pack_flags : Connect → ℕ
pack_flags c =
    join_flags c.username_flag c.password_flag c.will_flag c.will_retain c.clean_start c.will_qos

-- UnpackFlags
pub unpack_flags : ℕ → Connect → Connect
unpack_flags b c = record c {
  clean_start = b / 2 % 2 == 1;
  will_flag = b / 4 % 2 == 1;
  will_qos = b / 8 % 4;
  will_retain = b / 32 % 2 == 1;
  password_flag = b / 64 % 2 == 1;
  username_flag = b / 128 % 2 == 1;
}

-- The receiver, with the name and version that ReadPacket gives it: "MQTT" and 5.
pub fresh_connect : Connect
fresh_connect = record {
  will_message = [];
  password = [];
  username = [];
  protocol_name = b'M' ∷ b'Q' ∷ b'T' ∷ b'T' ∷ [];
  client_id = [];
  will_topic = [];
  properties = some empty;
  will_properties = none;
  keep_alive = 0;
  protocol_version = 5;
  will_qos = 0;
  password_flag = false;
  username_flag = false;
  will_retain = false;
  will_flag = false;
  clean_start = false;
}

-- `if flag { c.F, err = read(r) }`
abbrev pub read_if : {A : Type 0} → Bool → A → Reader A → Reader A
read_if true a r bs = r bs
read_if false a r bs = ok (a, bs)

-- The will: its properties, topic and message.
pub read_will : Reader (Properties × Bytes × Bytes)
read_will bs = do
  (props, bs1) ← unpack connect empty bs
  (topic, bs2) ← read_string bs1
  (message, bs3) ← read_binary bs2
  ok ((props, topic, message), bs3)

pub set_will : Connect → Reader Connect
set_will c bs = do
  (w, rest) ← read_will bs
  ok (record c { will_properties = some w.0; will_topic = w.1; will_message = w.2 }, rest)

pub connect_unpack : Bytes → Result Connect
connect_unpack bs = do
  (name, bs1) ← read_string bs
  (version, bs2) ← read_byte bs1
  (flags, bs3) ← read_byte bs2
  (alive, bs4) ← read_uint16 bs3
  (props, bs5) ← unpack connect empty bs4
  (id, bs6) ← read_string bs5
  let head = record (unpack_flags flags fresh_connect) {
    protocol_name = name;
    protocol_version = version;
    keep_alive = alive;
    properties = some props;
    client_id = id;
  }
  (c, bs7) ← read_if head.will_flag head (set_will head) bs6
  (user, bs8) ← read_if c.username_flag c.username read_string bs7
  (pass, bs9) ← read_if c.password_flag c.password read_binary bs8
  ok (record c { username = user; password = pass })

-- The will behind the client identifier.
pub will_buffer : Connect → Result Bytes
will_buffer c = do
  idvp ← pack connect c.will_properties
  prop_len ← encode_vbi (pos (length idvp))
  ok (prop_len ++ (idvp ++ (write_string c.will_topic ++ write_binary c.will_message)))

pub connect_buffers : Connect → Result (List Bytes)
connect_buffers c = do
  idvp ← pack connect c.properties
  prop_len ← encode_vbi (pos (length idvp))
  will ← if c.will_flag then will_buffer c else ok []
  ok (
      (write_string c.protocol_name
        ++ c.protocol_version
          ∷ pack_flags c
          ∷ (write_uint16 c.keep_alive
              ++ (prop_len
                  ++ (idvp
                      ++ (write_string c.client_id
                          ++ (will
                              ++ ((if c.username_flag then write_string c.username else [])
                                  ++ (if c.password_flag
                                      then write_binary c.password
                                      else []))))))))
      ∷ [])
