-- ===== src/Client/Running.antt =====
-- paho/client.go: the Client's state, Connect and expectConnack. What the network does is an
-- argument: what ReadPacket returns, in order, and whether the writes succeed.
pub mod Calls
pub mod Connections
pub mod Incoming
pub mod OnceMore
use paho_golang.Common.{
  ℕ, List, [], ◌∷◌, ◌++◌, Bool, true, false, not, ◌&&◌, ◌==◌, if◌then◌else◌, Option, none, some,
  leb,
}
use paho_golang.Packets.Result.{Bytes, Result, ok, err}
use paho_golang.Packets.Connecting
use paho_golang.Packets.Replies
use paho_golang.Packets.Control.{Content, ControlPacket, connack, auth}
use paho_golang.Session.Storer.{Storer}
use paho_golang.Session.State.{Session, Report, fine, or_else}
use paho_golang.Session.State.Connected.{con_ack_received}
use paho_golang.Client.AcksTracker.{Tracker, reset}
use paho_golang.Client.Negotiated.{
  CommsProperties, client_told, server_told, keep_alive_told, client_id_told,
}
use paho_golang.Client.Conversions.Connections.{Connect, ConnectProperties, connect_packet}
use paho_golang.Client.Conversions.Answers.{
  Connack, connack_from_packet_connack, Auth, auth_from_packet_auth, auth_packet,
}

-- AuthHandler.Authenticate, if there is an AuthHandler.
abbrev pub Auther : Type 0
Auther = Option (Auth → Auth)

-- What ReadPacket returns, with whether a write in answer to it succeeds.
abbrev pub Event : Type 0
Event = Result ControlPacket × Bool

-- What expectConnack sends on its channels; `crashed` is a panic, and `silent` is nothing so far.
pub data Expected : Type 0 where
  got : Replies.Connack → Expected
  not_got crashed silent : Expected

abbrev pub has_method : Replies.Connack → Bool
has_method r = elim (r.properties) [
  | none ↦ false
  | some i ↦ elim (i.auth_method) [ [] ↦ false | b ∷ bs ↦ true ]
]

-- A CONNACK: a successful one that names an authentication method calls the AuthHandler.
unfoldable pub connack_expected : Auther → Replies.Connack → Expected
connack_expected none r = if r.reason_code == 0 && has_method r then crashed else got r
connack_expected (some h) r = got r

-- The AUTH packet that is written in answer to one from the server; none is a panic.
abbrev pub auth_reply : (Auth → Auth) → Replies.Auth → Option Replies.Auth
auth_reply h r = elim (auth_from_packet_auth r) [ none ↦ none | some a ↦ some (auth_packet (h a)) ]

abbrev pub as_connack : Content → Option Replies.Connack
as_connack c = elim c [ connack r ↦ some r | _ ↦ none ]

abbrev pub as_auth : Content → Option Replies.Auth
as_auth c = elim c [ auth r ↦ some r | _ ↦ none ]

-- expectConnack
unfoldable pub expect_connack : Auther → List Event → Expected
unfolding connack_expected
expect_connack h [] = silent
expect_connack h ((err x, w) ∷ es) = not_got
expect_connack h ((ok recv, w) ∷ es) = elim (as_connack recv.content) [
  | some r ↦ connack_expected h r
  | none ↦ elim (as_auth recv.content) [
    | none ↦ not_got
    | some r ↦ elim h [
      | none ↦ not_got
      | some f ↦ elim (auth_reply f r) [
        | none ↦ crashed
        | some a ↦ elim w [ true ↦ expect_connack h es | false ↦ not_got ]
      ]
    ]
  ]
]

-- How Connect ends.
pub data ConnectResult : Type 0 where
  connected refused : Connack → ConnectResult
  session_failed : Connack → Report → ConnectResult
  nil_connection called_twice write_failed context_done no_connack panicked : ConnectResult

-- `ccp`
abbrev pub connect_packet_sent : Connect → Connecting.Connect
connect_packet_sent cp = record (connect_packet cp) {
  protocol_name = b'M' ∷ b'Q' ∷ b'T' ∷ b'T' ∷ [];
  protocol_version = 5;
}

module _ (St : Storer) where
  -- The Client, with its session. `publishPackets` is what the session has delivered.
  pub record Client : Type 0 where
    pub has_connection : Bool
    pub connection_open : Bool
    pub connect_called : Bool
    pub client_id : Bytes
    pub keep_alive : ℕ
    pub server_props : CommsProperties
    pub client_props : CommsProperties
    pub session : Session St
    pub auth_response : Option (List ControlPacket)
    pub auths_sent : List Replies.Auth
    pub manual_acknowledgment : Bool
    pub auto_close_session : Bool
    pub acks_tracker : Tracker

  -- The variables that Connect sets before it writes.
  abbrev pub prepared : Connect → Client → Client
  prepared cp c = record c {
    connect_called = true;
    client_id = cp.client_id;
    keep_alive = cp.keep_alive;
    client_props = client_told cp c.client_props;
  }

  -- cleanup, by what it does to the connection: `done` and `publishPackets`, which it closes, are no
  -- part of the state.
  abbrev pub cleaned_up : Client → Client
  cleaned_up c = record c { connection_open = false }

  -- What Connect sets from the CONNACK, and the tracker when it starts to flush it.
  abbrev pub told : Connack → Client → Client
  told ca c = record c {
    keep_alive = keep_alive_told ca c.keep_alive;
    client_id = client_id_told ca c.client_id;
    server_props = server_told ca c.server_props;
    acks_tracker = if c.manual_acknowledgment then reset c.acks_tracker else c.acks_tracker;
  }

  abbrev pub joined : Connack → Client → Session St × Report → Client × ConnectResult
  joined ca c (s, fine) = (told ca (record c { session = s }), connected ca)
  joined ca c (s, r) = (cleaned_up (record c { session = s }), session_failed ca r)

  -- From the CONNACK on.
  unfoldable pub connack_came :
      (ℕ → Bool) → Connecting.Connect → Replies.Connack → Client → Client × ConnectResult
  connack_came w ccp k c = elim (connack_from_packet_connack k) [
    | none ↦ (c, panicked)
    | some ca ↦
        if leb 128 ca.reason_code
        then (cleaned_up c, refused ca)
        else joined ca c (con_ack_received St w ccp k c.session)
  ]

  abbrev pub after_wait :
      (ℕ → Bool) → Connecting.Connect → Expected → Client → Client × ConnectResult
  after_wait w ccp (got k) c = connack_came w ccp k c
  after_wait w ccp not_got c = (cleaned_up c, no_connack)
  after_wait w ccp crashed c = (c, panicked)
  after_wait w ccp silent c = (cleaned_up c, context_done)

  -- Connect: `written` is whether the CONNECT goes out, `ended` whether the context ends before an
  -- answer is taken, and `w` whether the writes of ConAckReceived succeed. With no answer it does.
  unfoldable pub connect :
      Auther
      → (written ended : Bool) → List Event
      → (ℕ → Bool)
      → Connect
      → Client
      → Client × ConnectResult
  unfolding expect_connack connack_came
  connect h written ended es w cp c =
      if not c.has_connection
      then (c, nil_connection)
      else if c.connect_called
      then (c, called_twice)
      else if not written
      then (cleaned_up (prepared cp c), write_failed)
      else if ended
      then (cleaned_up (prepared cp c), context_done)
      else after_wait w (connect_packet_sent cp) (expect_connack h es) (prepared cp c)
