-- ===== src/Client/Running/Connections.antt =====
-- paho/client.go: Connect, by the way it ends.
use paho_golang.Common.{
  ℕ, ◌≡◌, refl, ◌≤◌, ◌<◌, inl, inr, List, Bool, true, false, not, some, Option-cases, if_each, leb,
  arith,
}
use paho_golang.Packets.Replies
use paho_golang.Session.Storer.{Storer}
use paho_golang.Session.State.{Session, Report, fine, write_failed, bad_call, write_panicked}
use paho_golang.Session.State.Connected.{con_ack_received}
use paho_golang.Client.Negotiated.{server_told}
use paho_golang.Client.Conversions.Connections.{Connect}
use paho_golang.Client.Conversions.Answers.{Connack, connack_from_packet_connack}
use paho_golang.Client.Running.{
  Auther, Event, Expected, got, not_got, crashed, silent, expect_connack, ConnectResult, connected,
  refused, session_failed, nil_connection, called_twice, context_done, no_connack, panicked,
  connect_packet_sent, Client, prepared, joined, told, cleaned_up, connack_came, after_wait,
  connect,
}
use paho_golang.Client.Running

module _ (St : Storer) (h : Auther) (es : List Event) (w : ℕ → Bool) (cp : Connect)
    (c : Client St) where
  -- The client `c'` after a connection was made, told by the CONNACK `ca`.
  pub record IsConnected (c' : Client St) (ca : Connack) : Type 0 where
    pub packet : Replies.Connack
    pub was_awaited : expect_connack h es ≡ got packet
    pub is_converted : connack_from_packet_connack packet ≡ some ca
    pub is_accepted : ca.reason_code < 128
    pub session_joined :
        con_ack_received St w (connect_packet_sent cp) packet c.session ≡ (c'.session, fine)
    pub limits_told : c'.server_props ≡ server_told ca c.server_props
    pub stays_open : c'.connection_open ≡ c.connection_open

  -- The client after no connection was made: closed for good, with the session it had.
  pub record IsGivenUp (c' : Client St) : Type 0 where
    pub is_closed : c'.connection_open ≡ false
    pub is_spent : c'.connect_called ≡ true
    pub session_kept : c'.session ≡ c.session

  -- What each end of Connect comes with; nothing is said of a panic.
  abbrev pub EndsAs : Client St × ConnectResult → Type 0
  EndsAs (c', connected ca) = IsConnected c' ca
  EndsAs (c', refused ca) = IsGivenUp c' × (128 ≤ ca.reason_code)
  EndsAs (c', session_failed ca r) = c'.connection_open ≡ false
  EndsAs (c', nil_connection) = (c.has_connection ≡ false) × (c' ≡ c)
  EndsAs (c', called_twice) = (c.connect_called ≡ true) × (c' ≡ c)
  EndsAs (c', Running.write_failed) = IsGivenUp c'
  EndsAs (c', context_done) = IsGivenUp c'
  EndsAs (c', no_connack) = IsGivenUp c'
  EndsAs (c', panicked) = Unit {0}

  given_up : IsGivenUp (cleaned_up St (prepared St cp c))
  given_up = record { is_closed = refl; is_spent = refl; session_kept = refl }

  joined-EndsAs :
      (k : Replies.Connack) (ca : Connack) (r : Session St × Report)
      → expect_connack h es ≡ got k
      → connack_from_packet_connack k ≡ some ca
      → ca.reason_code < 128
      → con_ack_received St w (connect_packet_sent cp) k c.session ≡ r
      → EndsAs (joined St ca (prepared St cp c) r)
  joined-EndsAs k ca (s, fine) awaited converted accepted e = record {
    packet = k;
    was_awaited = awaited;
    is_converted = converted;
    is_accepted = accepted;
    session_joined = e;
    limits_told = refl;
    stays_open = refl;
  }
  joined-EndsAs k ca (s, write_failed) awaited converted accepted e = refl
  joined-EndsAs k ca (s, bad_call) awaited converted accepted e = refl
  joined-EndsAs k ca (s, write_panicked) awaited converted accepted e = refl

  connack_came-EndsAs :
      (k : Replies.Connack)
      → expect_connack h es ≡ got k
      → EndsAs (connack_came St w (connect_packet_sent cp) k (prepared St cp c))
  unfolding connack_came
  connack_came-EndsAs k awaited = elim (Option-cases (connack_from_packet_connack k)) [
    | inl e ↦ rw (connack_came, e) (record {})
    | inr (ca, e) ↦
        rw (connack_came, e)
          (if_each EndsAs (leb 128 ca.reason_code) (λ f. (given_up, ground arith))
            (λ f. joined-EndsAs k ca _ awaited e (ground arith) refl))
  ]

  after_wait-EndsAs :
      (x : Expected)
      → expect_connack h es ≡ x
      → EndsAs (after_wait St w (connect_packet_sent cp) x (prepared St cp c))
  after_wait-EndsAs (got k) e = connack_came-EndsAs k e
  after_wait-EndsAs not_got e = given_up
  after_wait-EndsAs crashed e = record {}
  after_wait-EndsAs silent e = given_up

  -- Connect makes a connection only by an awaited CONNACK with a reason code below 128 that the
  -- session took without an error, with its limits. Else, unless it panics, the connection is
  -- closed and, unless the session failed, the session kept; without a connection to use, or on a
  -- second call, nothing changes.
  pub connect-EndsAs : (written ended : Bool) → EndsAs (connect St h written ended es w cp c)
  unfolding connect
  connect-EndsAs written ended =
      if_each EndsAs (not c.has_connection) (λ e. (ground arith, refl))
        (λ e.
          if_each EndsAs c.connect_called (λ f. (f, refl))
            (λ f.
              if_each EndsAs (not written) (λ g. given_up)
                (λ g. if_each EndsAs ended (λ i. given_up) (λ i. after_wait-EndsAs _ refl))))
