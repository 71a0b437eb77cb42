-- ===== src/Session/State/Tidying.antt =====
-- paho/session/state/state.go: tidy, which nothing calls, and AllocateClientPacketIDForTest. The
-- maps are visited in the order of their lists.
use paho_golang.Common.{
  ℕ, List, [], ◌∷◌, ◌++◌, Option, some, none, Bool, true, false, ◌==◌, if◌then◌else◌,
}
use paho_golang.Common.Maps.{insert}
use paho_golang.Packets.Types.{publish, pubrec}
use paho_golang.Packets.Control.{ControlPacket}
use paho_golang.Session.PacketIds.{ClientGenerated}
use paho_golang.Session.Storer.{Storer}
use paho_golang.Session.State.{Session, or_same}

-- What tidy keeps of the packets of the server, and of those of the client.
abbrev pub kept_of_server : List (ℕ × ℕ) → List (ℕ × ℕ)
kept_of_server [] = []
kept_of_server ((id, type) ∷ ps) =
    let rest = kept_of_server ps in if type == pubrec then (id, type) ∷ rest else rest

abbrev pub kept_of_client : List (ℕ × ClientGenerated) → List (ℕ × ClientGenerated)
kept_of_client [] = []
kept_of_client ((id, cg) ∷ ps) =
    let rest = kept_of_client ps in if cg.packet_type == publish then (id, cg) ∷ rest else rest

abbrev pub released_answers : List (ℕ × ClientGenerated) → List (ℕ × Option ControlPacket)
released_answers [] = []
released_answers ((id, cg) ∷ ps) =
    let rest = released_answers ps in
    if cg.packet_type == publish then rest else (cg.response_chan, none) ∷ rest

module _ (St : Storer) where
  abbrev pub without_deleted : ℕ → Bool → St.Store → St.Store
  without_deleted id true m = m
  without_deleted id false m = or_same m (St.delete id m)

  abbrev pub tidy_server_store : List (ℕ × ℕ) → St.Store → St.Store
  tidy_server_store [] m = m
  tidy_server_store ((id, type) ∷ ps) m =
      tidy_server_store ps (without_deleted id (type == pubrec) m)

  abbrev pub tidy_client_store : List (ℕ × ClientGenerated) → St.Store → St.Store
  tidy_client_store [] m = m
  tidy_client_store ((id, cg) ∷ ps) m =
      tidy_client_store ps (without_deleted id (cg.packet_type == publish) m)

  abbrev pub tidy_server : Option (List (ℕ × ℕ)) → Session St → Session St
  tidy_server none s = s
  tidy_server (some ps) s = record s {
    server_packets = some (kept_of_server ps);
    server_store = tidy_server_store ps s.server_store;
  }

  -- tidy
  unfoldable pub tidy : Session St → Session St
  tidy s =
      let ps = s.ids.client_packets in
      record (tidy_server s.server_packets s) {
        ids = record s.ids { client_packets = kept_of_client ps };
        client_store = tidy_client_store ps s.client_store;
        answers = s.answers ++ released_answers ps;
      }

  -- AllocateClientPacketIDForTest
  unfoldable pub allocate_client_packet_id_for_test : ℕ → ℕ → ℕ → Session St → Session St
  allocate_client_packet_id_for_test packet_id for_packet_type resp s = record s {
    ids = record s.ids {
      client_packets =
          insert packet_id (record { packet_type = for_packet_type; response_chan = resp })
            s.ids.client_packets;
    };
  }
