-- ===== src/Session/PacketIds.antt =====
-- `allocateNextPacketId` of paho/session/state/state.go, with the two fields of `State` it uses.
pub mod Allocation
use paho_golang.Common.{
  ℕ, zero, suc, ◌+◌, ◌%◌, List, [], ◌∷◌, Bool, true, false, ◌||◌, ◌==◌, if◌then◌else◌, Option, none,
  some,
}

-- clientGenerated, with a number for its channel
pub record ClientGenerated : Type 0 where
  pub packet_type : ℕ
  pub response_chan : ℕ

-- `clientPackets` is a list of its keys and values.
pub record State : Type 0 where
  pub client_packets : List (ℕ × ClientGenerated)
  pub last_mid : ℕ

-- `_, ok := s.clientPackets[i]`
unfoldable pub in_use : List (ℕ × ClientGenerated) → ℕ → Bool
in_use [] i = false
in_use ((id, cg) ∷ ps) i = i == id || in_use ps i

-- The first loop, whose index wraps to 0 after 65535.
pub scan_up : ℕ → ℕ → List (ℕ × ClientGenerated) → Option ℕ
scan_up zero i ps = none
scan_up (suc fuel) i ps = elim (i == 0) [
  | true ↦ none
  | false ↦ elim (in_use ps i) [ true ↦ scan_up fuel ((i + 1) % 65536) ps | false ↦ some i ]
]

-- The second loop, with the rounds left: from `i + 1` on.
pub scan_again : ℕ → ℕ → List (ℕ × ClientGenerated) → Option ℕ
scan_again zero i ps = none
scan_again (suc rounds) i ps = elim (in_use ps (i + 1)) [
  | true ↦ scan_again rounds (i + 1) ps
  | false ↦ some (i + 1)
]

abbrev pub take_id : ClientGenerated → State → ℕ → State × Option ℕ
take_id cg s id = (record { client_packets = (id, cg) ∷ s.client_packets; last_mid = id }, some id)

-- The result of the second loop; none is ErrPacketIdentifiersExhausted.
pub allocate_again : ClientGenerated → State → Option ℕ → State × Option ℕ
allocate_again cg s (some id) = take_id cg s id
allocate_again cg s none = (s, none)

-- The result of the first loop.
pub allocate_up : ClientGenerated → State → Option ℕ → State × Option ℕ
unfolding allocate_again scan_again
allocate_up cg s (some id) = take_id cg s id
allocate_up cg s none =
    if s.last_mid == 0
    then (record s { last_mid = 1 }, none)
    else allocate_again cg s (scan_again s.last_mid 0 s.client_packets)

pub allocate_next_packet_id : ClientGenerated → State → State × Option ℕ
unfolding allocate_up scan_up
allocate_next_packet_id cg s =
    allocate_up cg s (scan_up 65536 ((s.last_mid + 1) % 65536) s.client_packets)
