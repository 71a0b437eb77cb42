-- ===== src/Client/AcksTracker.antt =====
-- paho/acks_tracker.go. `flush` gives what it hands to its callback, which is nothing where the
-- callback is not called.
pub mod Order
use paho_golang.Common.{
  ℕ, ◌≡◌, refl, ap, ◌∙◌, List, [], ◌∷◌, ◌++◌, append_assoc, length, drop, Bool, true, false, ◌==◌,
  if◌then◌else◌, Option, none, some, Bool-cases, inl, inr, ◌≢◌, arith,
}
use paho_golang.Packets.Requests.{Publish}

pub record Packet : Type 0 where
  pub pb : Publish
  pub acknowledged : Bool

-- The tracker: its field `order`.
abbrev pub Tracker : Type 0
Tracker = List Packet

abbrev pub is_added : ℕ → Tracker → Bool
is_added id [] = false
is_added id (v ∷ order) = if v.pb.packet_id == id then true else is_added id order

-- add
pub add : Publish → Tracker → Tracker
add pb order =
    if is_added pb.packet_id order
    then order
    else order ++ record { pb = pb; acknowledged = false } ∷ []

-- markAsAcked; none is ErrPacketNotFound.
pub mark_as_acked : Publish → Tracker → Option Tracker
mark_as_acked pb [] = none
mark_as_acked pb (v ∷ order) =
    let rest = mark_as_acked pb order in
    if pb.packet_id == v.pb.packet_id
    then some (record v { acknowledged = true } ∷ order)
    else elim rest [ none ↦ none | some vs ↦ some (v ∷ vs) ]

-- The loop of flush.
unfoldable pub acked_prefix : Tracker → List Publish
acked_prefix [] = []
acked_prefix (v ∷ order) =
    let rest = acked_prefix order in if v.acknowledged then v.pb ∷ rest else []

-- flush
unfoldable pub flush : Tracker → List Publish × Tracker
unfolding acked_prefix
flush order = (acked_prefix order, drop (length (acked_prefix order)) order)

-- reset
pub reset : Tracker → Tracker
reset order = []
