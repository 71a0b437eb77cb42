-- ===== src/Session/MemoryStore.antt =====
-- paho/store/memory/store.go. A Go map is a list of its keys and values; `range` may visit them in
-- any order, so `list` takes the entries in the order of the visit. The counters are a Go int of 64
-- bits, which wraps; the number 2^63 above it stands for it, which keeps the order.
pub mod Sorting
pub mod Ascending
pub mod Order
pub mod Contents
use paho_golang.Common.{
  ℕ, zero, suc, ◌+◌, ◌%◌, ◌^◌, List, [], ◌∷◌, ◌++◌, Bool, true, false, ◌==◌, if◌then◌else◌, Option,
  none, some, ltb, take, drop,
}
use paho_golang.Packets.Result.{Bytes}

pub record MemoryPacket : Type 0 where
  pub c : ℕ
  pub p : Bytes

pub record Store : Type 0 where
  pub data_map : List (ℕ × MemoryPacket)
  pub counter : ℕ

-- The int 0.
abbrev pub int_zero : ℕ
int_zero = 2 ^ 63

-- m.c++
unfoldable pub next_counter : ℕ → ℕ
next_counter c = (c + 1) % 2 ^ 64

-- New
unfoldable pub new_store : Store
new_store = record { data_map = []; counter = int_zero }

unfoldable pub find : ℕ → List (ℕ × MemoryPacket) → Option MemoryPacket
find id [] = none
find id ((k, v) ∷ es) = if id == k then some v else find id es

-- delete(m.data, id)
unfoldable pub erase : ℕ → List (ℕ × MemoryPacket) → List (ℕ × MemoryPacket)
erase id [] = []
erase id ((k, v) ∷ es) = let rest = erase id es in if id == k then rest else (k, v) ∷ rest

-- Put, with what `w.WriteTo` wrote; none is a panic.
unfoldable pub put : ℕ → ℕ → Option Bytes → Store → Option Store
unfolding erase next_counter
put packet_id packet_type none m = none
put packet_id packet_type (some buff) m = some (record {
  data_map = erase packet_id m.data_map ++ (packet_id, record { c = m.counter; p = buff }) ∷ [];
  counter = next_counter m.counter;
})

-- Get; none is ErrNotInStore.
unfoldable pub get : ℕ → Store → Option Bytes
unfolding find
get packet_id m = elim (find packet_id m.data_map) [ none ↦ none | some d ↦ some d.p ]

-- Delete; none is the error for a packet that is not found.
pub delete : ℕ → Store → Option Store
unfolding find erase
delete id m = elim (find id m.data_map) [
  | none ↦ none
  | some d ↦ some (record m { data_map = erase id m.data_map })
]

-- Quarantine
pub quarantine : ℕ → Store → Option Store
unfolding delete
quarantine id m = delete id m

-- The inner loop of List.
unfoldable pub position : ℕ → List ℕ → ℕ
position c [] = 0
position c (s ∷ seq) = if ltb c s then 0 else suc (position c seq)

abbrev pub insert_at {ℓ} : {A : Type ℓ} → ℕ → A → List A → List A
insert_at pos x xs = take pos xs ++ x ∷ drop pos xs

-- The outer loop of List, from the identifiers and the counters so far.
unfoldable pub list_loop : List (ℕ × MemoryPacket) → List ℕ → List ℕ → List ℕ
unfolding position
list_loop [] ids seq = ids
list_loop ((i, v) ∷ es) ids seq =
    let pos = position v.c seq in list_loop es (insert_at pos i ids) (insert_at pos v.c seq)

-- List
unfoldable pub list : List (ℕ × MemoryPacket) → List ℕ
unfolding list_loop
list es = list_loop es [] []

-- Reset
pub reset : Store → Store
reset m = record m { data_map = [] }
