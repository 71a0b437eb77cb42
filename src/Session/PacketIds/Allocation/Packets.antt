-- ===== src/Session/PacketIds/Allocation/Packets.antt =====
-- paho/session/state/state.go: allocateNextPacketId, by what it leaves in clientPackets.
use mathlib.Core.Option.{some-injective, none-ne-some}
use paho_golang.Common.{ℕ, ◌≤◌, ◌≡◌, sym, ap, ◌∙◌, ◌∷◌, true, false, Option, none, some}
use paho_golang.Session.PacketIds.{ClientGenerated, State, in_use, allocate_next_packet_id}
use paho_golang.Session.PacketIds.Allocation.{Search, Allocated, allocate-Allocated}

-- Every identifier from 1 to 65535 is in use.
abbrev pub AllInUse : State → Type 0
AllInUse s = (id : ℕ) → 1 ≤ id → id ≤ 65535 → in_use s.client_packets id ≡ true

failed_packets :
    (cg : ClientGenerated) (s : State) (r : State × Option ℕ)
    → Allocated cg s r
    → r.1 ≡ none
    → AllInUse s × (r.0.client_packets ≡ s.client_packets)
unfolding Allocated Search
failed_packets cg s (t, none) (f, same) e = (f, same)
failed_packets cg s (t, some id) a e = absurd (none-ne-some id (sym e))

-- An identifier from 1 to 65535 that was free is taken, and no other entry changes.
pub record Taken (cg : ClientGenerated) (s : State) (id : ℕ) (t : State) : Type 0 where
  pub low : 1 ≤ id
  pub high : id ≤ 65535
  pub was_free : in_use s.client_packets id ≡ false
  pub packets : t.client_packets ≡ (id, cg) ∷ s.client_packets

Allocated-Taken :
    (cg : ClientGenerated) (s : State) (r : State × Option ℕ) (id : ℕ)
    → Allocated cg s r
    → r.1 ≡ some id
    → Taken cg s id r.0
unfolding Allocated Search
Allocated-Taken cg s (t, none) id a e = absurd (none-ne-some id e)
Allocated-Taken cg s (t, some j) id ((low, high, free), same) e =
    let at = some-injective _ _ e in
    record {
      low = rw (sym at) low;
      high = rw (sym at) high;
      was_free = ap (in_use s.client_packets) (sym at) ∙ free;
      packets = ap (λ (u : State). u.client_packets) same ∙ ap (λ k. (k, cg) ∷ s.client_packets) at;
    }

-- A search without a result found all in use and leaves the packets; one with a result adds its
-- entry, which was free.
pub allocate-client_packets :
    (cg : ClientGenerated) (s : State)
    → s.last_mid ≤ 65535
    → let r = allocate_next_packet_id cg s in
      (r.1 ≡ none → AllInUse s × (r.0.client_packets ≡ s.client_packets))
      × ((id : ℕ) → r.1 ≡ some id → Taken cg s id r.0)
allocate-client_packets cg s h =
    let a = allocate-Allocated cg s h in
    (failed_packets cg s _ a, λ id. Allocated-Taken cg s _ id a)
