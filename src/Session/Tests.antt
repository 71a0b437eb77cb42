-- ===== src/Session/Tests.antt =====
-- The session state at concrete states.
use mathlib.Core.List.{Permᴰ}
use paho_golang.Common.{ℕ, ◌+◌, ◌≤◌, ◌≡◌, ◌≢◌, refl, List, [], ◌∷◌, true, false, none, some, arith}
use paho_golang.Common.Int.{pos, negsuc, decrement}
use paho_golang.Session.SendQuota.{SendQuota, acquire, release, new_send_quota, woke, unexpected}
use paho_golang.Session.SendQuota.Slots.{Slots, Reach, here, next, ask, start, asked, finished}
use paho_golang.Session.SendQuota.Maximum.{asked_maximum, finished_maximum}
use paho_golang.Session.SendQuota.Waiting.{releases, woken_in_order, releases_wake_waiters}
use paho_golang.Session.PacketIds.{ClientGenerated, State, in_use, allocate_next_packet_id}
use paho_golang.Session.PacketIds.Allocation.{allocate_gives_free}
use paho_golang.Session.MemoryStore.{
  MemoryPacket, int_zero, next_counter, new_store, list, get, put, erase,
}
use paho_golang.Session.MemoryStore.Order.{Op, put_call, run, put_order, list_in_put_order}
use paho_golang.Session.MemoryStore.Contents.{promised, get-promised}

-- A quota of one slot: one message takes it and another waits.
abbrev one_waits : Slots
one_waits = asked 5 (asked 4 (start 1))

one_waits_reached : Reach (start 1) one_waits
one_waits_reached = next (next here (ask 4)) (ask 5)

one_waits_held : one_waits.held ≡ 1
unfolding acquire new_send_quota decrement
one_waits_held = refl

taken_at_once : (acquire 4 false (start 1).send_quota).1 ≡ true
unfolding acquire new_send_quota
taken_at_once = refl

asked_maximum_example : (asked 4 (start 1)).held ≤ 1
asked_maximum_example = asked_maximum 1 4 (start 1) here taken_at_once

finished_maximum_example :
    ((release one_waits.send_quota).1 ≢ unexpected)
    × ((release one_waits.send_quota).1 ≡ woke → (finished 0 one_waits).held ≤ 1)
finished_maximum_example = finished_maximum 1 0 one_waits one_waits_reached one_waits_held

-- A quota that two resent messages have overdrawn, and two publishers that wait.
abbrev overdrawn : SendQuota
overdrawn = record { initial_quota = 1; quota = negsuc 0; waiters = 4 ∷ 5 ∷ []; closed = [] }

releases_wake_waiters_example :
    releases (1 + 2) overdrawn
    ≡ record overdrawn { quota = pos 0; waiters = []; closed = woken_in_order (4 ∷ 5 ∷ []) [] }
releases_wake_waiters_example = releases_wake_waiters overdrawn

-- The last identifier is the largest, and 1 is in use.
abbrev publishing : ClientGenerated
publishing = record { packet_type = 3; response_chan = 0 }

abbrev at_the_end : State
at_the_end = record { client_packets = (1, publishing) ∷ []; last_mid = 65535 }

two_is_free : in_use at_the_end.client_packets 2 ≡ false
unfolding in_use
two_is_free = refl

allocate_gives_free_example :
    (id : ℕ) × (1 ≤ id)
    × (id ≤ 65535)
    × (in_use at_the_end.client_packets id ≡ false)
    × (allocate_next_packet_id publishing at_the_end ≡ (
      record { client_packets = (id, publishing) ∷ at_the_end.client_packets; last_mid = id },
      some id,
    ))
allocate_gives_free_example =
    allocate_gives_free publishing at_the_end 2 (omega arith) (omega arith) (omega arith)
      two_is_free

-- The first message is put again behind the second.
abbrev calls : List Op
calls = put_call 1 3 (7 ∷ []) ∷ put_call 2 3 (8 ∷ []) ∷ put_call 1 6 (9 ∷ []) ∷ []

abbrev second_entry : ℕ × MemoryPacket
second_entry = (2, record { c = int_zero + 1; p = 8 ∷ [] })

abbrev first_entry : ℕ × MemoryPacket
first_entry = (1, record { c = int_zero + 2; p = 9 ∷ [] })

visited : Permᴰ (first_entry ∷ second_entry ∷ []) (run calls new_store).data_map
unfolding new_store put next_counter erase
visited = Permᴰ.swap refl refl

list_in_put_order_example : list (first_entry ∷ second_entry ∷ []) ≡ put_order calls []
list_in_put_order_example =
    list_in_put_order calls (first_entry ∷ second_entry ∷ []) (omega arith) visited

get-promised_example : get 1 (run calls new_store) ≡ promised calls 1 none
get-promised_example = get-promised calls 1
