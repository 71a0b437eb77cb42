-- ===== src/Extensions/MemoryQueue.antt =====
-- autopaho/queue/memory/queue.go. A channel is a number; `closed` lists those that have been closed.
-- Each operation holds the mutex from its first look at the queue to its last.
pub mod Order
use paho_golang.Common.{ℕ, List, [], ◌∷◌, ◌++◌, Bool, true, false, Option, none, some}
use paho_golang.Packets.Result.{Bytes}

pub record Queue : Type 0 where
  pub messages : List Bytes
  pub waiting : List ℕ
  pub waiting_for_empty : List ℕ
  pub closed : List ℕ

-- New
unfoldable pub new : Queue
new = record { messages = []; waiting = []; waiting_for_empty = []; closed = [] }

-- Wait, which returns the new channel `c`.
unfoldable pub wait : ℕ → Queue → Queue
wait c q = elim (q.messages) [
  | [] ↦ record q { waiting = q.waiting ++ c ∷ [] }
  | m ∷ ms ↦ record q { closed = q.closed ++ c ∷ [] }
]

-- WaitForEmpty
unfoldable pub wait_for_empty : ℕ → Queue → Queue
wait_for_empty c q = elim (q.messages) [
  | [] ↦ record q { closed = q.closed ++ c ∷ [] }
  | m ∷ ms ↦ record q { waiting_for_empty = q.waiting_for_empty ++ c ∷ [] }
]

-- Enqueue of what the reader gives; none is an error of the reader, which changes nothing.
unfoldable pub enqueue : Option Bytes → Queue → Queue
enqueue none q = q
enqueue (some p) q = record q {
  messages = q.messages ++ p ∷ [];
  closed = q.closed ++ q.waiting;
  waiting = [];
}

-- Peek and Reader; none is ErrEmpty.
unfoldable pub peek : Queue → Option Bytes
peek q = elim (q.messages) [ [] ↦ none | m ∷ ms ↦ some m ]

-- `for _, c := range q.waitingForEmpty { close(c) }`, and the reset of the slice.
abbrev pub close_empty : Queue → Queue
close_empty q = record q { closed = q.closed ++ q.waiting_for_empty; waiting_for_empty = [] }

-- remove, with Remove and Quarantine, which call it: whether it went without ErrEmpty.
unfoldable pub remove : Queue → Queue × Bool
remove q = elim (q.messages) [
  | [] ↦ (close_empty q, false)
  | m ∷ ms ↦ elim ms [
    | [] ↦ (close_empty (record q { messages = [] }), true)
    | n ∷ ns ↦ (record q { messages = n ∷ ns }, true)
  ]
]
