-- ===== src/Extensions/MemoryQueue/Order.antt =====
-- autopaho/queue/memory/queue.go: sequences of calls.
use paho_golang.Common.{ℕ, ◌≡◌, List, [], ◌∷◌, ◌++◌, Option, none, some}
use paho_golang.Packets.Result.{Bytes}
use paho_golang.Extensions.MemoryQueue.{Queue, new, wait, wait_for_empty, enqueue, peek, remove}

-- The calls that change a queue; Remove and Quarantine are one.
pub data Call : Type 0 where
  calls_wait calls_wait_for_empty : ℕ → Call
  calls_enqueue : Option Bytes → Call
  calls_remove : Call

unfoldable pub call : Call → Queue → Queue
unfolding wait wait_for_empty enqueue remove
call (calls_wait c) q = wait c q
call (calls_wait_for_empty c) q = wait_for_empty c q
call (calls_enqueue p) q = enqueue p q
call calls_remove q = (remove q).0

-- What a call puts into the queue, and what it takes out.
unfoldable pub put_by : Call → List Bytes
put_by (calls_enqueue (some p)) = p ∷ []
put_by k = []

unfoldable pub taken_by : Call → Queue → List Bytes
unfolding peek
taken_by calls_remove q = elim (peek q) [ none ↦ [] | some m ↦ m ∷ [] ]
taken_by k q = []

-- The queue after some calls on a new one, with what was put in and what was taken out.
pub data Run : Queue → (put taken : List Bytes) → Type 0 where
  starts : Run new [] []
  then_calls :
      {q : Queue} {put taken : List Bytes}
      → Run q put taken
      → (k : Call) → Run (call k q) (put ++ put_by k) (taken ++ taken_by k q)

-- Nobody waits for a message while there is one, nor for an empty queue while it is empty.
abbrev pub NobodyMisses : Queue → Type 0
NobodyMisses q = elim (q.messages) [ [] ↦ q.waiting_for_empty ≡ [] | m ∷ ms ↦ q.waiting ≡ [] ]

abbrev queue : List Bytes → (waiting waiting_for_empty closed : List ℕ) → Queue
queue ms w e c = record { messages = ms; waiting = w; waiting_for_empty = e; closed = c }
