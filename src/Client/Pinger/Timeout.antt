-- ===== src/Client/Pinger/Timeout.antt =====
-- paho/pinger.go: a connection on which PINGRESP does not come.
use paho_golang.Common.{
  ℕ, ◌+◌, ◌≡◌, ◌≤◌, ◌<◌, refl, ap, ◌∙◌, List, [], ◌∷◌, ◌++◌, Bool, true, false, ltb-false,
  if◌then◌else◌, arith,
}
use paho_golang.Client.Pinger.{
  Event, context_done, write_failed, timer, packet_sent, packet_received, ping_resp,
  ping_resp_timed_out, waiting, Loop, ping_due, is_unanswered, ping_or_wait, run_loop,
}

-- A call of PacketSent, PacketReceived or PingResp, not before the time `from`.
abbrev pub IsCall : ℕ → Event → Type 0
IsCall from (packet_sent n) = from ≤ n
IsCall from (packet_received n) = from ≤ n
IsCall from (ping_resp n) = from ≤ n
IsCall from e = ⊥

abbrev pub AllCalls : ℕ → List Event → Type 0
AllCalls from [] = Unit {0}
AllCalls from (e ∷ es) = IsCall from e × AllCalls from es

abbrev pub has_response : List Event → Bool
has_response [] = false
has_response (ping_resp n ∷ es) = true
has_response (e ∷ es) = has_response es

is_unanswered-answered :
    (r : Loop) → r.last_ping_sent ≤ r.pinger.last_ping_response → is_unanswered r ≡ false
unfolding is_unanswered
is_unanswered-answered r h = ground arith

is_unanswered-pinged :
    (r : Loop) → r.pinger.last_ping_response < r.last_ping_sent → is_unanswered r ≡ true
unfolding is_unanswered
is_unanswered-pinged r h = ground arith

run_loop-quiet :
    (interval t now : ℕ) (es : List Event) (r : Loop)
    → is_unanswered r ≡ false
    → run_loop interval (timer t now ∷ es) r ≡ run_loop interval es (ping_or_wait interval t now r)
unfolding run_loop
run_loop-quiet interval t now es r quiet = rw (run_loop, quiet) refl

run_loop-late :
    (interval t now : ℕ) (es : List Event) (r : Loop)
    → is_unanswered r ≡ true
    → run_loop interval (timer t now ∷ es) r ≡ (r, ping_resp_timed_out)
unfolding run_loop
run_loop-late interval t now es r late = rw (run_loop, late) refl

module _ (interval t now : ℕ) where
  answered-waits :
      (es : List Event) (r : Loop)
      → AllCalls r.last_ping_sent es
      → r.last_ping_sent ≤ r.pinger.last_ping_response
      → (run_loop interval (es ++ timer t now ∷ []) r).1 ≡ waiting
  unfolding run_loop
  answered-waits [] r all h =
      ap (λ o. o.1) (run_loop-quiet interval t now [] r (is_unanswered-answered r h))
  answered-waits (packet_sent n ∷ es) r (from, all) h =
      answered-waits es (record r { pinger = record r.pinger { last_packet_sent = n } }) all h
  answered-waits (packet_received n ∷ es) r (from, all) h =
      answered-waits es (record r { pinger = record r.pinger { last_packet_received = n } }) all h
  answered-waits (ping_resp n ∷ es) r (from, all) h =
      answered-waits es (record r { pinger = record r.pinger { last_ping_response = n } }) all from
  answered-waits (context_done ∷ es) r (none_such, all) h = elim none_such [ ]
  answered-waits (write_failed ∷ es) r (none_such, all) h = elim none_such [ ]
  answered-waits (timer a b ∷ es) r (none_such, all) h = elim none_such [ ]

  unanswered-ends :
      (es : List Event) (r : Loop)
      → AllCalls r.last_ping_sent es
      → is_unanswered r ≡ true
      → (run_loop interval (es ++ timer t now ∷ []) r).1
        ≡ (if has_response es then waiting else ping_resp_timed_out)
  unfolding run_loop is_unanswered
  unanswered-ends [] r all h = ap (λ o. o.1) (run_loop-late interval t now [] r h)
  unanswered-ends (packet_sent n ∷ es) r (from, all) h =
      unanswered-ends es (record r { pinger = record r.pinger { last_packet_sent = n } }) all h
  unanswered-ends (packet_received n ∷ es) r (from, all) h =
      unanswered-ends es (record r { pinger = record r.pinger { last_packet_received = n } }) all h
  unanswered-ends (ping_resp n ∷ es) r (from, all) h =
      answered-waits es (record r { pinger = record r.pinger { last_ping_response = n } }) all from
  unanswered-ends (context_done ∷ es) r (none_such, all) h = elim none_such [ ]
  unanswered-ends (write_failed ∷ es) r (none_such, all) h = elim none_such [ ]
  unanswered-ends (timer a b ∷ es) r (none_such, all) h = elim none_such [ ]

-- After a PINGREQ that is due, when the last one was answered, the next firing of the timer ends Run
-- with a timeout unless a PINGRESP came in between, whatever else was sent or received. The clock is
-- later than the last PINGRESP and does not go back.
pub missing_response_noticed :
    (interval t now t' now' : ℕ) (es : List Event) (r : Loop)
    → is_unanswered r ≡ false
    → ping_due interval r.pinger ≤ t
    → r.pinger.last_ping_response < now
    → AllCalls now es
    → (run_loop interval (timer t now ∷ es ++ timer t' now' ∷ []) r).1
      ≡ (if has_response es then waiting else ping_resp_timed_out)
unfolding ping_or_wait
missing_response_noticed interval t now t' now' es r quiet due later all =
    let pinged : Loop = record r { last_ping_sent = now; wait = interval; pings = r.pings + 1 } in
    let pings : ping_or_wait interval t now r ≡ pinged =
      rw (ltb-false t (ping_due interval r.pinger) due) refl in
    ap (λ o. o.1) (run_loop-quiet interval t now (es ++ timer t' now' ∷ []) r quiet)
    ∙ ap (λ l. (run_loop interval (es ++ timer t' now' ∷ []) l).1) pings
    ∙ unanswered-ends interval t' now' es pinged all (is_unanswered-pinged pinged later)
