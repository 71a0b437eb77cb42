-- ===== src/Client/Pinger.antt =====
-- paho/pinger.go. A time is a number of nanoseconds, and the zero time is 0. What happens to the
-- pinger is the list of its events, each with the times that the code reads from the clock.
use paho_golang.Common.{
  ℕ, ◌+◌, ◌*◌, ◌-◌, List, [], ◌∷◌, Bool, true, false, not, ◌&&◌, ◌==◌, ltb, if◌then◌else◌,
}
pub mod Timeout

-- DefaultPinger
pub record Pinger : Type 0 where
  pub last_packet_sent : ℕ
  pub last_packet_received : ℕ
  pub last_ping_response : ℕ
  pub running : Bool

-- What Run waits for, and the calls of PacketSent, PacketReceived and PingResp in between. `timer`
-- has the time that the timer sends and the time at which a PINGREQ is written.
pub data Event : Type 0 where
  context_done write_failed : Event
  timer : ℕ → ℕ → Event
  packet_sent packet_received ping_resp : ℕ → Event

-- How Run returns; `waiting` is that it has not.
pub data RunResult : Type 0 where
  not_needed no_connection already_running stopped : RunResult
  ping_resp_timed_out ping_not_sent waiting : RunResult

-- The variables of Run, with what the timer was set to last and the number of PINGREQs.
pub record Loop : Type 0 where
  pub pinger : Pinger
  pub last_ping_sent : ℕ
  pub wait : ℕ
  pub pings : ℕ

unfoldable pub ping_due : ℕ → Pinger → ℕ
ping_due interval p =
    if ltb p.last_packet_sent p.last_packet_received
    then p.last_packet_sent + interval
    else p.last_packet_received + interval

unfoldable pub is_unanswered : Loop → Bool
is_unanswered r = not (r.last_ping_sent == 0) && ltb r.pinger.last_ping_response r.last_ping_sent

-- The case of the timer in Run, unless the PINGRESP timed out.
unfoldable pub ping_or_wait : ℕ → ℕ → ℕ → Loop → Loop
unfolding ping_due
ping_or_wait interval t now r =
    let due = ping_due interval r.pinger in
    if ltb t due
    then record r { wait = due - t }
    else record r { last_ping_sent = now; wait = interval; pings = r.pings + 1 }

-- The loop of Run.
unfoldable pub run_loop : ℕ → List Event → Loop → Loop × RunResult
unfolding is_unanswered ping_or_wait
run_loop interval [] r = (r, waiting)
run_loop interval (context_done ∷ es) r = (r, stopped)
run_loop interval (write_failed ∷ es) r = (r, ping_not_sent)
run_loop interval (timer t now ∷ es) r = elim (is_unanswered r) [
  | true ↦ (r, ping_resp_timed_out)
  | false ↦ run_loop interval es (ping_or_wait interval t now r)
]
run_loop interval (packet_sent n ∷ es) r =
    run_loop interval es (record r { pinger = record r.pinger { last_packet_sent = n } })
run_loop interval (packet_received n ∷ es) r =
    run_loop interval es (record r { pinger = record r.pinger { last_packet_received = n } })
run_loop interval (ping_resp n ∷ es) r =
    run_loop interval es (record r { pinger = record r.pinger { last_ping_response = n } })

abbrev pub returned : Loop × RunResult → Pinger × RunResult
returned (r, waiting) = (r.pinger, waiting)
returned (r, result) = (record r.pinger { running = false }, result)

-- Run
unfoldable pub run : ℕ → Bool → List Event → Pinger → Pinger × RunResult
unfolding run_loop
run keep_alive has_conn es p =
    if keep_alive == 0
    then (p, not_needed)
    else if not has_conn
    then (p, no_connection)
    else if p.running
    then (p, already_running)
    else returned (
        run_loop (keep_alive * 1000000000) es (record {
          pinger = record p { running = true };
          last_ping_sent = 0;
          wait = 0;
          pings = 0;
        }))
