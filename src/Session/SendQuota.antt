-- ===== src/Session/SendQuota.antt =====
-- paho/session/state/sendquota.go. Each function is a step under the mutex. A channel is a number,
-- and `closed` holds the channels that were closed. `acquire` splits where it waits: what it does
-- before the `select`, and what it does when its context is done.
pub mod Slots
pub mod Balance
pub mod Maximum
pub mod Waiting
use paho_golang.Common.{
  ℕ, List, [], ◌∷◌, ◌++◌, Bool, true, false, not, ◌&&◌, ◌||◌, ◌==◌, if◌then◌else◌,
}
use paho_golang.Common.Int.{ℤ, pos, decrement, increment, is_positive, is_natural, is_below}

pub record SendQuota : Type 0 where
  pub initial_quota : ℕ
  pub quota : ℤ
  pub waiters : List ℕ
  pub closed : List ℕ

-- newSendQuota
unfoldable pub new_send_quota : ℕ → SendQuota
new_send_quota n = record { initial_quota = n; quota = pos n; waiters = []; closed = [] }

abbrev pub is_empty : List ℕ → Bool
is_empty [] = true
is_empty (w ∷ ws) = false

-- `acquire` up to the `select`, with its new channel `ready`: whether the slot is taken at once.
unfoldable pub acquire : ℕ → Bool → SendQuota → SendQuota × Bool
acquire ready no_wait s =
    if no_wait || (is_positive s.quota && is_empty s.waiters)
    then (record s { quota = decrement s.quota }, true)
    else (record s { waiters = s.waiters ++ ready ∷ [] }, false)

-- Retransmit, which never waits.
unfoldable pub retransmit : SendQuota → SendQuota
unfolding acquire
retransmit s = (acquire 0 true s).0

abbrev pub contains : List ℕ → ℕ → Bool
contains [] c = false
contains (d ∷ ds) c = c == d || contains ds c

-- The loop that takes `ready` out of the waiters.
pub remove : ℕ → List ℕ → List ℕ
remove ready [] = []
remove ready (r ∷ rs) = if ready == r then rs else r ∷ remove ready rs

-- The branch `<-ctx.Done()` of the `select`: whether the slot was granted after all.
pub give_up : ℕ → SendQuota → SendQuota × Bool
give_up ready s =
    if contains s.closed ready
    then (s, true)
    else (record s { waiters = remove ready s.waiters }, false)

pub data Outcome : Type 0 where
  woke returned unexpected : Outcome

-- Release where there are waiters, and otherwise; `unexpected` is ErrUnexpectedRelease.
unfoldable pub put_back : SendQuota → SendQuota × Outcome
put_back s =
    if is_below s.quota s.initial_quota
    then (record s { quota = increment s.quota }, returned)
    else (s, unexpected)

unfoldable pub release_to : List ℕ → SendQuota → SendQuota × Outcome
unfolding put_back
release_to [] s = put_back s
release_to (w ∷ ws) s =
    if is_natural s.quota
    then (record s { waiters = ws; closed = w ∷ s.closed }, woke)
    else put_back s

-- Release
unfoldable pub release : SendQuota → SendQuota × Outcome
unfolding release_to
release s = release_to s.waiters s
