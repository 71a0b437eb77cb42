-- ===== src/Session/SendQuota/Slots.antt =====
-- paho/session/state/sendquota.go. The slots that are held, against the quota: interleavings of
-- the calls of any number of publishers.
use paho_golang.Common.{ℕ, suc, ◌+◌, ◌≡◌, [], ◌⊎◌, Bool, true, false}
use paho_golang.Common.Int.{pos_part, neg_part}
use paho_golang.Session.SendQuota.{
  SendQuota, new_send_quota, acquire, retransmit, give_up, Outcome, woke, returned, unexpected,
  release,
}

-- The quota, with the number of slots that are held: by messages that were let through and by
-- those that are resent.
pub record Slots : Type 0 where
  pub send_quota : SendQuota
  pub held : ℕ

abbrev pub one_if : Bool → ℕ
one_if true = 1
one_if false = 0

abbrev pub woken : Outcome → ℕ
woken woke = 1
woken returned = 0
woken unexpected = 0

-- A new message asks for a slot.
abbrev pub asked : ℕ → Slots → Slots
asked ready s =
    let r = acquire ready false s.send_quota in
    record { send_quota = r.0; held = s.held + one_if r.1 }

-- A stored message is resent.
abbrev pub resent : Slots → Slots
resent s = record { send_quota = retransmit s.send_quota; held = s.held + 1 }

-- The context of a waiting publisher ends.
abbrev pub left : ℕ → Slots → Slots
left ready s = record s { send_quota = (give_up ready s.send_quota).0 }

-- A message that held a slot, besides `n` others, is done with it: the slot may pass to a waiter.
abbrev pub finished : ℕ → Slots → Slots
finished n s = let r = release s.send_quota in record { send_quota = r.0; held = n + woken r.1 }

pub data Step (s : Slots) : Slots → Type 0 where
  ask : (ready : ℕ) → Step s (asked ready s)
  resend : Step s (resent s)
  leave : (ready : ℕ) → Step s (left ready s)
  finish : (n : ℕ) → s.held ≡ suc n → Step s (finished n s)

pub data Reach (s : Slots) : Slots → Type 0 where
  here : Reach s s
  next : {t u : Slots} → Reach s t → Step t u → Reach s u

-- Each slot is held or left in the quota, and nobody waits while one is left.
pub record IsBalanced (s : Slots) : Type 0 where
  pub counted :
      pos_part s.send_quota.quota + s.held
      ≡ s.send_quota.initial_quota + neg_part s.send_quota.quota
  pub busy : (s.send_quota.waiters ≡ []) ⊎ (pos_part s.send_quota.quota ≡ 0)

abbrev pub start : ℕ → Slots
start n = record { send_quota = new_send_quota n; held = 0 }
