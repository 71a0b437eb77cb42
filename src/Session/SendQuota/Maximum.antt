-- ===== src/Session/SendQuota/Maximum.antt =====
-- paho/session/state/sendquota.go. The states that can be reached from a new quota.
use paho_golang.Common.{
  ◌∙◌, Bool-cases, ℕ, zero, suc, ◌≤◌, ◌<◌, ◌≡◌, refl, List, [], ◌∷◌, ◌≢◌, inl, inr, Bool, true,
  false, ◌&&◌, arith,
}
use paho_golang.Common.Int.{ℤ, pos, negsuc, pos_part, neg_part, is_positive}
use paho_golang.Session.SendQuota.{
  SendQuota, new_send_quota, is_empty, acquire, retransmit, give_up, woke, unexpected, put_back,
  release_to, release,
}
use paho_golang.Session.SendQuota.Slots.{
  Slots, asked, finished, ask, resend, leave, finish, Reach, here, next, IsBalanced, start,
}
use paho_golang.Session.SendQuota.Balance.{
  Expected, start-IsBalanced, asked-IsBalanced, left-IsBalanced, resent-IsBalanced,
  release-Expected, acquire_waits,
}

Reach-IsBalanced : (s t : Slots) → Reach s t → IsBalanced s → IsBalanced t
unfolding Expected
Reach-IsBalanced s t here v = v
Reach-IsBalanced s t (next r (ask ready)) v = asked-IsBalanced _ ready (Reach-IsBalanced s _ r v)
Reach-IsBalanced s t (next r resend) v = resent-IsBalanced _ (Reach-IsBalanced s _ r v)
Reach-IsBalanced s t (next r (leave ready)) v = left-IsBalanced _ ready (Reach-IsBalanced s _ r v)
Reach-IsBalanced s t (next r (finish n h)) v = (release-Expected _ n h (Reach-IsBalanced s _ r v)).0

acquire-initial_quota :
    (ready : ℕ) (b : Bool) (s : SendQuota) → (acquire ready b s).0.initial_quota ≡ s.initial_quota
unfolding acquire
acquire-initial_quota ready b s = ground arith

release_to-initial_quota :
    (ws : List ℕ) (s : SendQuota) → (release_to ws s).0.initial_quota ≡ s.initial_quota
unfolding release_to put_back
release_to-initial_quota [] s = ground arith
release_to-initial_quota (w ∷ ws) s = ground arith

give_up-initial_quota :
    (ready : ℕ) (s : SendQuota) → (give_up ready s).0.initial_quota ≡ s.initial_quota
unfolding give_up
give_up-initial_quota ready s = ground arith

Reach-initial_quota :
    (s t : Slots) → Reach s t → t.send_quota.initial_quota ≡ s.send_quota.initial_quota
unfolding release retransmit
Reach-initial_quota s t here = refl
Reach-initial_quota s t (next {t = u} r (ask ready)) =
    acquire-initial_quota ready false u.send_quota ∙ Reach-initial_quota s u r
Reach-initial_quota s t (next {t = u} r resend) =
    acquire-initial_quota 0 true u.send_quota ∙ Reach-initial_quota s u r
Reach-initial_quota s t (next {t = u} r (leave ready)) =
    give_up-initial_quota ready u.send_quota ∙ Reach-initial_quota s u r
Reach-initial_quota s t (next {t = u} r (finish n h)) =
    release_to-initial_quota u.send_quota.waiters u.send_quota ∙ Reach-initial_quota s u r

positive_parts :
    (z : ℤ) (ws : List ℕ)
    → (is_positive z && is_empty ws) ≡ true
    → (0 < pos_part z) × (neg_part z ≡ 0)
positive_parts (pos zero) ws e = ground arith
positive_parts (pos (suc n)) ws e = (omega arith, refl)
positive_parts (negsuc n) ws e = ground arith

granted_parts :
    (s : SendQuota) (ready : ℕ)
    → (acquire ready false s).1 ≡ true
    → (0 < pos_part s.quota) × (neg_part s.quota ≡ 0)
unfolding acquire
granted_parts s ready e = elim (Bool-cases (is_positive s.quota && is_empty s.waiters)) [
  | inl t ↦ positive_parts s.quota s.waiters t
  | inr f ↦ ground (arith, acquire_waits ready s f)
]

-- Whatever the publishers do from a new quota of `n`, a call of `acquire` for a new message that
-- does not wait leaves at most `n` slots held.
pub asked_maximum :
    (n ready : ℕ) (t : Slots)
    → Reach (start n) t
    → (acquire ready false t.send_quota).1 ≡ true
    → (asked ready t).held ≤ n
unfolding new_send_quota acquire
asked_maximum n ready t r e =
    let v = Reach-IsBalanced (start n) t r (start-IsBalanced n) in
    let i = Reach-initial_quota (start n) t r in
    let (p, q) = granted_parts t.send_quota ready e in let c = v.counted in rw (e) (omega arith)

-- Whatever the publishers do from a new quota of `n`, the release of a held slot never reports an
-- unexpected release, and if it wakes a publisher then at most `n` slots are held afterwards.
pub finished_maximum :
    (n m : ℕ) (t : Slots)
    → Reach (start n) t
    → t.held ≡ suc m
    → ((release t.send_quota).1 ≢ unexpected)
      × ((release t.send_quota).1 ≡ woke → (finished m t).held ≤ n)
unfolding Expected new_send_quota
finished_maximum n m t r h =
    let v = Reach-IsBalanced (start n) t r (start-IsBalanced n) in
    let i = Reach-initial_quota (start n) t r in
    let (b, x, w) = release-Expected t m h v in (x, λ e. rw (e) (let l = w e in omega arith))
