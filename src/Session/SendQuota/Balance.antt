-- ===== src/Session/SendQuota/Balance.antt =====
-- paho/session/state/sendquota.go. Each step, against the balance of slots and quota.
use paho_golang.Common.{
  Bool-cases, ℕ, zero, suc, ◌+◌, ◌≤◌, ◌≡◌, refl, List, [], ◌∷◌, ◌++◌, ◌≢◌, ◌⊎◌, inl, inr, true,
  false, ◌&&◌, arith,
}
use paho_golang.Common.Int.{
  ℤ, pos, negsuc, pos_part, neg_part, decrement, increment, is_positive, is_natural, is_below,
  decrement_parts, increment_parts,
}
use paho_golang.Session.SendQuota.{
  SendQuota, new_send_quota, is_empty, acquire, retransmit, contains, remove, give_up, Outcome,
  woke, returned, unexpected, put_back, release_to, release,
}
use paho_golang.Session.SendQuota.Slots.{Slots, woken, asked, resent, left, IsBalanced, start}

pub start-IsBalanced : (n : ℕ) → IsBalanced (start n)
unfolding new_send_quota
start-IsBalanced n = record { counted = omega arith; busy = inl refl }

is_empty-[] : (ws : List ℕ) → is_empty ws ≡ true → ws ≡ []
is_empty-[] [] e = refl
is_empty-[] (w ∷ ws) e = ground arith

pub none_left :
    (z : ℤ) (ws : List ℕ)
    → (is_positive z && is_empty ws) ≡ false
    → (ws ≡ []) ⊎ (pos_part z ≡ 0)
    → pos_part z ≡ 0
none_left (pos zero) ws e b = refl
none_left (pos (suc n)) [] e b = ground arith
none_left (pos (suc n)) (w ∷ ws) e b = ground arith
none_left (negsuc n) ws e b = refl

nobody_waits : (z : ℤ) (ws : List ℕ) → (is_positive z && is_empty ws) ≡ true → ws ≡ []
nobody_waits (pos zero) ws e = ground arith
nobody_waits (pos (suc n)) ws e = is_empty-[] ws e
nobody_waits (negsuc n) ws e = ground arith

decrement_none : (z : ℤ) → pos_part z ≡ 0 → pos_part (decrement z) ≡ 0
unfolding decrement
decrement_none (pos zero) e = refl
decrement_none (pos (suc n)) e = omega arith
decrement_none (negsuc n) e = refl

increment_none : (z : ℤ) → is_natural z ≡ false → pos_part (increment z) ≡ 0
unfolding increment
increment_none (pos n) e = ground arith
increment_none (negsuc zero) e = refl
increment_none (negsuc (suc n)) e = refl

pub resent-IsBalanced : (s : Slots) → IsBalanced s → IsBalanced (resent s)
unfolding retransmit acquire
resent-IsBalanced s v =
    let d = decrement_parts s.send_quota.quota in
    record {
      counted = omega arith;
      busy = elim v.busy [ inl w ↦ inl w | inr z ↦ inr (decrement_none s.send_quota.quota z) ];
    }

acquire_now :
    (ready : ℕ) (s : SendQuota)
    → (is_positive s.quota && is_empty s.waiters) ≡ true
    → acquire ready false s ≡ acquire ready true s
unfolding acquire
acquire_now ready s e = rw (e)

pub acquire_waits :
    (ready : ℕ) (s : SendQuota)
    → (is_positive s.quota && is_empty s.waiters) ≡ false
    → acquire ready false s ≡ (record s { waiters = s.waiters ++ ready ∷ [] }, false)
unfolding acquire
acquire_waits ready s e = rw (e)

pub asked-IsBalanced : (s : Slots) (ready : ℕ) → IsBalanced s → IsBalanced (asked ready s)
unfolding acquire retransmit
asked-IsBalanced s ready v =
    elim (Bool-cases (is_positive s.send_quota.quota && is_empty s.send_quota.waiters)) [
      | inl e ↦ rw (acquire_now ready s.send_quota e) (resent-IsBalanced s v)
      | inr e ↦
          let b = none_left s.send_quota.quota s.send_quota.waiters e v.busy in
          rw (acquire_waits ready s.send_quota e) (record { counted = omega arith; busy = inr b })
    ]

pub left-IsBalanced : (s : Slots) (ready : ℕ) → IsBalanced s → IsBalanced (left ready s)
unfolding give_up remove
left-IsBalanced s ready v = elim (Bool-cases (contains s.send_quota.closed ready)) [
  | inl e ↦ rw (e) v
  | inr e ↦ rw (e) (record {
    counted = v.counted;
    busy = elim v.busy [ inl w ↦ inl (rw (w) refl) | inr z ↦ inr z ];
  })
]

put_back-below :
    (s : SendQuota)
    → is_below s.quota s.initial_quota ≡ true
    → put_back s ≡ (record s { quota = increment s.quota }, returned)
unfolding put_back
put_back-below s e = rw (e)

-- A held slot leaves room below the initial quota, unless a publisher waits.
room : (z : ℤ) (h n : ℕ) → pos_part z + suc h ≡ n + neg_part z → is_below z n ≡ true
room (pos m) h n e = ground arith
room (negsuc m) h n e = refl

waiting_busy :
    (ws : List ℕ) (x : ℕ) (xs : List ℕ) (m : ℕ) → ws ≡ x ∷ xs → (ws ≡ []) ⊎ (m ≡ 0) → m ≡ 0
waiting_busy ws x xs m e b = ground arith

-- The state after a release is balanced, the release was expected, and a publisher is woken only
-- when all the other slots are held.
unfoldable pub Expected : (s : Slots) (n : ℕ) → SendQuota × Outcome → Type 0
Expected s n r =
    IsBalanced (record { send_quota = r.0; held = n + woken r.1 })
    × (r.1 ≢ unexpected)
    × (r.1 ≡ woke → s.held ≤ s.send_quota.initial_quota)

put_back-Expected :
    (s : Slots) (n : ℕ)
    → (s.send_quota.waiters ≡ []) ⊎ (is_natural s.send_quota.quota ≡ false)
    → s.held ≡ suc n
    → IsBalanced s
    → Expected s n (put_back s.send_quota)
unfolding Expected
put_back-Expected s n w h v =
    let q = s.send_quota.quota in
    let i = increment_parts q in
    let below = room q n s.send_quota.initial_quota (omega arith) in
    rw (put_back-below s.send_quota below) (
      record {
        counted = omega arith;
        busy = elim w [ inl e ↦ inl e | inr e ↦ inr (increment_none q e) ];
      },
      λ e. cc,
      λ e. cc,
    )

neg_none : (z : ℤ) → is_natural z ≡ true → neg_part z ≡ 0
neg_none (pos n) e = refl
neg_none (negsuc n) e = ground arith

release_to-Expected :
    (s : Slots) (n : ℕ) (ws : List ℕ)
    → s.send_quota.waiters ≡ ws
    → s.held ≡ suc n
    → IsBalanced s
    → Expected s n (release_to ws s.send_quota)
unfolding release_to Expected
release_to-Expected s n [] w h v = put_back-Expected s n (inl w) h v
release_to-Expected s n (x ∷ ws) w h v = elim (Bool-cases (is_natural s.send_quota.quota)) [
  | inl e ↦
      let none = neg_none s.send_quota.quota e in
      let busy = waiting_busy s.send_quota.waiters x ws (pos_part s.send_quota.quota) w v.busy in
      rw (e) (record { counted = omega arith; busy = inr busy }, λ e. cc, λ e. omega arith)
  | inr e ↦ rw (e) (put_back-Expected s n (inr e) h v)
]

pub release-Expected :
    (s : Slots) (n : ℕ) → s.held ≡ suc n → IsBalanced s → Expected s n (release s.send_quota)
unfolding release
release-Expected s n h v = release_to-Expected s n s.send_quota.waiters refl h v
