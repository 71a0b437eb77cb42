-- ===== src/Session/SendQuota/Waiting.antt =====
-- paho/session/state/sendquota.go. The publishers that wait, against repeated calls of Release.
use paho_golang.Common.{ap, ◌∙◌, ℕ, zero, suc, ◌+◌, ◌≡◌, refl, List, [], ◌∷◌, arith, length}
use paho_golang.Common.Int.{ℤ, pos, negsuc, neg_part, pos_part, increment}
use paho_golang.Session.SendQuota.{SendQuota, release_to, release, put_back}

abbrev pub releases : ℕ → SendQuota → SendQuota
releases zero s = s
releases (suc k) s = releases k (release s).0

abbrev pub woken_in_order : List ℕ → List ℕ → List ℕ
woken_in_order [] closed = closed
woken_in_order (w ∷ ws) closed = woken_in_order ws (w ∷ closed)

wake_all :
    (i n : ℕ) (ws closed : List ℕ)
    → releases
        (length ws)
        (record { initial_quota = i; quota = pos n; waiters = ws; closed = closed })
      ≡ record { initial_quota = i; quota = pos n; waiters = []; closed = woken_in_order ws closed }
unfolding release release_to
wake_all i n [] closed = refl
wake_all i n (w ∷ ws) closed = wake_all i n ws (w ∷ closed)

repay :
    (n i : ℕ) (ws closed : List ℕ)
    → releases
        (suc n)
        (record { initial_quota = i; quota = negsuc n; waiters = ws; closed = closed })
      ≡ record { initial_quota = i; quota = pos 0; waiters = ws; closed = closed }
unfolding release release_to put_back increment
repay zero i [] closed = refl
repay zero i (w ∷ ws) closed = refl
repay (suc n) i [] closed = repay n i [] closed
repay (suc n) i (w ∷ ws) closed = repay n i (w ∷ ws) closed

releases-+ : (k l m : ℕ) (s : SendQuota) → m ≡ k + l → releases m s ≡ releases l (releases k s)
releases-+ zero l m s e = let p : m ≡ l = omega arith in ap (λ j. releases j s) p
releases-+ (suc k) l zero s e = ground arith
releases-+ (suc k) l (suc m) s e = releases-+ k l m (release s).0 (omega arith)

wake_waiters :
    (i : ℕ) (z : ℤ) (ws closed : List ℕ)
    → releases
        (neg_part z + length ws)
        (record { initial_quota = i; quota = z; waiters = ws; closed = closed })
      ≡ record {
        initial_quota = i;
        quota = pos (pos_part z);
        waiters = [];
        closed = woken_in_order ws closed;
      }
wake_waiters i (pos n) ws closed =
    releases-+ 0 (length ws) (0 + length ws) _ refl ∙ wake_all i n ws closed
wake_waiters i (negsuc n) ws closed =
    releases-+ (suc n) (length ws) _ _ refl
    ∙ ap (releases (length ws)) (repay n i ws closed)
    ∙ wake_all i 0 ws closed

-- After as many releases as the quota is below zero and publishers wait, every publisher that
-- waited is woken, in the order of their calls; a quota below zero has come to zero, and another is
-- as it was.
pub releases_wake_waiters :
    (s : SendQuota)
    → releases (neg_part s.quota + length s.waiters) s ≡ record s {
      quota = pos (pos_part s.quota);
      waiters = [];
      closed = woken_in_order s.waiters s.closed;
    }
releases_wake_waiters s = wake_waiters s.initial_quota s.quota s.waiters s.closed
