-- ===== src/Session/MemoryStore/Ascending.antt =====
-- paho/store/memory/store.go. Entries whose counters go up: nothing to sort.
use paho_golang.Common.{
  ℕ, ◌+◌, ◌≤◌, ◌<◌, ◌≡◌, refl, sym, ap, ◌∙◌, List, [], ◌∷◌, ◌++◌, ◌≢◌, inl, inr, arith, ◌==◌,
  Bool-cases, All, append-nil, append_assoc,
}
use paho_golang.Session.MemoryStore.{MemoryPacket, erase}
use paho_golang.Session.MemoryStore.Sorting.{
  seq_of, insert_entry, insert_all, insert_entry-behind, IsDistinct,
}

-- The counters go up, from `low`, and stay below `high`.
unfoldable pub IsAscending : ℕ → List (ℕ × MemoryPacket) → ℕ → Type 0
IsAscending low [] high = low ≤ high
IsAscending low (e ∷ es) high = (low ≤ seq_of e) × IsAscending (seq_of e + 1) es high

IsAscending-weaken :
    (low low' : ℕ) (es : List (ℕ × MemoryPacket)) (high : ℕ)
    → low' ≤ low
    → IsAscending low es high
    → IsAscending low' es high
unfolding IsAscending
IsAscending-weaken low low' [] high l a = omega arith
IsAscending-weaken low low' (e ∷ es) high l (b, a) = (omega arith, a)

pub IsAscending-erase :
    (id low : ℕ) (es : List (ℕ × MemoryPacket)) (high : ℕ)
    → IsAscending low es high
    → IsAscending low (erase id es) high
unfolding IsAscending erase
IsAscending-erase id low [] high a = a
IsAscending-erase id low ((k, v) ∷ es) high (b, a) =
    let rest = IsAscending-erase id (v.c + 1) es high a in
    elim (Bool-cases (id == k)) [
      | inl e ↦ rw (e) (IsAscending-weaken (v.c + 1) low (erase id es) high (omega arith) rest)
      | inr e ↦ rw (e) (b, rest)
    ]

pub IsAscending-snoc :
    (low : ℕ) (es : List (ℕ × MemoryPacket)) (high : ℕ) (e : ℕ × MemoryPacket)
    → IsAscending low es high
    → seq_of e ≡ high
    → IsAscending low (es ++ e ∷ []) (high + 1)
unfolding IsAscending
IsAscending-snoc low [] high e a q = (omega arith, omega arith)
IsAscending-snoc low (f ∷ es) high e (b, a) q = (b, IsAscending-snoc (seq_of f + 1) es high e a q)

IsAscending-others :
    (n low : ℕ) (es : List (ℕ × MemoryPacket)) (high : ℕ)
    → n < low
    → IsAscending low es high
    → All (λ f. n ≢ seq_of f) es
unfolding IsAscending
IsAscending-others n low [] high l a = record {}
IsAscending-others n low (e ∷ es) high l (b, a) =
    (λ q. omega arith, IsAscending-others n (seq_of e + 1) es high (omega arith) a)

pub IsAscending-IsDistinct :
    (low : ℕ) (es : List (ℕ × MemoryPacket)) (high : ℕ) → IsAscending low es high → IsDistinct es
unfolding IsAscending IsDistinct
IsAscending-IsDistinct low [] high a = record {}
IsAscending-IsDistinct low (e ∷ es) high (b, a) = (
  IsAscending-others (seq_of e) (seq_of e + 1) es high (omega arith) a,
  IsAscending-IsDistinct (seq_of e + 1) es high a,
)

insert_entry-last :
    (e : ℕ × MemoryPacket) (fs : List (ℕ × MemoryPacket))
    → All (λ f. seq_of f ≤ seq_of e) fs
    → insert_entry e fs ≡ fs ++ e ∷ []
unfolding insert_entry
insert_entry-last e [] a = refl
insert_entry-last e (f ∷ fs) (b, a) =
    insert_entry-behind e f fs b ∙ ap (λ gs. f ∷ gs) (insert_entry-last e fs a)

All-below_snoc :
    (n m : ℕ) (fs : List (ℕ × MemoryPacket)) (e : ℕ × MemoryPacket)
    → n ≤ m
    → seq_of e ≤ m
    → All (λ f. seq_of f ≤ n) fs
    → All (λ f. seq_of f ≤ m) (fs ++ e ∷ [])
All-below_snoc n m [] e l b a = (b, record {})
All-below_snoc n m (f ∷ fs) e l b (c, a) = (omega arith, All-below_snoc n m fs e l b a)

All-weaken :
    (n m : ℕ) (fs : List (ℕ × MemoryPacket))
    → n ≤ m
    → All (λ f. seq_of f ≤ n) fs
    → All (λ f. seq_of f ≤ m) fs
All-weaken n m [] l a = record {}
All-weaken n m (f ∷ fs) l (c, a) = (omega arith, All-weaken n m fs l a)

pub insert_all-ascending :
    (low : ℕ) (es fs : List (ℕ × MemoryPacket)) (high : ℕ)
    → IsAscending low es high
    → All (λ f. seq_of f ≤ low) fs
    → insert_all es fs ≡ fs ++ es
unfolding insert_all IsAscending
insert_all-ascending low [] fs high a b = sym (append-nil fs)
insert_all-ascending low (e ∷ es) fs high (l, a) b =
    rw (insert_entry-last e fs (All-weaken low (seq_of e) fs l b)) (
      insert_all-ascending (seq_of e + 1) es (fs ++ e ∷ []) high a
        (All-below_snoc low (seq_of e + 1) fs e (omega arith) (omega arith) b)
      ∙ append_assoc fs (e ∷ []) es)
