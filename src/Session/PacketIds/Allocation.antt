-- ===== src/Session/PacketIds/Allocation.antt =====
-- The two loops of allocateNextPacketId, as searches of a range of identifiers.
pub mod Packets
use paho_golang.Common.{
  ap, ℕ, zero, suc, ◌+◌, ◌%◌, ◌≤◌, ◌<◌, ◌≡◌, refl, List, ◌∷◌, ◌⊎◌, inl, inr, true, false, ◌==◌,
  Option, none, some, arith, Bool-cases,
}
use mathlib.Core.Path.{subst}
use paho_golang.Session.PacketIds.{
  ClientGenerated, State, in_use, scan_up, scan_again, allocate_again, allocate_up,
  allocate_next_packet_id,
}

-- The result of a search of the identifiers from `low` up to `high`.
Search : List (ℕ × ClientGenerated) → ℕ → ℕ → Option ℕ → Type 0
Search ps low high (some id) = (low ≤ id) × (id ≤ high) × (in_use ps id ≡ false)
Search ps low high none = (id : ℕ) → low ≤ id → id ≤ high → in_use ps id ≡ true

first_or_later : (m n : ℕ) → m ≤ n → (n ≡ m) ⊎ (m + 1 ≤ n)
first_or_later m n l = ground arith

Search-further :
    (ps : List (ℕ × ClientGenerated)) (low high : ℕ) (o : Option ℕ)
    → in_use ps low ≡ true
    → Search ps (low + 1) high o
    → Search ps low high o
unfolding Search
Search-further ps low high (some id) e (l, h, f) = (omega arith, h, f)
Search-further ps low high none e all =
    λ id l h. elim (first_or_later low id l) [ inl p ↦ rw (p) e | inr p ↦ all id p h ]

Search-nothing :
    (ps : List (ℕ × ClientGenerated)) (low high : ℕ) → high < low → Search ps low high none
unfolding Search
Search-nothing ps low high b = λ id l h. ground arith

Search-found :
    (ps : List (ℕ × ClientGenerated)) (low high id : ℕ)
    → low ≤ id
    → id ≤ high
    → in_use ps id ≡ false
    → Search ps low high (some id)
unfolding Search
Search-found ps low high id l h f = (l, h, f)

scan_up-end : (fuel i : ℕ) (ps : List (ℕ × ClientGenerated)) → i ≡ 0 → scan_up fuel i ps ≡ none
unfolding scan_up
scan_up-end zero i ps e = refl
scan_up-end (suc fuel) i ps e = let z : (i == 0) ≡ true = ground arith in rw (scan_up, z) refl

scan_up-used :
    (fuel i : ℕ) (ps : List (ℕ × ClientGenerated))
    → 0 < i
    → in_use ps i ≡ true
    → scan_up (suc fuel) i ps ≡ scan_up fuel ((i + 1) % 65536) ps
unfolding scan_up
scan_up-used fuel i ps p u = let z : (i == 0) ≡ false = ground arith in rw (scan_up, z, u) refl

scan_up-free :
    (fuel i : ℕ) (ps : List (ℕ × ClientGenerated))
    → 0 < i
    → in_use ps i ≡ false
    → scan_up (suc fuel) i ps ≡ some i
unfolding scan_up
scan_up-free fuel i ps p u = let z : (i == 0) ≡ false = ground arith in rw (scan_up, z, u) refl

scan_up_lem :
    (fuel j : ℕ) (ps : List (ℕ × ClientGenerated))
    → 0 < j
    → j ≤ 65536
    → 65537 ≤ fuel + j
    → Search ps j 65535 (scan_up fuel (j % 65536) ps)
scan_up_lem zero j ps p b f = ground arith
scan_up_lem (suc fuel) j ps p b f = elim (first_or_later j 65536 b) [
  | inl last ↦
      rw (scan_up-end (suc fuel) (j % 65536) ps (omega arith))
        (Search-nothing ps j 65535 (omega arith))
  | inr more ↦
      let m : j % 65536 ≡ j = omega arith in
      let rest = scan_up_lem fuel (j + 1) ps (omega arith) (omega arith) (omega arith) in
      rw (m) (elim (Bool-cases (in_use ps j)) [
        | inl u ↦ rw (scan_up-used fuel j ps p u) (Search-further ps j 65535 _ u rest)
        | inr u ↦
            rw (scan_up-free fuel j ps p u)
              (Search-found ps j 65535 j (omega arith) (omega arith) u)
      ])
]

scan_again-used :
    (rounds i : ℕ) (ps : List (ℕ × ClientGenerated))
    → in_use ps (i + 1) ≡ true
    → scan_again (suc rounds) i ps ≡ scan_again rounds (i + 1) ps
unfolding scan_again
scan_again-used rounds i ps u = rw (scan_again, u) refl

scan_again-free :
    (rounds i : ℕ) (ps : List (ℕ × ClientGenerated))
    → in_use ps (i + 1) ≡ false
    → scan_again (suc rounds) i ps ≡ some (i + 1)
unfolding scan_again
scan_again-free rounds i ps u = rw (scan_again, u) refl

scan_again_lem :
    (rounds i high : ℕ) (ps : List (ℕ × ClientGenerated))
    → high ≡ rounds + i
    → Search ps (i + 1) high (scan_again rounds i ps)
unfolding scan_again
scan_again_lem zero i high ps h = Search-nothing ps (i + 1) high (omega arith)
scan_again_lem (suc rounds) i high ps h = elim (Bool-cases (in_use ps (i + 1))) [
  | inl u ↦
      rw (scan_again-used rounds i ps u)
        (Search-further ps (i + 1) high _ u (scan_again_lem rounds (i + 1) high ps (omega arith)))
  | inr u ↦
      rw (scan_again-free rounds i ps u)
        (Search-found ps (i + 1) high (i + 1) (omega arith) (omega arith) u)
]

Search-widen :
    (ps : List (ℕ × ClientGenerated)) (low high low' high' id : ℕ)
    → low' ≤ low
    → high ≤ high'
    → Search ps low high (some id)
    → Search ps low' high' (some id)
unfolding Search
Search-widen ps low high low' high' id l h (a, b, f) = (omega arith, omega arith, f)

Search-join :
    (ps : List (ℕ × ClientGenerated)) (low middle high : ℕ)
    → Search ps low middle none
    → Search ps (middle + 1) high none
    → Search ps low high none
unfolding Search
Search-join ps low middle high f g =
    λ id l h. elim (either_side id middle) [ inl p ↦ f id l p | inr p ↦ g id p h ]
  where
    either_side : (m n : ℕ) → (m ≤ n) ⊎ (n + 1 ≤ m)
    either_side m n = ground arith

-- The result is that of a search of all identifiers, and the state is changed to match.
Allocated : ClientGenerated → State → State × Option ℕ → Type 0
Allocated cg s (t, some id) =
    Search s.client_packets 1 65535 (some id)
    × (t ≡ record { client_packets = (id, cg) ∷ s.client_packets; last_mid = id })
Allocated cg s (t, none) =
    Search s.client_packets 1 65535 none × (t.client_packets ≡ s.client_packets)

allocate_again-Allocated :
    (cg : ClientGenerated) (s : State) (o : Option ℕ)
    → s.last_mid ≤ 65535
    → Search s.client_packets (s.last_mid + 1) 65535 none
    → Search s.client_packets 1 s.last_mid o
    → Allocated cg s (allocate_again cg s o)
unfolding allocate_again Allocated
allocate_again-Allocated cg s (some id) b up again =
    (Search-widen s.client_packets 1 s.last_mid 1 65535 id (omega arith) b again, refl)
allocate_again-Allocated cg s none b up again =
    (Search-join s.client_packets 1 s.last_mid 65535 again up, refl)

allocate_up-Allocated :
    (cg : ClientGenerated) (s : State) (o : Option ℕ)
    → s.last_mid ≤ 65535
    → Search s.client_packets (s.last_mid + 1) 65535 o
    → Allocated cg s (allocate_up cg s o)
unfolding allocate_up Allocated
allocate_up-Allocated cg s (some id) b up = (
  Search-widen s.client_packets (s.last_mid + 1) 65535 1 65535 id (omega arith) (omega arith) up,
  refl,
)
allocate_up-Allocated cg s none b up = elim (Bool-cases (s.last_mid == 0)) [
  | inl z ↦ rw (z) (
    let e : s.last_mid ≡ 0 = ground arith in
        subst (λ m. Search s.client_packets (m + 1) 65535 none) e up,
    refl,
  )
  | inr z ↦ rw (z) (
      allocate_again-Allocated cg s _ b up
        (scan_again_lem s.last_mid 0 s.last_mid s.client_packets (omega arith)))
]

allocate-Allocated :
    (cg : ClientGenerated) (s : State)
    → s.last_mid ≤ 65535
    → Allocated cg s (allocate_next_packet_id cg s)
unfolding allocate_next_packet_id
allocate-Allocated cg s b =
    allocate_up-Allocated cg s _ b (
      scan_up_lem 65536 (s.last_mid + 1) s.client_packets (omega arith) (omega arith) (omega arith))

Allocated-result :
    (cg : ClientGenerated) (s : State) (free : ℕ) (r : State × Option ℕ)
    → 1 ≤ free
    → free ≤ 65535
    → in_use s.client_packets free ≡ false
    → Allocated cg s r
    → (id : ℕ) × (1 ≤ id)
      × (id ≤ 65535)
      × (in_use s.client_packets id ≡ false)
      × (r ≡ (record { client_packets = (id, cg) ∷ s.client_packets; last_mid = id }, some id))
unfolding Allocated Search
Allocated-result cg s free (t, some id) l h f a =
    (id, a.0.0, a.0.1, a.0.2, ap (λ u. (u, some id)) a.1)
Allocated-result cg s free (t, none) l h f a =
    let used : in_use s.client_packets free ≡ true = a.0 free l h in ground (arith, used, f)

-- From a last identifier of at most 65535, while any identifier from 1 to 65535 is free, the
-- allocation gives an identifier from 1 to 65535 that was free; it adds it to those in use, changes
-- no other, and makes it the last identifier.
pub allocate_gives_free :
    (cg : ClientGenerated) (s : State) (free : ℕ)
    → s.last_mid ≤ 65535
    → 1 ≤ free
    → free ≤ 65535
    → in_use s.client_packets free ≡ false
    → (id : ℕ) × (1 ≤ id)
      × (id ≤ 65535)
      × (in_use s.client_packets id ≡ false)
      × (allocate_next_packet_id cg s
          ≡ (record { client_packets = (id, cg) ∷ s.client_packets; last_mid = id }, some id))
allocate_gives_free cg s free b l h f =
    Allocated-result cg s free (allocate_next_packet_id cg s) l h f (allocate-Allocated cg s b)
