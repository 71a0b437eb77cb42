-- ===== src/Client/AcksTracker/Order.antt =====
-- paho/acks_tracker.go: calls in sequence, and what they hand over.
use paho_golang.Common.{
  ◌≡◌, refl, sym, ap, ◌∙◌, List, [], ◌∷◌, ◌++◌, append_assoc, append-nil, true, false, ◌==◌,
  if◌then◌else◌, Option, none, some, Bool-cases, Option-cases, inl, inr, All,
}
use paho_golang.Packets.Requests.{Publish}
use paho_golang.Client.AcksTracker.{
  Packet, Tracker, is_added, add, mark_as_acked, acked_prefix, flush,
}

-- What the tracker has been told, in sequence; an error of markAsAcked changes nothing.
pub data Call : Type 0 where
  add_call mark_call : Publish → Call
  flush_call : Call

abbrev pub or_same : Tracker → Option Tracker → Tracker
or_same order none = order
or_same order (some order') = order'

-- What was handed to the callback so far, with the tracker.
abbrev pub run_call : Call → List Publish × Tracker → List Publish × Tracker
run_call (add_call pb) (out, order) = (out, add pb order)
run_call (mark_call pb) (out, order) = (out, or_same order (mark_as_acked pb order))
run_call flush_call (out, order) = let r = flush order in (out ++ r.0, r.1)

abbrev pub run_calls : List Call → List Publish × Tracker → List Publish × Tracker
run_calls [] s = s
run_calls (c ∷ cs) s = run_calls cs (run_call c s)

-- The publishes of a tracker.
abbrev pub publishes : Tracker → List Publish
publishes [] = []
publishes (v ∷ order) = v.pb ∷ publishes order

-- The publishes that were accepted: all those of `add` but those whose identifier was in the tracker.
abbrev pub accepted_call : Call → Tracker → List Publish
accepted_call (add_call pb) order = if is_added pb.packet_id order then [] else pb ∷ []
accepted_call (mark_call pb) order = []
accepted_call flush_call order = []

abbrev pub accepted : List Call → List Publish × Tracker → List Publish
accepted [] s = []
accepted (c ∷ cs) s = accepted_call c s.1 ++ accepted cs (run_call c s)

publishes-append : (o u : Tracker) → publishes (o ++ u) ≡ publishes o ++ publishes u
publishes-append [] u = refl
publishes-append (v ∷ o) u = ap (λ ps. v.pb ∷ ps) (publishes-append o u)

publishes-mark_as_acked :
    (pb : Publish) (order : Tracker)
    → publishes (or_same order (mark_as_acked pb order)) ≡ publishes order
unfolding mark_as_acked
publishes-mark_as_acked pb [] = refl
publishes-mark_as_acked pb (v ∷ order) = elim (Bool-cases (pb.packet_id == v.pb.packet_id)) [
  | inl e ↦ rw (e) refl
  | inr e ↦
      let ih = publishes-mark_as_acked pb order in
      elim (Option-cases (mark_as_acked pb order)) [
        | inl n ↦ rw (e, n) refl
        | inr (vs, m) ↦ rw (e, m) (ap (λ ps. v.pb ∷ ps) (rw (m) at ih))
      ]
]

acked_prefix-stop :
    (v : Packet) (order : Tracker) → v.acknowledged ≡ false → acked_prefix (v ∷ order) ≡ []
unfolding acked_prefix
acked_prefix-stop v order e = rw (e) refl

acked_prefix-go :
    (v : Packet) (order : Tracker)
    → v.acknowledged ≡ true
    → acked_prefix (v ∷ order) ≡ v.pb ∷ acked_prefix order
unfolding acked_prefix
acked_prefix-go v order e = rw (e) refl

-- Where flush stops: at the end, or before a publish that is not acknowledged.
abbrev pub IsStopped : Tracker → Type 0
IsStopped [] = Unit {0}
IsStopped (v ∷ order) = v.acknowledged ≡ false

-- flush cuts the tracker in two: it hands over the publishes of the front, all of them acknowledged,
-- and keeps the back, which is empty or starts with a publish that is not acknowledged.
pub flush_cuts :
    (order : Tracker)
    → (front : Tracker) × (order ≡ front ++ (flush order).1)
      × (publishes front ≡ (flush order).0)
      × All (λ v. v.acknowledged ≡ true) front
      × IsStopped (flush order).1
unfolding flush
flush_cuts [] = ([], refl, refl, tt, tt)
flush_cuts (v ∷ order) = elim (Bool-cases v.acknowledged) [
  | inl e ↦
      let (front, same, given, acked, stopped) = flush_cuts order in
      rw (acked_prefix-go v order e)
        (v ∷ front, ap (λ o. v ∷ o) same, ap (λ ps. v.pb ∷ ps) given, (e, acked), stopped)
  | inr e ↦ rw (acked_prefix-stop v order e) ([], refl, refl, tt, e)
]

flush_parts : (order : Tracker) → (flush order).0 ++ publishes (flush order).1 ≡ publishes order
flush_parts order =
    let (front, same, given, acked, stopped) = flush_cuts order in
    rw (← given) (sym (publishes-append front (flush order).1) ∙ ap publishes (sym same))

run_call-accepted :
    (c : Call) (s : List Publish × Tracker)
    → (run_call c s).0 ++ publishes (run_call c s).1 ≡ (s.0 ++ publishes s.1) ++ accepted_call c s.1
unfolding add
run_call-accepted (add_call pb) s = elim (Bool-cases (is_added pb.packet_id s.1)) [
  | inl e ↦ rw (e) (sym (append-nil _))
  | inr e ↦ rw (e) (
      ap (λ ps. s.0 ++ ps) (publishes-append s.1 _)
      ∙ sym (append_assoc s.0 (publishes s.1) (pb ∷ [])))
]
run_call-accepted (mark_call pb) s =
    ap (λ ps. s.0 ++ ps) (publishes-mark_as_acked pb s.1) ∙ sym (append-nil _)
run_call-accepted flush_call s =
    append_assoc s.0 (flush s.1).0 (publishes (flush s.1).1)
    ∙ ap (λ ps. s.0 ++ ps) (flush_parts s.1)
    ∙ sym (append-nil _)

run_calls-accepted :
    (cs : List Call) (s : List Publish × Tracker)
    → (run_calls cs s).0 ++ publishes (run_calls cs s).1 ≡ (s.0 ++ publishes s.1) ++ accepted cs s
run_calls-accepted [] s = sym (append-nil _)
run_calls-accepted (c ∷ cs) s =
    run_calls-accepted cs (run_call c s)
    ∙ ap (λ ps. ps ++ accepted cs (run_call c s)) (run_call-accepted c s)
    ∙ append_assoc (s.0 ++ publishes s.1) (accepted_call c s.1) (accepted cs (run_call c s))

-- After any calls of add, markAsAcked and flush on an empty tracker, the publishes handed over so
-- far, followed by those the tracker holds, are the accepted ones in the order of their arrival:
-- none is lost, handed over twice or overtaken, in whatever order they were acknowledged.
pub handed_over_in_order :
    (cs : List Call)
    → (run_calls cs ([], [])).0 ++ publishes (run_calls cs ([], [])).1 ≡ accepted cs ([], [])
handed_over_in_order cs = run_calls-accepted cs ([], [])
