-- ===== src/Session/MemoryStore/Order.antt =====
-- paho/store/memory/store.go. The operations in sequence: in which order a store lists what it holds.
use mathlib.Core.List.Permᴰ
use mathlib.Core.Path.{subst}
use mathlib.Core.List.{Permᴰ}
use paho_golang.Common.{
  ℕ, suc, ◌+◌, ◌<◌, ◌^◌, ◌≡◌, refl, sym, ap, ◌∙◌, List, [], ◌∷◌, ◌++◌, map, inl, inr, if◌then◌else◌,
  arith, ◌==◌, Bool-cases, Option, none, some, Option-cases,
}
use paho_golang.Packets.Result.{Bytes}
use paho_golang.Session.MemoryStore.{
  MemoryPacket, Store, new_store, next_counter, find, erase, put, delete, quarantine, list, reset,
}
use paho_golang.Session.MemoryStore.Ascending.{
  IsAscending, IsAscending-erase, IsAscending-snoc, IsAscending-IsDistinct, insert_all-ascending,
}
use paho_golang.Session.MemoryStore.Sorting.{id_of, list-insert_all, insert_all-perm}

-- A call, with the packet identifier, the packet type and what is written.
pub data Op : Type 0 where
  put_call : ℕ → ℕ → Bytes → Op
  delete_call quarantine_call : ℕ → Op
  reset_call : Op

abbrev pub or_same : Store → Option Store → Store
or_same m none = m
or_same m (some m') = m'

abbrev pub run_op : Op → Store → Store
run_op (put_call id type buff) m = or_same m (put id type (some buff) m)
run_op (delete_call id) m = or_same m (delete id m)
run_op (quarantine_call id) m = or_same m (quarantine id m)
run_op reset_call m = reset m

-- The number of calls of Put.
abbrev pub puts : List Op → ℕ
puts [] = 0
puts (put_call id type buff ∷ os) = suc (puts os)
puts (o ∷ os) = puts os

abbrev pub run : List Op → Store → Store
run [] m = m
run (o ∷ os) m = run os (run_op o m)

-- The identifiers, in the order in which they were last put.
abbrev pub without : ℕ → List ℕ → List ℕ
without id [] = []
without id (k ∷ ks) = let rest = without id ks in if id == k then rest else k ∷ rest

abbrev pub order_op : Op → List ℕ → List ℕ
order_op (put_call id type buff) ids = without id ids ++ id ∷ []
order_op (delete_call id) ids = without id ids
order_op (quarantine_call id) ids = without id ids
order_op reset_call ids = []

abbrev pub put_order : List Op → List ℕ → List ℕ
put_order [] ids = ids
put_order (o ∷ os) ids = put_order os (order_op o ids)

Reflects : Store → List ℕ → Type 0
Reflects m ids = (map id_of m.data_map ≡ ids) × IsAscending 0 m.data_map m.counter

next_counter-no_wrap : (c : ℕ) → c + 1 < 2 ^ 64 → next_counter c ≡ c + 1
unfolding next_counter
next_counter-no_wrap c h = omega arith

map_id-erase :
    (id : ℕ) (es : List (ℕ × MemoryPacket)) → map id_of (erase id es) ≡ without id (map id_of es)
unfolding erase
map_id-erase id [] = refl
map_id-erase id ((k, v) ∷ es) = elim (Bool-cases (id == k)) [
  | inl e ↦ rw (e) (map_id-erase id es)
  | inr e ↦ rw (e) (ap (λ ks. k ∷ ks) (map_id-erase id es))
]

map_id-snoc :
    (es : List (ℕ × MemoryPacket)) (e : ℕ × MemoryPacket)
    → map id_of (es ++ e ∷ []) ≡ map id_of es ++ id_of e ∷ []
map_id-snoc [] e = refl
map_id-snoc (f ∷ es) e = ap (λ ks. id_of f ∷ ks) (map_id-snoc es e)

find-none : (id : ℕ) (es : List (ℕ × MemoryPacket)) → find id es ≡ none → erase id es ≡ es
unfolding find erase
find-none id [] e = refl
find-none id ((k, v) ∷ es) e = elim (Bool-cases (id == k)) [
  | inl q ↦ ground (arith, e, q)
  | inr q ↦ rw (q) (ap (λ fs. (k, v) ∷ fs) (find-none id es (rw (q) at e)))
]

pub delete-data_map :
    (id : ℕ) (m : Store) → or_same m (delete id m) ≡ record m { data_map = erase id m.data_map }
unfolding delete
delete-data_map id m = elim (Option-cases (find id m.data_map)) [
  | inl e ↦ rw (delete, e, find-none id m.data_map e) refl
  | inr (d, e) ↦ rw (delete, e) refl
]

erase-Reflects :
    (id : ℕ) (m : Store) (ids : List ℕ)
    → Reflects m ids
    → Reflects (or_same m (delete id m)) (without id ids)
unfolding Reflects
erase-Reflects id m ids (e, a) =
    rw (delete-data_map id m) (
      map_id-erase id m.data_map ∙ ap (without id) e,
      IsAscending-erase id 0 m.data_map m.counter a,
    )

put-Reflects :
    (id type : ℕ) (buff : Bytes) (m : Store) (ids : List ℕ)
    → m.counter + 1 < 2 ^ 64
    → Reflects m ids
    → Reflects (run_op (put_call id type buff) m) (without id ids ++ id ∷ [])
unfolding Reflects put
put-Reflects id type buff m ids h (e, a) = (
  map_id-snoc (erase id m.data_map) _
      ∙ ap (λ ks. ks ++ id ∷ []) (map_id-erase id m.data_map ∙ ap (without id) e),
  subst (IsAscending 0 (erase id m.data_map ++ (id, record { c = m.counter; p = buff }) ∷ []))
      (sym (next_counter-no_wrap m.counter h))
      (IsAscending-snoc 0 (erase id m.data_map) m.counter _
        (IsAscending-erase id 0 m.data_map m.counter a) refl),
)

reset-Reflects : (m : Store) (ids : List ℕ) → Reflects m ids → Reflects (reset m) []
unfolding Reflects reset IsAscending
reset-Reflects m ids (e, a) = (refl, omega arith)

counter-delete : (id : ℕ) (m : Store) → (or_same m (delete id m)).counter ≡ m.counter
counter-delete id m = ap (λ (n : Store). n.counter) (delete-data_map id m)

-- While the counter does not wrap.
run-Reflects :
    (os : List Op) (m : Store) (ids : List ℕ)
    → m.counter + puts os < 2 ^ 64
    → Reflects m ids
    → Reflects (run os m) (put_order os ids)
unfolding put quarantine reset
run-Reflects [] m ids h r = r
run-Reflects (put_call id type buff ∷ os) m ids h r =
    let next = next_counter-no_wrap m.counter (omega arith) in
    run-Reflects os (run_op (put_call id type buff) m) (without id ids ++ id ∷ [])
      (rw (next) (omega arith)) (put-Reflects id type buff m ids (omega arith) r)
run-Reflects (delete_call id ∷ os) m ids h r =
    run-Reflects os (or_same m (delete id m)) (without id ids) (rw (counter-delete id m) h)
      (erase-Reflects id m ids r)
run-Reflects (quarantine_call id ∷ os) m ids h r =
    run-Reflects os (or_same m (delete id m)) (without id ids) (rw (counter-delete id m) h)
      (erase-Reflects id m ids r)
run-Reflects (reset_call ∷ os) m ids h r = run-Reflects os (reset m) [] h (reset-Reflects m ids r)

-- After any operations on a new store, less than 2^63 of them Put, List returns the identifiers in
-- the order in which they were last put, whatever the order in which it visits the entries.
pub list_in_put_order :
    (os : List Op) (es : List (ℕ × MemoryPacket))
    → puts os < 2 ^ 63
    → Permᴰ es (run os new_store).data_map
    → list es ≡ put_order os []
unfolding Reflects new_store IsAscending
list_in_put_order os es h p =
    let (e, a) = run-Reflects os new_store [] (omega arith) (refl, omega arith) in
    let m = run os new_store in
    list-insert_all es
    ∙ ap (map id_of) (
        sym (
          insert_all-perm m.data_map es [] (Permᴰ.symm p)
            (IsAscending-IsDistinct 0 m.data_map m.counter a)))
    ∙ ap (map id_of) (insert_all-ascending 0 m.data_map [] m.counter a (record {}))
    ∙ e
