-- ===== src/Session/MemoryStore/Contents.antt =====
-- paho/store/memory/store.go. The operations in sequence: what a store gives back.
use paho_golang.Common.{
  ℕ, ◌≡◌, refl, ap, ◌∙◌, List, [], ◌∷◌, ◌++◌, inl, inr, Bool, true, false, if◌then◌else◌, arith,
  ◌==◌, Bool-cases, Option, none, some, Option-cases,
}
use paho_golang.Packets.Result.{Bytes}
use paho_golang.Session.MemoryStore.{
  MemoryPacket, Store, new_store, find, erase, put, get, delete, quarantine, reset,
}
use paho_golang.Session.MemoryStore.Order.{
  Op, put_call, delete_call, quarantine_call, reset_call, or_same, run_op, run, delete-data_map,
}

-- What a store promises for a packet identifier.
abbrev pub promised_op : Op → ℕ → Option Bytes → Option Bytes
promised_op (put_call id type buff) j before = if j == id then some buff else before
promised_op (delete_call id) j before = if j == id then none else before
promised_op (quarantine_call id) j before = if j == id then none else before
promised_op reset_call j before = none

abbrev pub promised : List Op → ℕ → Option Bytes → Option Bytes
promised [] j before = before
promised (o ∷ os) j before = promised os j (promised_op o j before)

abbrev content : Option MemoryPacket → Option Bytes
content none = none
content (some d) = some d.p

get-content : (j : ℕ) (m : Store) → get j m ≡ content (find j m.data_map)
unfolding get
get-content j m = elim (Option-cases (find j m.data_map)) [
  | inl e ↦ rw (get, e) refl
  | inr (d, e) ↦ rw (get, e) refl
]

find-erase :
    (j id : ℕ) (es : List (ℕ × MemoryPacket))
    → find j (erase id es) ≡ (if j == id then none else find j es)
unfolding find erase
find-erase j id [] = ground arith
find-erase j id ((k, v) ∷ es) = ground (arith, find-erase j id es)

find-snoc :
    (j : ℕ) (es : List (ℕ × MemoryPacket)) (id : ℕ) (v : MemoryPacket)
    → find j es ≡ none
    → find j (es ++ (id, v) ∷ []) ≡ (if j == id then some v else none)
unfolding find
find-snoc j [] id v e = refl
find-snoc j ((k, w) ∷ es) id v e = ground (arith, find-snoc j es id v)

find-snoc_other :
    (j : ℕ) (es : List (ℕ × MemoryPacket)) (id : ℕ) (v : MemoryPacket)
    → (j == id) ≡ false
    → find j (es ++ (id, v) ∷ []) ≡ find j es
unfolding find
find-snoc_other j [] id v e = rw (e) refl
find-snoc_other j ((k, w) ∷ es) id v e = ground (arith, find-snoc_other j es id v e)

content-if :
    (b : Bool) (o u : Option MemoryPacket)
    → content (if b then o else u) ≡ (if b then content o else content u)
content-if true o u = refl
content-if false o u = refl

find-put :
    (j id : ℕ) (v : MemoryPacket) (es : List (ℕ × MemoryPacket))
    → find j (erase id es ++ (id, v) ∷ []) ≡ (if j == id then some v else find j es)
find-put j id v es = elim (Bool-cases (j == id)) [
  | inl e ↦
      let gone : find j (erase id es) ≡ none = rw (find-erase j id es, e) refl in
      find-snoc j (erase id es) id v gone ∙ rw (e) refl
  | inr e ↦ find-snoc_other j (erase id es) id v e ∙ find-erase j id es ∙ rw (e) refl
]

get-put :
    (j id type : ℕ) (buff : Bytes) (m : Store)
    → get j (or_same m (put id type (some buff) m)) ≡ (if j == id then some buff else get j m)
unfolding put
get-put j id type buff m =
    let v : MemoryPacket = record { c = m.counter; p = buff } in
    get-content j _
    ∙ ap content (find-put j id v m.data_map)
    ∙ content-if (j == id) (some v) (find j m.data_map)
    ∙ rw (get-content j m) refl

get-delete :
    (j id : ℕ) (m : Store) → get j (or_same m (delete id m)) ≡ (if j == id then none else get j m)
get-delete j id m =
    ap (get j) (delete-data_map id m)
    ∙ get-content j _
    ∙ ap content (find-erase j id m.data_map)
    ∙ content-if (j == id) none (find j m.data_map)
    ∙ rw (get-content j m) refl

get-reset : (j : ℕ) (m : Store) → get j (reset m) ≡ none
unfolding get reset find
get-reset j m = refl

get-run_op : (o : Op) (j : ℕ) (m : Store) → get j (run_op o m) ≡ promised_op o j (get j m)
unfolding quarantine
get-run_op (put_call id type buff) j m = get-put j id type buff m
get-run_op (delete_call id) j m = get-delete j id m
get-run_op (quarantine_call id) j m = get-delete j id m
get-run_op reset_call j m = get-reset j m

get-run : (os : List Op) (j : ℕ) (m : Store) → get j (run os m) ≡ promised os j (get j m)
get-run [] j m = refl
get-run (o ∷ os) j m = get-run os j (run_op o m) ∙ ap (promised os j) (get-run_op o j m)

-- After any operations on a new store, Get gives what was last put under the packet identifier,
-- unless it was deleted, quarantined or the store reset since then.
pub get-promised : (os : List Op) (j : ℕ) → get j (run os new_store) ≡ promised os j none
unfolding new_store get find
get-promised os j = get-run os j new_store
