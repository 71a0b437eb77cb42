-- ===== src/Session/State/Rewinding.antt =====
-- paho/session/state/state.go: AddToSession when it fails.
use paho_golang.Common.{
  ==_iff, ℕ, ◌≤◌, ◌≡◌, refl, sym, ap, ◌∙◌, ◌⊎◌, inl, inr, List, [], ◌∷◌, false, ◌==◌, if◌then◌else◌,
  if_each, none, Option-cases, Bool-cases, arith,
}
use paho_golang.Common.Maps.{lookup, without, lookup-without}
use paho_golang.Packets.Types
use paho_golang.Packets.Control.{publish_packet}
use paho_golang.Session.SendQuota.{release}
use paho_golang.Session.PacketIds.{ClientGenerated, State, in_use, allocate_next_packet_id}
use paho_golang.Session.PacketIds.Allocation.Packets.{AllInUse, Taken, allocate-client_packets}
use paho_golang.Session.Storer.{Storer, PutResult, stored, put_failed, put_panicked}
use paho_golang.Session.State.{
  Session, Request, publish_request, subscribe_request, unsubscribe_request, request_type,
  set_identifier, Added, added, ids_exhausted, store_failed, store_panicked, add_with_slot,
  add_allocated, add_stored,
}

lookup-in_use :
    (id : ℕ) (ps : List (ℕ × ClientGenerated)) → in_use ps id ≡ false → lookup id ps ≡ none
unfolding lookup in_use
lookup-in_use id [] e = refl
lookup-in_use id ((k, cg) ∷ ps) e = elim (Bool-cases (id == k)) [
  | inl f ↦ ground arith
  | inr f ↦ rw (f) (lookup-in_use id ps (rw (f) at e))
]

-- An entry that was free is put in and taken out again.
lookup-rewound :
    (j id : ℕ) (cg : ClientGenerated) (ps : List (ℕ × ClientGenerated))
    → in_use ps id ≡ false
    → lookup j (without id ((id, cg) ∷ ps)) ≡ lookup j ps
unfolding lookup
lookup-rewound j id cg ps free =
    lookup-without j id ((id, cg) ∷ ps)
    ∙ if_each (λ o. o ≡ lookup j ps) (j == id)
        (λ e. sym (ap (λ k. lookup k ps) ((==_iff j id).0 e) ∙ lookup-in_use id ps free))
        (λ e. rw (e) refl)

PutResult-cases :
    {A : Type 0} (o : PutResult A)
    → ((m : A) × (o ≡ stored m)) ⊎ (o ≡ put_failed) ⊎ (o ≡ put_panicked)
PutResult-cases (stored m) = inl (m, refl)
PutResult-cases put_failed = inr (inl refl)
PutResult-cases put_panicked = inr (inr refl)

-- What the store gets: a PUBLISH is put under its identifier.
abbrev pub IsStoredAs : (St : Storer) → ℕ → Request → St.Store → St.Store → Type 0
IsStoredAs St id (publish_request p) m n = St.put id Types.publish (publish_packet p) m ≡ stored n
IsStoredAs St id r m n = n ≡ m

-- Put panics on a PUBLISH with the identifier.
abbrev pub PutPanics : (St : Storer) → ℕ → Request → St.Store → Type 0
PutPanics St id (publish_request p) m =
    St.put id Types.publish (publish_packet (record p { packet_id = id })) m ≡ put_panicked
PutPanics St id r m = ⊥

module _ (St : Storer) (s : Session St) (r : Request) where
  -- The session is as it was before AddToSession, but for the slot, which is released.
  pub record IsRewound (t : Session St) : Type 0 where
    pub same_packets : (j : ℕ) → lookup j t.ids.client_packets ≡ lookup j s.ids.client_packets
    pub same_store : t.client_store ≡ s.client_store
    pub slot_released :
        t.inflight
        ≡ (if request_type r == Types.publish then (release s.inflight).0 else s.inflight)

  -- The packet `q` has an identifier of its own, at which the session waits for the answer to it.
  pub record IsAdded (resp : ℕ) (q : Request) (t : Session St) : Type 0 where
    pub id : ℕ
    pub low : 1 ≤ id
    pub high : id ≤ 65535
    pub was_free : in_use s.ids.client_packets id ≡ false
    pub identified : q ≡ set_identifier id r
    pub waits_for_answer :
        t.ids.client_packets
        ≡ (id, record { packet_type = request_type r; response_chan = resp }) ∷ s.ids.client_packets
    pub is_stored : IsStoredAs St id q s.client_store t.client_store
    pub slot_kept : t.inflight ≡ s.inflight

  abbrev pub AddedOrRewound : ℕ → Session St × Added → Type 0
  AddedOrRewound resp (t, added q) = IsAdded resp q t
  AddedOrRewound resp (t, ids_exhausted) = AllInUse s.ids × IsRewound t
  AddedOrRewound resp (t, store_failed q) = (q ≡ set_identifier 0 r) × IsRewound t
  AddedOrRewound resp (t, store_panicked) = (id : ℕ) × PutPanics St id r s.client_store

module _ (St : Storer) (s : Session St) where
  Taken-IsAdded :
      (id resp : ℕ) (r q : Request) (ids : State) (m : St.Store)
      → Taken (record { packet_type = request_type r; response_chan = resp }) s.ids id ids
      → q ≡ set_identifier id r
      → IsStoredAs St id q s.client_store m
      → IsAdded St s r resp q (record s { ids = ids; client_store = m })
  Taken-IsAdded id resp r q ids m taken named put_there = record {
    id = id;
    low = taken.low;
    high = taken.high;
    was_free = taken.was_free;
    identified = named;
    waits_for_answer = taken.packets;
    is_stored = put_there;
    slot_kept = refl;
  }

  add_allocated-AddedOrRewound :
      (id resp : ℕ) (r : Request) (ids : State)
      → Taken (record { packet_type = request_type r; response_chan = resp }) s.ids id ids
      → AddedOrRewound St s r resp (add_allocated St id r (record s { ids = ids }))
  unfolding add_allocated add_stored
  add_allocated-AddedOrRewound id resp (publish_request p) ids taken =
      let q = record p { packet_id = id } in
      elim (PutResult-cases (St.put id Types.publish (publish_packet q) s.client_store)) [
        | inl (m, f) ↦
            rw (f)
              (Taken-IsAdded id resp (publish_request p) (publish_request q) ids m taken refl f)
        | inr (inl f) ↦ rw (f) (
          refl,
          record {
            same_packets = λ j.
                ap (λ ps. lookup j (without id ps)) taken.packets
                ∙ lookup-rewound j id _ s.ids.client_packets taken.was_free;
            same_store = refl;
            slot_released = refl;
          },
        )
        | inr (inr f) ↦ rw (f) (id, f)
      ]
  add_allocated-AddedOrRewound id resp (subscribe_request p) ids taken =
      Taken-IsAdded id resp (subscribe_request p) _ ids s.client_store taken refl refl
  add_allocated-AddedOrRewound id resp (unsubscribe_request p) ids taken =
      Taken-IsAdded id resp (unsubscribe_request p) _ ids s.client_store taken refl refl

  -- AddToSession from the slot on, where the last identifier is a uint16: the packet gets a free one,
  -- under which its answer is awaited and a PUBLISH stored. Where all are in use or Put fails,
  -- identifiers and store are as before, the slot of a PUBLISH is released, and after Put the packet
  -- has identifier 0. Or Put panics.
  pub add_with_slot-AddedOrRewound :
      (r : Request) (resp : ℕ)
      → s.ids.last_mid ≤ 65535
      → AddedOrRewound St s r resp (add_with_slot St r resp s)
  unfolding add_with_slot
  add_with_slot-AddedOrRewound r resp h =
      let cg : ClientGenerated = record { packet_type = request_type r; response_chan = resp } in
      let (failed, taken) = allocate-client_packets cg s.ids h in
      elim (Option-cases (allocate_next_packet_id cg s.ids).1) [
        | inl e ↦
            rw (add_with_slot, e)
              (
                (failed e).0,
                if_each (λ (t : Session St). IsRewound St s r t) (request_type r == Types.publish)
                    (λ f. record {
                      same_packets = λ j. ap (lookup j) (failed e).1;
                      same_store = refl;
                      slot_released = rw (f) refl;
                    })
                    (λ f. record {
                      same_packets = λ j. ap (lookup j) (failed e).1;
                      same_store = refl;
                      slot_released = rw (f) refl;
                    }),
              )
        | inr (id, e) ↦
            rw (add_with_slot, e) (add_allocated-AddedOrRewound id resp r _ (taken id e))
      ]
