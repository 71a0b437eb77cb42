-- ===== src/Client/Handlers.antt =====
-- paho/client.go: routePublishPackets and AddOnPublishReceived. A handler is a function; the errors
-- that handlers return are of any type, and a nil error is none.
pub mod Identifiers
pub mod Dispatch
use paho_golang.Common.{
  ℕ, zero, suc, ◌+◌, List, [], ◌∷◌, ◌++◌, map, Bool, true, false, not, ◌&&◌, ◌||◌, ◌==◌,
  if◌then◌else◌, Option, none, some, length,
}
use paho_golang.Packets.Requests
use paho_golang.Client.AcksTracker.{Tracker, add}
use paho_golang.Client.Conversions.Messages.{Publish, publish_from_packet_publish}

-- `for _, used := range …`: whether an identifier is used.
unfoldable pub is_used : ℕ → List ℕ → Bool
is_used id [] = false
is_used id (used ∷ ids) = let rest = is_used id ids in if used == id then true else rest

-- idLoop
unfoldable pub unused_from : ℕ → ℕ → List ℕ → Option ℕ
unfolding is_used
unused_from zero id ids = none
unused_from (suc fuel) id ids =
    let rest = unused_from fuel (id + 1) ids in if is_used id ids then rest else some id

-- What a handler is given besides the client: the message, AlreadyHandled and Errs.
abbrev pub Handler : Type 0 → Type 0
Handler Error = Publish → Bool → List (Option Error) → Bool × Option Error

-- onPublishReceivedTracker and onPublishReceived, which have the same length.
abbrev pub Handlers : Type 0 → Type 0
Handlers Error = List (ℕ × Handler Error)

-- A message that has been routed: what the handlers made of it, the tracker of acknowledgements,
-- and whether it was acknowledged at once.
pub record Routed (Error : Type 0) : Type 0 where
  pub handled : Bool
  pub errs : List (Option Error)
  pub tracker : Tracker
  pub acked : Bool

abbrev pub acked_first : Bool → Requests.Publish → List Requests.Publish → List Requests.Publish
acked_first b pb pbs = if b then pb ∷ pbs else pbs

module _ {Error : Type 0} where
  unfoldable pub identifiers : Handlers Error → List ℕ
  identifiers [] = []
  identifiers ((id, h) ∷ hs) = id ∷ identifiers hs

  unfoldable pub handlers_of : Handlers Error → List (Handler Error)
  handlers_of [] = []
  handlers_of ((id, h) ∷ hs) = h ∷ handlers_of hs

  abbrev pub added : Handler Error → Handlers Error → Option ℕ → Option (ℕ × Handlers Error)
  added h hs none = none
  added h hs (some id) = some (id, hs ++ (id, h) ∷ [])

  -- AddOnPublishReceived, with the identifier that the function it returns removes. The loop finds
  -- an identifier after as many tries as there are handlers, and one more.
  unfoldable pub add_on_publish_received :
      Handler Error → Handlers Error → Option (ℕ × Handlers Error)
  unfolding unused_from identifiers
  add_on_publish_received h hs =
      added h hs (unused_from (suc (length (identifiers hs))) 0 (identifiers hs))

  -- The function that AddOnPublishReceived returns. The identifier stands once at most.
  unfoldable pub remove_handler : ℕ → Handlers Error → Handlers Error
  remove_handler id [] = []
  remove_handler id ((stored_id, h) ∷ hs) =
      let rest = remove_handler id hs in if id == stored_id then hs else (stored_id, h) ∷ rest

  -- The loop over the handlers.
  unfoldable pub call_handlers :
      List (Handler Error) → Publish → Bool → List (Option Error) → Bool × List (Option Error)
  call_handlers [] pkt handled errs = (handled, errs)
  call_handlers (h ∷ hs) pkt handled errs =
      let (ha, err) = h pkt handled errs in
      call_handlers hs pkt (if ha then true else handled) (errs ++ err ∷ [])

  -- One round of routePublishPackets; none is a panic.
  unfoldable pub route_publish :
      Bool → Handlers Error → Requests.Publish → Tracker → Option (Routed Error)
  unfolding call_handlers handlers_of publish_from_packet_publish
  route_publish manual hs pb order = elim (publish_from_packet_publish pb) [
    | none ↦ none
    | some pkt ↦
        let (handled, errs) = call_handlers (handlers_of hs) pkt false [] in
        some (record {
          handled = handled;
          errs = errs;
          tracker = if manual && not (pb.qos == 0) then add pb order else order;
          acked = not manual;
        })
  ]

  -- routePublishPackets until the channel is closed: the messages that it acknowledges, in order, and
  -- the tracker.
  unfoldable pub route_publish_packets :
      Bool
      → Handlers Error
      → List Requests.Publish
      → Tracker
      → Option (List Requests.Publish × Tracker)
  unfolding route_publish
  route_publish_packets manual hs [] order = some ([], order)
  route_publish_packets manual hs (pb ∷ pbs) order = elim (route_publish manual hs pb order) [
    | none ↦ none
    | some r ↦ elim (route_publish_packets manual hs pbs r.tracker) [
      | none ↦ none
      | some (acks, t) ↦ some (acked_first r.acked pb acks, t)
    ]
  ]
