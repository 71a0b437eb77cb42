-- ===== src/Client/Tests.antt =====
-- Parts of the client at concrete inputs.
use paho_golang.Common.{ℕ, ◌≡◌, refl, List, [], ◌∷◌, ◌++◌, true, false, none, some, ◌↔◌, All}
use paho_golang.Packets.Requests.{Publish}
use paho_golang.Client.AcksTracker.{Tracker, flush}
use paho_golang.Client.AcksTracker.Order.{
  Call, add_call, mark_call, flush_call, run_calls, publishes, accepted, handed_over_in_order,
  IsStopped, flush_cuts,
}
use paho_golang.Client.Router.{
  StandardRouter, route, resolve, handlers_for, matches, match_deep, share, route_split, plus, hash,
}
use paho_golang.Client.Router.Matching.{Filter, match_deep_iff, route_split_panics}
use paho_golang.Packets.Properties.{empty}
use paho_golang.Client.Router.Aliases.{naming, aliased, route-aliased}

abbrev numbered : ℕ → Publish
numbered n = record {
  payload = [];
  topic = 97 ∷ [];
  properties = none;
  packet_id = n;
  qos = 1;
  duplicate = false;
  retain = false;
}

-- Two arrive, and the second is acknowledged first.
abbrev acks : List Call
acks =
    add_call (numbered 1)
    ∷ add_call (numbered 2)
    ∷ mark_call (numbered 2)
    ∷ flush_call
    ∷ mark_call (numbered 1)
    ∷ flush_call
    ∷ []

handed_over_in_order_example :
    (run_calls acks ([], [])).0 ++ publishes (run_calls acks ([], [])).1 ≡ accepted acks ([], [])
handed_over_in_order_example = handed_over_in_order acks

abbrev waiting : Tracker
waiting =
    record { pb = numbered 1; acknowledged = true }
    ∷ record { pb = numbered 2; acknowledged = false }
    ∷ []

flush_cuts_example :
    (front : Tracker) × (waiting ≡ front ++ (flush waiting).1)
    × (publishes front ≡ (flush waiting).0)
    × All (λ v. v.acknowledged ≡ true) front
    × IsStopped (flush waiting).1
flush_cuts_example = flush_cuts waiting

-- The filter "a/+/#" and the topic "a/b".
match_deep_iff_example :
    (match_deep ((97 ∷ []) ∷ plus ∷ hash ∷ []) ((97 ∷ []) ∷ (98 ∷ []) ∷ []) ≡ true)
    ↔ Filter ((97 ∷ []) ∷ plus ∷ hash ∷ []) ((97 ∷ []) ∷ (98 ∷ []) ∷ [])
match_deep_iff_example = match_deep_iff ((97 ∷ []) ∷ plus ∷ hash ∷ []) ((97 ∷ []) ∷ (98 ∷ []) ∷ [])

route_split_panics_example : route_split (share ++ 100 ∷ []) ≡ none
route_split_panics_example = route_split_panics (100 ∷ []) (refl, tt)

-- One handler for the topic "a".
abbrev router : StandardRouter
router = record { default_handler = none; subscriptions = (97 ∷ [], 4 ∷ []) ∷ []; aliases = [] }

abbrev router_after : StandardRouter
router_after = record router { aliases = (7, 97 ∷ []) ∷ [] }

routed_first :
    route (naming 7 97 [] (record empty { message_expiry = some 60 }) (numbered 0)) router
    ≡ some (4 ∷ [], router_after)
unfolding route resolve handlers_for matches
routed_first = refl

route-aliased_example :
    route (aliased 7 (record empty { response_topic = 98 ∷ [] }) (numbered 0)) router_after
    ≡ some (4 ∷ [], router_after)
route-aliased_example =
    route-aliased 7 97 [] (record empty { message_expiry = some 60 })
      (record empty { response_topic = 98 ∷ [] }) (numbered 0) (numbered 0) router router_after
      (4 ∷ []) routed_first
