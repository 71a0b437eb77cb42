-- ===== src/Client/Router/Aliases.antt =====
-- paho/router.go: publishes that name a topic alias, and those that use one.
use mathlib.Core.Path.{subst}
use mathlib.Core.Option.{some-injective}
use paho_golang.Common.{ℕ, ◌≡◌, refl, sym, List, [], ◌∷◌, Option, none, some, arith}
use paho_golang.Packets.Result.{Bytes}
use paho_golang.Packets.Properties.{Properties}
use paho_golang.Packets.Requests.{Publish}
use paho_golang.Client.Router.{
  StandardRouter, alias_topic, resolve, handlers_for, routed, topic_or_empty, route,
}

-- A publish that gives an alias to a topic, with any other properties.
abbrev pub naming : ℕ → ℕ → Bytes → Properties → Publish → Publish
naming a c s i p = record p { topic = c ∷ s; properties = some (record i { topic_alias = some a }) }

-- A publish that uses an alias in place of a topic, with any other properties.
abbrev pub aliased : ℕ → Properties → Publish → Publish
aliased a i p = record p { topic = []; properties = some (record i { topic_alias = some a }) }

-- The router after a publish that does not panic: routing from there gives the same again.
routed-again :
    (r r' : StandardRouter) (known : List (ℕ × Bytes)) (o : Option (List ℕ)) (hs : List ℕ)
    → routed r known o ≡ some (hs, r')
    → (r' ≡ record r { aliases = known }) × (routed r' known o ≡ some (hs, r'))
routed-again r r' known none hs e = ground arith
routed-again r r' known (some called) hs e =
    subst (λ q. (q.1 ≡ record r { aliases = known }) × (routed q.1 known (some called) ≡ some q))
      (some-injective _ _ e) (refl, refl)

-- Where a publish that gives an alias to its topic is routed without a panic, a publish with that
-- alias in place of a topic is routed next to the same handlers, and leaves the router as it is.
pub route-aliased :
    (a c : ℕ) (s : Bytes) (i j : Properties) (p q : Publish) (r r' : StandardRouter) (hs : List ℕ)
    → route (naming a c s i p) r ≡ some (hs, r')
    → route (aliased a j q) r' ≡ some (hs, r')
unfolding route resolve
route-aliased a c s i j p q r r' hs e =
    let (same, again) = routed-again r r' ((a, c ∷ s) ∷ r.aliases) _ hs e in
    subst
      (λ x.
        routed r' x.aliases
          (handlers_for x.subscriptions (topic_or_empty (alias_topic a x.aliases)))
        ≡ some (hs, r'))
      (sym same) again
