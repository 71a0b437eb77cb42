-- ===== src/Client/Router.antt =====
-- paho/router.go: which handlers a publish goes to. A handler is a number; the entries of a Go map
-- are a list, in the order of the visit. A result that is none is a panic.
pub mod Matching
pub mod Aliases
use paho_golang.Common.{
  ℕ, zero, suc, List, [], ◌∷◌, ◌++◌, Bool, true, false, ◌&&◌, ◌||◌, ◌==◌, if◌then◌else◌, Option,
  none, some,
}
use paho_golang.Packets.Result.{Bytes}
use paho_golang.Packets.Properties.{Properties}
use paho_golang.Packets.Requests.{Publish}

-- `s == t` on strings
abbrev pub same : Bytes → Bytes → Bool
same [] [] = true
same [] (t ∷ ts) = false
same (s ∷ ss) [] = false
same (s ∷ ss) (t ∷ ts) = s == t && same ss ts

-- "#" and "+", "/" and "$share"
abbrev pub hash : Bytes
hash = 35 ∷ []

abbrev pub plus : Bytes
plus = 43 ∷ []

abbrev pub slash : ℕ
slash = 47

abbrev pub share : Bytes
share = 36 ∷ 115 ∷ 104 ∷ 97 ∷ 114 ∷ 101 ∷ []

-- strings.HasPrefix
abbrev pub has_prefix : Bytes → Bytes → Bool
has_prefix s [] = true
has_prefix [] (p ∷ ps) = false
has_prefix (c ∷ s) (p ∷ ps) = c == p && has_prefix s ps

abbrev pub extend_first : ℕ → List Bytes → List Bytes
extend_first c [] = (c ∷ []) ∷ []
extend_first c (level ∷ levels) = (c ∷ level) ∷ levels

-- strings.Split at "/"
abbrev pub split : Bytes → List Bytes
split [] = [] ∷ []
split (c ∷ s) = let rest = split s in if c == slash then [] ∷ rest else extend_first c rest

-- `[2:]`
abbrev pub from_third : List Bytes → Option (List Bytes)
from_third [] = none
from_third (g ∷ []) = none
from_third (g ∷ h ∷ levels) = some levels

-- matchDeep
unfoldable pub match_deep : List Bytes → List Bytes → Bool
match_deep [] [] = true
match_deep [] (t ∷ ts) = false
match_deep (r ∷ rs) [] = same r hash
match_deep (r ∷ rs) (t ∷ ts) =
    let rest = match_deep rs ts in
    if same r hash then true else if same r plus || same r t then rest else false

-- routeSplit
pub route_split : Bytes → Option (List Bytes)
route_split [] = some []
route_split (c ∷ s) =
    if has_prefix (c ∷ s) share then from_third (split (c ∷ s)) else some (split (c ∷ s))

-- topicSplit
pub topic_split : Bytes → List Bytes
topic_split [] = []
topic_split (c ∷ s) = split (c ∷ s)

-- routeIncludesTopic
pub route_includes_topic : Bytes → Bytes → Option Bool
unfolding route_split
route_includes_topic route topic = elim (route_split route) [
  | none ↦ none
  | some levels ↦ some (match_deep levels (topic_split topic))
]

-- match
unfoldable pub matches : Bytes → Bytes → Option Bool
unfolding route_includes_topic
matches route topic = if same route topic then some true else route_includes_topic route topic

pub record StandardRouter : Type 0 where
  pub default_handler : Option ℕ
  pub subscriptions : List (Bytes × List ℕ)
  pub aliases : List (ℕ × Bytes)

abbrev pub alias_topic : ℕ → List (ℕ × Bytes) → Option Bytes
alias_topic a [] = none
alias_topic a ((b, topic) ∷ as') = if a == b then some topic else alias_topic a as'

-- `if pb.Topic != "" { r.aliases[…] = pb.Topic }`
abbrev pub register_alias : ℕ → Bytes → List (ℕ × Bytes) → List (ℕ × Bytes)
register_alias a [] known = known
register_alias a (c ∷ s) known = (a, c ∷ s) ∷ known

abbrev pub topic_or_empty : Option Bytes → Bytes
topic_or_empty none = []
topic_or_empty (some topic) = topic

-- The topic of a publish, with the aliases afterwards.
unfoldable pub resolve : Option ℕ → Bytes → List (ℕ × Bytes) → Bytes × List (ℕ × Bytes)
resolve none topic known = (topic, known)
resolve (some a) topic known =
    let known' = register_alias a topic known in (topic_or_empty (alias_topic a known'), known')

-- The handlers that the loop calls.
abbrev pub called_too : Option Bool → List ℕ → Option (List ℕ) → Option (List ℕ)
called_too (some true) handlers (some rest) = some (handlers ++ rest)
called_too (some false) handlers (some rest) = some rest
called_too (some b) handlers none = none
called_too none handlers o = none

unfoldable pub handlers_for : List (Bytes × List ℕ) → Bytes → Option (List ℕ)
unfolding matches
handlers_for [] topic = some []
handlers_for ((route, handlers) ∷ subs) topic =
    called_too (matches route topic) handlers (handlers_for subs topic)

abbrev pub or_default : Option ℕ → List ℕ → List ℕ
or_default none [] = []
or_default (some h) [] = h ∷ []
or_default d (h ∷ hs) = h ∷ hs

-- The end of Route: the default handler, if no other was called.
abbrev pub routed :
    StandardRouter → List (ℕ × Bytes) → Option (List ℕ) → Option (List ℕ × StandardRouter)
routed r known none = none
routed r known (some called) =
    some (or_default r.default_handler called, record r { aliases = known })

-- Route: the handlers that are called, with the router afterwards.
unfoldable pub route : Publish → StandardRouter → Option (List ℕ × StandardRouter)
unfolding resolve handlers_for
route pb r = elim pb.properties [
  | none ↦ none
  | some i ↦
      let t = resolve i.topic_alias pb.topic r.aliases in
      routed r t.1 (handlers_for r.subscriptions t.0)
]

-- NewStandardRouter
pub new_standard_router : StandardRouter
new_standard_router = record { default_handler = none; subscriptions = []; aliases = [] }

-- DefaultHandler
pub set_default_handler : Option ℕ → StandardRouter → StandardRouter
set_default_handler h r = record r { default_handler = h }

-- RegisterHandler and UnregisterHandler, on the subscriptions.
pub register_handler : Bytes → ℕ → List (Bytes × List ℕ) → List (Bytes × List ℕ)
register_handler topic h [] = (topic, h ∷ []) ∷ []
register_handler topic h ((route, handlers) ∷ subs) =
    let rest = register_handler topic h subs in
    if same topic route then (route, handlers ++ h ∷ []) ∷ subs else (route, handlers) ∷ rest

pub unregister_handler : Bytes → List (Bytes × List ℕ) → List (Bytes × List ℕ)
unregister_handler topic [] = []
unregister_handler topic ((route, handlers) ∷ subs) =
    let rest = unregister_handler topic subs in
    if same topic route then rest else (route, handlers) ∷ rest
