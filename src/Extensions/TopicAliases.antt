-- ===== src/Extensions/TopicAliases.antt =====
-- paho/extensions/topicaliases/topicliases.go: TAHandler. A result that is none is an index out of
-- range. The aliases are uint16: `max + 1` and `i++` wrap around at 65536.
pub mod Agreement
pub mod Full
use paho_golang.Common.{
  ℕ, zero, suc, ◌+◌, ◌%◌, List, [], ◌∷◌, Bool, true, false, ◌==◌, if◌then◌else◌, Option, none, some,
  ltb, leb,
}
use paho_golang.Packets.Result.{Bytes}
use paho_golang.Client.Router.{same}
use paho_golang.Client.Conversions.Messages.{Publish, PublishProperties}

pub record TaHandler : Type 0 where
  pub alias_max : ℕ
  pub aliases : List Bytes

unfoldable pub blank : ℕ → List Bytes
blank zero = []
blank (suc n) = [] ∷ blank n

-- NewTAHandler
unfoldable pub new_ta_handler : ℕ → TaHandler
unfolding blank
new_ta_handler max = record { alias_max = (max + 1) % 65536; aliases = blank ((max + 1) % 65536) }

-- `t.aliases[i]`
unfoldable pub at_index : ℕ → List Bytes → Option Bytes
at_index i [] = none
at_index zero (t ∷ ts) = some t
at_index (suc i) (t ∷ ts) = at_index i ts

-- `t.aliases[i] = topic`
unfoldable pub set_index : ℕ → Bytes → List Bytes → Option (List Bytes)
set_index i topic [] = none
set_index zero topic (t ∷ ts) = some (topic ∷ ts)
set_index (suc i) topic (t ∷ ts) = elim (set_index i topic ts) [
  | none ↦ none
  | some us ↦ some (t ∷ us)
]

-- GetTopic
unfoldable pub get_topic : ℕ → TaHandler → Option Bytes
unfolding at_index
get_topic a t = if ltb t.alias_max a then some [] else at_index a t.aliases

-- GetAlias, from the position `i` on.
unfoldable pub get_alias_from : ℕ → Bytes → List Bytes → ℕ
get_alias_from i topic [] = 0
get_alias_from i topic (s ∷ ss) =
    let rest = get_alias_from (i + 1) topic ss in if same s topic then i % 65536 else rest

abbrev pub get_alias : Bytes → TaHandler → ℕ
get_alias topic t = get_alias_from 0 topic t.aliases

-- ResetAlias
unfoldable pub reset_alias : Bytes → ℕ → TaHandler → Option TaHandler
unfolding set_index
reset_alias topic a t = elim (set_index a topic t.aliases) [
  | none ↦ none
  | some ts ↦ some (record t { aliases = ts })
]

-- The loop of SetAlias from `i` on: the alias, with the handler.
unfoldable pub set_alias_from : ℕ → ℕ → Bytes → TaHandler → Option (ℕ × TaHandler)
unfolding at_index reset_alias
set_alias_from zero i topic t = some (0, t)
set_alias_from (suc fuel) i topic t =
    let rest = set_alias_from fuel ((i + 1) % 65536) topic t in
    if leb i t.alias_max
    then elim (at_index i t.aliases) [
      | none ↦ none
      | some s ↦ elim s [
        | [] ↦ elim (reset_alias topic i t) [ none ↦ none | some t' ↦ some (i, t') ]
        | b ∷ bs ↦ rest
      ]
    ]
    else some (0, t)

-- SetAlias; the loop leaves the slice, or finds an alias, within as many rounds as there are aliases.
unfoldable pub set_alias : Bytes → TaHandler → Option (ℕ × TaHandler)
unfolding set_alias_from
set_alias topic t = set_alias_from (suc t.alias_max) 1 topic t

-- ResetAll
unfoldable pub clear : List Bytes → List Bytes
clear [] = []
clear (t ∷ ts) = [] ∷ clear ts

unfoldable pub reset_all : TaHandler → TaHandler
unfolding clear
reset_all t = record t { aliases = clear t.aliases }

-- `&paho.PublishProperties{}`
abbrev pub no_properties : PublishProperties
no_properties = record {
  correlation_data = [];
  content_type = [];
  response_topic = [];
  payload_format = none;
  message_expiry = none;
  subscription_identifier = none;
  topic_alias = none;
  user = [];
}

-- `p.Properties.TopicAlias = …`, over new properties if there are none.
abbrev pub with_alias : ℕ → Publish → Publish
with_alias a p = elim (p.properties) [
  | none ↦ record p { properties = some (record no_properties { topic_alias = some a }) }
  | some i ↦ record p { properties = some (record i { topic_alias = some a }) }
]

abbrev pub own_alias : Publish → Option ℕ
own_alias p = elim (p.properties) [ none ↦ none | some i ↦ i.topic_alias ]

abbrev pub newly_aliased : Publish → Option (ℕ × TaHandler) → Option (Publish × TaHandler)
newly_aliased p none = none
newly_aliased p (some (a, t)) = some (if a == 0 then p else with_alias a p, t)

-- PublishHook
unfoldable pub publish_hook : Publish → TaHandler → Option (Publish × TaHandler)
unfolding set_alias get_alias_from reset_alias
publish_hook p t = elim (own_alias p) [
  | some a ↦ elim (reset_alias p.topic a t) [ none ↦ none | some t' ↦ some (p, t') ]
  | none ↦
      let a = get_alias p.topic t in
      if a == 0
      then newly_aliased p (set_alias p.topic t)
      else some (record (with_alias a p) { topic = [] }, t)
]
