-- ===== src/Client/Sending.antt =====
-- paho/client.go: PublishWithOptions, publishQoS12, Subscribe and Unsubscribe. What AddToSession, the
-- write and the wait for an answer give is an argument.
pub mod Limits
pub mod Answered
use paho_golang.Common.{
  ℕ, List, [], ◌∷◌, Bool, true, false, not, ◌&&◌, ◌||◌, ◌==◌, if◌then◌else◌, Option, none, some,
  ltb, leb,
}
use paho_golang.Common.Int.{ℤ}
use paho_golang.Packets.Types
use paho_golang.Packets.Result.{Bytes}
use paho_golang.Packets.Acks.{Ack}
use paho_golang.Packets.Requests
use paho_golang.Packets.Replies
use paho_golang.Packets.Control.{Content, ControlPacket, puback, pubrec, pubcomp, suback, unsuback}
use paho_golang.Client.Router.{hash, plus, share, has_prefix}
use paho_golang.Client.Negotiated.{CommsProperties}
use paho_golang.Client.Conversions.Messages.{
  Publish, PublishProperties, PublishResponse, publish_packet, publish_response_from,
}
use paho_golang.Client.Conversions.Subscriptions.{
  Subscribe, SubscribeOptions, SubscribeProperties, Suback, Unsuback, suback_from_packet_suback,
  unsuback_from_packet_unsuback,
}

-- The arguments that a call refuses, each ErrInvalidArguments.
pub data Refusal : Type 0 where
  qos_too_high alias_too_high retain_unavailable no_topic no_qos : Refusal
  wildcards_unavailable sub_id_unavailable shared_unavailable : Refusal

-- How a call ends. `answered` has the error of the answer, if there is one, as its second part.
pub data Outcome (A : Type 0) : Type 0 where
  refused : Refusal → Outcome A
  write_error session_error stored_not_sent queued context_done shut_down panicked : Outcome A
  unexpected : ℕ → Outcome A
  answered : A → Bool → Outcome A

-- `p.Properties == nil || p.Properties.TopicAlias == nil` for none.
abbrev pub alias_of : Publish → Option ℕ
alias_of p = elim (p.properties) [ none ↦ none | some i ↦ i.topic_alias ]

abbrev pub is_empty : Bytes → Bool
is_empty [] = true
is_empty (b ∷ bs) = false

abbrev pub is_over : Option ℕ → ℕ → Bool
is_over none maximum = false
is_over (some a) maximum = ltb 0 maximum && ltb maximum a

abbrev pub is_nil {ℓ} : {A : Type ℓ} → Option A → Bool
is_nil none = true
is_nil (some a) = false

-- The tests of PublishWithOptions.
unfoldable pub publish_refused : CommsProperties → Publish → Option Refusal
publish_refused c p =
    if ltb c.maximum_qos p.qos
    then some qos_too_high
    else if is_over (alias_of p) c.topic_alias_maximum
    then some alias_too_high
    else if not c.retain_available && p.retain
    then some retain_unavailable
    else if is_nil (alias_of p) && is_empty p.topic
    then some no_topic
    else none

-- What the response says, with the error of a PUBACK; none is a nil *Properties.
abbrev pub response_with : Bool → Option PublishResponse → Outcome PublishResponse
response_with failing none = panicked
response_with failing (some pr) = answered pr (failing && leb 128 pr.reason_code)

-- Type assertions, such as `resp.Content.(*packets.Puback)`; none is a panic.
abbrev pub as_puback : Content → Option Ack
as_puback c = elim c [ puback a ↦ some a | _ ↦ none ]

abbrev pub as_pubcomp : Content → Option Ack
as_pubcomp c = elim c [ pubcomp a ↦ some a | _ ↦ none ]

abbrev pub as_pubrec : Content → Option Ack
as_pubrec c = elim c [ pubrec a ↦ some a | _ ↦ none ]

abbrev pub as_suback : Content → Option Replies.Suback
as_suback c = elim c [ suback a ↦ some a | _ ↦ none ]

abbrev pub as_unsuback : Content → Option Replies.Unsuback
as_unsuback c = elim c [ unsuback a ↦ some a | _ ↦ none ]

abbrev pub response_to : Bool → Option Ack → Outcome PublishResponse
response_to failing none = panicked
response_to failing (some a) = response_with failing (publish_response_from a)

-- The end of publishQoS12, for the packet that came.
unfoldable pub publish_answered : ℕ → ControlPacket → Outcome PublishResponse
publish_answered qos resp =
    if qos == 1
    then (if resp.packet_type == Types.puback
        then response_to true (as_puback resp.content)
        else unexpected resp.packet_type)
    else if resp.packet_type == Types.pubcomp
    then response_to false (as_pubcomp resp.content)
    else if resp.packet_type == Types.pubrec
    then response_to false (as_pubrec resp.content)
    else unexpected resp.packet_type

-- PublishMethod
pub data PublishMethod : Type 0 where
  blocking async_send : PublishMethod

-- Whether AddToSession and the write succeed, and what comes first: the end of the context, none, or
-- the packet on the channel, none inside for the one that is sent at shutdown.
pub record Surroundings : Type 0 where
  pub stored : Bool
  pub written : Bool
  pub answer : Option (Option ControlPacket)

-- The wait for the answer.
abbrev pub wait_for :
    {A : Type 0} → Option (Option ControlPacket) → (ControlPacket → Outcome A) → Outcome A
wait_for none next = context_done
wait_for (some none) next = shut_down
wait_for (some (some resp)) next = next resp

-- publishQoS12; a blocking call waits for the answer even when the write has failed.
unfoldable pub publish_qos12 : ℕ → PublishMethod → Surroundings → Outcome PublishResponse
unfolding publish_answered
publish_qos12 qos method e =
    if e.stored
    then elim method [
      | blocking ↦ wait_for e.answer (publish_answered qos)
      | async_send ↦ (if e.written then queued else stored_not_sent)
    ]
    else session_error

abbrev pub hooked : Option (Publish → Publish) → Publish → Publish
hooked none p = p
hooked (some hook) p = hook p

-- The response of QoS 0, `&PublishResponse{}`.
abbrev pub no_response : PublishResponse
no_response = record { properties = none; reason_code = 0 }

abbrev pub publish_by_qos : Publish → PublishMethod → Surroundings → Outcome PublishResponse
publish_by_qos p method e =
    if p.qos == 0
    then (if e.written then answered no_response false else write_error)
    else if p.qos == 1 || p.qos == 2
    then publish_qos12 p.qos method e
    else refused no_qos

-- PublishWithOptions, and the packet that is handed on, which is none for refused arguments.
unfoldable pub publish_with_options :
    Option (Publish → Publish)
    → CommsProperties
    → PublishMethod
    → Surroundings
    → Publish
    → Outcome PublishResponse × Option Requests.Publish
unfolding publish_refused publish_qos12 publish_packet
publish_with_options hook c method e p = elim (publish_refused c p) [
  | some r ↦ (refused r, none)
  | none ↦
      let q = hooked hook p in
      (publish_by_qos q method e, if leb q.qos 2 then some (publish_packet q) else none)
]

-- strings.ContainsAny(topic, "#+")
abbrev pub has_wildcard : Bytes → Bool
has_wildcard [] = false
has_wildcard (b ∷ bs) = b == 35 || b == 43 || has_wildcard bs

abbrev pub any_topic : (Bytes → Bool) → List SubscribeOptions → Bool
any_topic f [] = false
any_topic f (sub ∷ subs) = f sub.topic || any_topic f subs

abbrev pub has_sub_id : Option SubscribeProperties → Bool
has_sub_id none = false
has_sub_id (some p) = not (is_nil p.subscription_identifier)

-- The tests of Subscribe.
unfoldable pub subscribe_refused : CommsProperties → Subscribe → Option Refusal
subscribe_refused c s =
    if not c.wildcard_sub_available && any_topic has_wildcard s.subscriptions
    then some wildcards_unavailable
    else if not c.sub_id_available && has_sub_id s.properties
    then some sub_id_unavailable
    else if not c.shared_sub_available && any_topic (λ t. has_prefix t share) s.subscriptions
    then some shared_unavailable
    else none

-- `for _, code := range sa.Reasons { if code >= 0x80 …`
abbrev pub any_failed : List ℕ → Bool
any_failed [] = false
any_failed (code ∷ codes) = if leb 128 code then true else any_failed codes

-- The error of the answer: one reason code is looked at alone.
unfoldable pub reasons_failed : List ℕ → Bool
reasons_failed [] = any_failed []
reasons_failed (code ∷ []) = leb 128 code
reasons_failed (code ∷ d ∷ codes) = any_failed (code ∷ d ∷ codes)

abbrev pub suback_seen : Option Suback → Outcome Suback
suback_seen none = panicked
suback_seen (some sa) = answered sa (reasons_failed sa.reasons)

abbrev pub suback_to : Option Replies.Suback → Outcome Suback
suback_to none = panicked
suback_to (some a) = suback_seen (suback_from_packet_suback a)

-- The end of Subscribe, for the packet that came.
unfoldable pub subscribe_answered : ControlPacket → Outcome Suback
subscribe_answered resp =
    if resp.packet_type == Types.suback
    then suback_to (as_suback resp.content)
    else unexpected resp.packet_type

abbrev pub unsuback_seen : Option Unsuback → Outcome Unsuback
unsuback_seen none = panicked
unsuback_seen (some ua) = answered ua (reasons_failed ua.reasons)

abbrev pub unsuback_to : Option Replies.Unsuback → Outcome Unsuback
unsuback_to none = panicked
unsuback_to (some a) = unsuback_seen (unsuback_from_packet_unsuback a)

-- The end of Unsubscribe, for the packet that came.
unfoldable pub unsubscribe_answered : ControlPacket → Outcome Unsuback
unsubscribe_answered resp =
    if resp.packet_type == Types.unsuback
    then unsuback_to (as_unsuback resp.content)
    else unexpected resp.packet_type

-- From AddToSession on.
abbrev pub request : {A : Type 0} → (ControlPacket → Outcome A) → Surroundings → Outcome A
request next e =
    if e.stored then (if e.written then wait_for e.answer next else write_error) else session_error

-- Subscribe
unfoldable pub subscribe : CommsProperties → Surroundings → Subscribe → Outcome Suback
unfolding subscribe_refused subscribe_answered
subscribe c e s = elim (subscribe_refused c s) [
  | some r ↦ refused r
  | none ↦ request subscribe_answered e
]

-- Unsubscribe
unfoldable pub unsubscribe : Surroundings → Outcome Unsuback
unfolding unsubscribe_answered
unsubscribe e = request unsubscribe_answered e
