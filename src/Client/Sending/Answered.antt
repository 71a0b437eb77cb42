-- ===== src/Client/Sending/Answered.antt =====
-- paho/client.go: the errors that Publish, Subscribe and Unsubscribe make of an answer.
use mathlib.Core.Path.{subst}
use mathlib.Core.Option.{some-injective, none-ne-some}
use paho_golang.Common.{
  ==_iff, ℕ, ◌≡◌, refl, sym, ap, ◌∙◌, ◌↔◌, inl, inr, ◌<◌, ◌≤◌, List, [], ◌∷◌, Bool, true, false,
  ◌&&◌, ◌==◌, if_each, if_both, Option, none, some, Option-cases, Bool-cases, leb, arith, All,
}
use paho_golang.Packets.Acks.{Ack}
use paho_golang.Packets.Control.{ControlPacket, Content, puback, pubrec, pubcomp}
use paho_golang.Client.Conversions.Messages.{PublishResponse, publish_response_from}
use paho_golang.Client.Conversions.Subscriptions.{Suback, suback_from_packet_suback}
use paho_golang.Client.Sending.{
  Outcome, answered, any_failed, reasons_failed, response_to, suback_to, publish_answered,
  subscribe_answered, as_puback, as_pubcomp, as_pubrec, as_suback,
}
use paho_golang.Packets.Types
use paho_golang.Packets.Replies

any_failed_iff : (codes : List ℕ) → (any_failed codes ≡ false) ↔ All (λ c. c < 128) codes
any_failed_iff [] = (λ e. record {}, λ a. refl)
any_failed_iff (c ∷ codes) =
    let (there, back) = any_failed_iff codes in
    elim (Bool-cases (leb 128 c)) [
      | inl e ↦ rw (e) (λ f. ground arith, λ (small, all). ground arith)
      | inr e ↦ rw (e) (λ f. (ground arith, there f), λ (small, all). back all)
    ]

reasons_failed-any : (codes : List ℕ) → reasons_failed codes ≡ any_failed codes
unfolding reasons_failed
reasons_failed-any [] = refl
reasons_failed-any (c ∷ []) = ground arith
reasons_failed-any (c ∷ d ∷ codes) = refl

-- A property of the answer and its error, for the calls that end with an answer.
abbrev pub WhenAnswered : {A : Type 0} → (A → Bool → Type 0) → Outcome A → Type 0
WhenAnswered P (answered a failed) = P a failed
WhenAnswered P o = Unit {0}

-- The reason code that the server has sent.
abbrev pub reason_sent : Content → ℕ
reason_sent (puback a) = a.reason_code
reason_sent (pubrec a) = a.reason_code
reason_sent (pubcomp a) = a.reason_code
reason_sent _ = 0

-- The error that is due to a reason code: for QoS 1 one of 128 or more.
abbrev pub IsDueTo : Bool → ℕ → PublishResponse → Bool → Type 0
IsDueTo failing code pr failed =
    (pr.reason_code ≡ code) × ((failed ≡ true) ↔ ((failing ≡ true) × (128 ≤ code)))

failure_iff :
    (failing : Bool) (code : ℕ)
    → ((failing && leb 128 code) ≡ true) ↔ ((failing ≡ true) × (128 ≤ code))
failure_iff true code = (λ e. (refl, ground arith), λ (e, h). ground arith)
failure_iff false code = (λ e. ground arith, λ (e, h). ground arith)

publish_response_from-reason :
    (a : Ack) (pr : PublishResponse)
    → publish_response_from a ≡ some pr
    → pr.reason_code ≡ a.reason_code
unfolding publish_response_from
publish_response_from-reason a pr e = elim (Option-cases a.properties) [
  | inl f ↦ absurd (none-ne-some pr (rw (f) at e))
  | inr (i, f) ↦
      sym (ap (λ (r : PublishResponse). r.reason_code) (some-injective _ _ (rw (f) at e)))
]

-- The answer carries the reason code `code`, if any.
abbrev Carries : ℕ → Option Ack → Type 0
Carries code none = Unit {0}
Carries code (some a) = a.reason_code ≡ code

as_puback-Carries : (c : Content) → Carries (reason_sent c) (as_puback c)
as_puback-Carries (puback a) = refl
as_puback-Carries _ = record {}

as_pubcomp-Carries : (c : Content) → Carries (reason_sent c) (as_pubcomp c)
as_pubcomp-Carries (pubcomp a) = refl
as_pubcomp-Carries _ = record {}

as_pubrec-Carries : (c : Content) → Carries (reason_sent c) (as_pubrec c)
as_pubrec-Carries (pubrec a) = refl
as_pubrec-Carries _ = record {}

response_to-error :
    (failing : Bool) (code : ℕ) (o : Option Ack)
    → Carries code o
    → WhenAnswered (IsDueTo failing code) (response_to failing o)
response_to-error failing code none carried = record {}
response_to-error failing code (some a) carried = elim (Option-cases (publish_response_from a)) [
  | inl e ↦ rw (e) (record {})
  | inr (pr, e) ↦
      let same = publish_response_from-reason a pr e ∙ carried in
      rw (e) (same, rw (same) (failure_iff failing code))
]

publish_answered-error :
    (qos : ℕ) (resp : ControlPacket)
    → WhenAnswered (IsDueTo (qos == 1) (reason_sent resp.content)) (publish_answered qos resp)
unfolding publish_answered
publish_answered-error qos resp =
    let c = resp.content in
    let P = WhenAnswered (IsDueTo (qos == 1) (reason_sent c)) in
    if_each P (qos == 1)
      (λ e.
        if_both P (resp.packet_type == Types.puback)
          (rw (e) (response_to-error true (reason_sent c) (as_puback c) (as_puback-Carries c)))
          (record {}))
      (λ e.
        if_both P (resp.packet_type == Types.pubcomp)
          (rw (e) (response_to-error false (reason_sent c) (as_pubcomp c) (as_pubcomp-Carries c)))
          (if_both P (resp.packet_type == Types.pubrec)
            (rw (e) (response_to-error false (reason_sent c) (as_pubrec c) (as_pubrec-Carries c)))
            (record {})))

abbrev pub IsDueToReasons : Suback → Bool → Type 0
IsDueToReasons sa failed = (failed ≡ false) ↔ All (λ c. c < 128) sa.reasons

suback_to-error : (o : Option Replies.Suback) → WhenAnswered IsDueToReasons (suback_to o)
suback_to-error none = record {}
suback_to-error (some a) = elim (Option-cases (suback_from_packet_suback a)) [
  | inl e ↦ rw (e) (record {})
  | inr (sa, e) ↦ rw (e, reasons_failed-any sa.reasons) (any_failed_iff sa.reasons)
]

subscribe_answered-error :
    (resp : ControlPacket) → WhenAnswered IsDueToReasons (subscribe_answered resp)
unfolding subscribe_answered
subscribe_answered-error resp =
    if_both (WhenAnswered IsDueToReasons) (resp.packet_type == Types.suback)
      (suback_to-error (as_suback resp.content)) (record {})

-- The error of a SUBACK: a Subscribe that is answered reports an error exactly when one of the reason
-- codes is 128 or more, however many there are.
pub subscribe_answered-failed :
    (resp : ControlPacket) (sa : Suback) (failed : Bool)
    → subscribe_answered resp ≡ answered sa failed
    → (failed ≡ false) ↔ All (λ c. c < 128) sa.reasons
subscribe_answered-failed resp sa failed e =
    subst (WhenAnswered IsDueToReasons) e (subscribe_answered-error resp)

-- The error of a response to a PUBLISH: the response has the reason code that the server has sent,
-- and there is an error exactly when that is 128 or more and the message has QoS 1; with QoS 2 there
-- is none, for a PUBREC that refuses the message neither.
pub publish_answered-failed :
    (qos : ℕ) (resp : ControlPacket) (pr : PublishResponse) (failed : Bool)
    → publish_answered qos resp ≡ answered pr failed
    → (pr.reason_code ≡ reason_sent resp.content)
      × ((failed ≡ true) ↔ ((qos ≡ 1) × (128 ≤ reason_sent resp.content)))
publish_answered-failed qos resp pr failed e =
    let (same, (there, back)) =
      subst (WhenAnswered (IsDueTo (qos == 1) (reason_sent resp.content))) e
        (publish_answered-error qos resp) in
    (
      same,
      (
        λ f. ((==_iff qos 1).0 (there f).0, (there f).1),
        λ (one, large). back ((==_iff qos 1).1 one, large),
      ),
    )
