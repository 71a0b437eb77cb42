-- ===== src/Client/Sending/Limits.antt =====
-- paho/client.go: what PublishWithOptions and Subscribe let through.
use paho_golang.Common.{
  ℕ, ◌≡◌, refl, ap, sym, ◌∙◌, inl, inr, ◌≤◌, Bool, true, false, not, ◌&&◌, if◌then◌else◌, none,
  some, Option-cases, ltb, leb, arith,
}
use mathlib.Core.Option.{some-injective, none-ne-some}
use paho_golang.Packets.Properties.{Properties}
use paho_golang.Packets.Requests
use paho_golang.Packets.Replies
use paho_golang.Session.State.{or_else}
use paho_golang.Client.Negotiated.{CommsProperties, default_server, server_told}
use paho_golang.Client.Conversions.Messages.{Publish, publish_packet}
use paho_golang.Client.Conversions.Answers.{
  Connack, connack_from_packet_connack, connack_properties_from, available,
}
use paho_golang.Client.Sending.{
  Refusal, PublishMethod, Surroundings, publish_refused, publish_with_options, alias_of, is_over,
  is_nil, is_empty,
}

-- A message that the server's limits allow. A TopicAliasMaximum of 0 sets no limit.
pub record IsAllowed (c : CommsProperties) (p : Publish) : Type 0 where
  pub qos_within : p.qos ≤ c.maximum_qos
  pub alias_within : is_over (alias_of p) c.topic_alias_maximum ≡ false
  pub retain_within : c.retain_available ≡ false → p.retain ≡ false
  pub has_address : (is_nil (alias_of p) && is_empty p.topic) ≡ false

refused_none :
    (b1 b2 b3 b4 : Bool) (r1 r2 r3 r4 : Refusal)
    → (if b1
        then some r1
        else if b2
        then some r2
        else if b3
        then some r3
        else if b4
        then some r4
        else none)
      ≡ none
    → (b1 ≡ false) × (b2 ≡ false) × (b3 ≡ false) × (b4 ≡ false)
refused_none true b2 b3 b4 r1 r2 r3 r4 e = ground arith
refused_none false true b3 b4 r1 r2 r3 r4 e = ground arith
refused_none false false true b4 r1 r2 r3 r4 e = ground arith
refused_none false false false true r1 r2 r3 r4 e = ground arith
refused_none false false false false r1 r2 r3 r4 e = (refl, refl, refl, refl)

no_retain : (a r : Bool) → (not a && r) ≡ false → a ≡ false → r ≡ false
no_retain true r e f = ground arith
no_retain false r e f = e

within_of : (a b : ℕ) → ltb a b ≡ false → b ≤ a
within_of a b e = ground arith

-- Arguments that pass the tests keep the limits.
pub publish_refused-none :
    (c : CommsProperties) (p : Publish) → publish_refused c p ≡ none → IsAllowed c p
unfolding publish_refused
publish_refused-none c p e =
    let (q, a, r, t) = refused_none _ _ _ _ _ _ _ _ e in
    record {
      qos_within = within_of c.maximum_qos p.qos q;
      alias_within = a;
      retain_within = no_retain c.retain_available p.retain r;
      has_address = t;
    }

some_when_true :
    {A : Type 0} (b : Bool) (x q : A) → (if b then some x else none) ≡ some q → (b ≡ true) × (q ≡ x)
some_when_true true x q h = (refl, sym (some-injective _ _ h))
some_when_true false x q h = ground arith

publish_with_options-handed :
    (c : CommsProperties) (m : PublishMethod) (e : Surroundings) (p : Publish)
    (q : Requests.Publish)
    → (publish_with_options none c m e p).1 ≡ some q
    → (publish_refused c p ≡ none) × (leb p.qos 2 ≡ true) × (q ≡ publish_packet p)
unfolding publish_with_options
publish_with_options-handed c m e p q h = elim (Option-cases (publish_refused c p)) [
  | inl n ↦
      let (small, same) = some_when_true _ _ q (sym (rw (publish_with_options, n) refl) ∙ h) in
      (n, small, same)
  | inr (r, n) ↦ absurd (none-ne-some _ (sym (rw (publish_with_options, n) refl) ∙ h))
]

-- What the CONNACK says of the server's limits.
pub record ObeysConnack (i : Properties) (q : Requests.Publish) : Type 0 where
  pub qos_obeyed : q.qos ≤ or_else i.maximum_qos 2
  pub retain_obeyed : i.retain_available ≡ some 0 → q.retain ≡ false

server_told-connack :
    (k : Replies.Connack) (i : Properties) (ca : Connack)
    → k.properties ≡ some i
    → connack_from_packet_connack k ≡ some ca
    → let c = server_told ca default_server in
      (c.maximum_qos ≡ or_else i.maximum_qos 2)
      × (c.retain_available ≡ available i.retain_available)
unfolding connack_from_packet_connack server_told
server_told-connack k i ca known converted =
    let told : Connack = record {
      session_present = k.session_present;
      reason_code = k.reason_code;
      properties = some (connack_properties_from i);
    } in
    let back : connack_from_packet_connack k ≡ some told =
      rw (connack_from_packet_connack, known) refl in
    let same = some-injective _ _ (sym converted ∙ back) in
    (
      ap (λ (x : Connack). (server_told x default_server).maximum_qos) same,
      ap (λ (x : Connack). (server_told x default_server).retain_available) same,
    )

-- Without a PublishHook, a message that goes out after a CONNACK keeps the limits that the CONNACK
-- named: its QoS is at most the maximum, which is 2 when none was named, and its RETAIN flag is not
-- set when the server has said that it does not retain messages.
pub published-ObeysConnack :
    (k : Replies.Connack) (i : Properties) (ca : Connack) (m : PublishMethod) (e : Surroundings)
    (p : Publish) (q : Requests.Publish)
    → k.properties ≡ some i
    → connack_from_packet_connack k ≡ some ca
    → (publish_with_options none (server_told ca default_server) m e p).1 ≡ some q
    → ObeysConnack i q
unfolding publish_packet
published-ObeysConnack k i ca m e p q known converted h =
    let c = server_told ca default_server in
    let (passed, small, same) = publish_with_options-handed c m e p q h in
    let allowed = publish_refused-none c p passed in
    let (qos, retain) = server_told-connack k i ca known converted in
    record {
      qos_obeyed = rw (same, ← qos) allowed.qos_within;
      retain_obeyed = λ no. rw (same) (allowed.retain_within (rw (retain, no) refl));
    }
