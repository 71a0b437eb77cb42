-- ===== src/Extensions/TopicAliases/Agreement.antt =====
-- paho/extensions/topicaliases/topicliases.go against paho/router.go: the topic that the receiver of an
-- aliased message finds.
use mathlib.Core.Path.{subst}
use mathlib.Core.Option.{some-injective, none-ne-some}
use paho_golang.Common.{
  ℕ, zero, suc, ◌+◌, ◌%◌, ◌≤◌, ◌<◌, ◌≡◌, ◌⊎◌, inl, inr, refl, ap, sym, ◌∙◌, List, [], ◌∷◌, true,
  false, ◌==◌, ==_refl, if◌then◌else◌, if_each, if_both, Option, none, some, Option-cases,
  Bool-cases, leb, length, arith,
}
use paho_golang.Packets.Result.{Bytes}
use paho_golang.Client.Router.{same, resolve, alias_topic}
use paho_golang.Client.Router.Matching.{same-≡}
use paho_golang.Client.Conversions.Messages.{Publish}
use paho_golang.Extensions.TopicAliases.{
  TaHandler, at_index, set_index, get_alias_from, get_alias, reset_alias, set_alias_from, set_alias,
  with_alias, own_alias, newly_aliased, publish_hook,
}

-- The receiver knows every alias of the handler: a topic that stands for the number `a`, which is not
-- 0, is the receiver's topic for `a`.
abbrev pub Agrees : List Bytes → List (ℕ × Bytes) → Type 0
Agrees ts known =
    (a b : ℕ) (bs : Bytes)
    → 0 < a
    → at_index a ts ≡ some (b ∷ bs)
    → alias_topic a known ≡ some (b ∷ bs)

set_index-suc :
    (i : ℕ) (topic t : Bytes) (ts us : List Bytes)
    → set_index (suc i) topic (t ∷ ts) ≡ some us
    → (vs : List Bytes) × (set_index i topic ts ≡ some vs) × (us ≡ t ∷ vs)
unfolding set_index
set_index-suc i topic t ts us e = elim (Option-cases (set_index i topic ts)) [
  | inl n ↦ absurd (none-ne-some us (sym (rw (set_index, n) refl) ∙ e))
  | inr (vs, n) ↦ (vs, n, some-injective _ _ (sym e ∙ rw (set_index, n) refl))
]

-- What stands at a position after one was set.
at_index-set_index :
    (i j : ℕ) (topic : Bytes) (ts us : List Bytes)
    → set_index i topic ts ≡ some us
    → at_index j us ≡ (if j == i then some topic else at_index j ts)
unfolding set_index at_index
at_index-set_index i j topic [] us e = absurd (none-ne-some us e)
at_index-set_index zero zero topic (t ∷ ts) us e = rw (← some-injective _ _ e) refl
at_index-set_index zero (suc j) topic (t ∷ ts) us e = rw (← some-injective _ _ e) (ground arith)
at_index-set_index (suc i) zero topic (t ∷ ts) us e =
    let (vs, n, same_list) = set_index-suc i topic t ts us e in rw (same_list) (ground arith)
at_index-set_index (suc i) (suc j) topic (t ∷ ts) us e =
    let (vs, n, same_list) = set_index-suc i topic t ts us e in
    rw (same_list) (at_index-set_index i j topic ts vs n ∙ ground arith)

length-set_index :
    (i : ℕ) (topic : Bytes) (ts us : List Bytes)
    → set_index i topic ts ≡ some us
    → length us ≡ length ts
unfolding set_index
length-set_index i topic [] us e = absurd (none-ne-some us e)
length-set_index zero topic (t ∷ ts) us e = rw (← some-injective _ _ e) refl
length-set_index (suc i) topic (t ∷ ts) us e =
    let (vs, n, same_list) = set_index-suc i topic t ts us e in
    rw (same_list) (ap suc (length-set_index i topic ts vs n))

-- What GetAlias finds stands at the number it returns.
get_alias_from-at :
    (i : ℕ) (topic : Bytes) (ts : List Bytes)
    → 0 < get_alias_from i topic ts
    → i + length ts ≤ 65536
    → (j : ℕ) × (get_alias_from i topic ts ≡ i + j) × (at_index j ts ≡ some topic)
unfolding get_alias_from at_index
get_alias_from-at i topic [] h short = absurd (omega (arith, h))
get_alias_from-at i topic (s ∷ ss) h short = elim (Bool-cases (same s topic)) [
  | inl e ↦ (0, ground arith, ap some (same-≡ s topic e))
  | inr e ↦
      let (j, at, found) = get_alias_from-at (i + 1) topic ss (rw (e) at h) (omega arith) in
      (suc j, ground arith, found)
]

-- The receiver after a message with the alias `a` and its topic.
registered :
    (a : ℕ) (b : ℕ) (bs : Bytes) (ts us : List Bytes) (known : List (ℕ × Bytes))
    → set_index a (b ∷ bs) ts ≡ some us
    → Agrees ts known
    → let r = resolve (some a) (b ∷ bs) known in (r.0 ≡ b ∷ bs) × Agrees us r.1
unfolding resolve
registered a b bs ts us known e agrees = (
  rw (==_refl a) refl,
  λ j c cs h at.
      let set = sym (at_index-set_index a j (b ∷ bs) ts us e) ∙ at in
      elim (Bool-cases (j == a)) [
        | inl f ↦ rw (f) (rw (f) at set)
        | inr f ↦ rw (f) (agrees j c cs h (rw (f) at set))
      ],
)

-- What SetAlias leaves: the handler as it was, or with the topic at the number it returns.
abbrev Placed : Bytes → TaHandler → Option (ℕ × TaHandler) → Type 0
Placed topic t none = Unit {0}
Placed topic t (some (a, t')) =
    ((a ≡ 0) × (t' ≡ t)) ⊎ (set_index a topic t.aliases ≡ some t'.aliases)

set_alias_here :
    (i : ℕ) (topic : Bytes) (t : TaHandler)
    → Placed topic t (elim (reset_alias topic i t) [ none ↦ none | some t' ↦ some (i, t') ])
unfolding reset_alias
set_alias_here i topic t = elim (Option-cases (set_index i topic t.aliases)) [
  | inl e ↦ rw (e) (record {})
  | inr (us, e) ↦ rw (e) (inr e)
]

set_alias_step :
    (i : ℕ) (topic : Bytes) (t : TaHandler) (s : Bytes) (rest : Option (ℕ × TaHandler))
    → Placed topic t rest
    → Placed topic t (elim s [
      | [] ↦ elim (reset_alias topic i t) [ none ↦ none | some t' ↦ some (i, t') ]
      | b ∷ bs ↦ rest
    ])
set_alias_step i topic t [] rest r = set_alias_here i topic t
set_alias_step i topic t (b ∷ bs) rest r = r

-- An alias of 0 is no alias: the receiver need not know it.
Agrees-zero :
    (a : ℕ) (topic : Bytes) (ts us : List Bytes) (known : List (ℕ × Bytes))
    → (a == 0) ≡ true
    → set_index a topic ts ≡ some us
    → Agrees ts known
    → Agrees us known
Agrees-zero a topic ts us known z e agrees j c cs h at =
    let other : (j == a) ≡ false = ground arith in
    agrees j c cs h (rw (other) at (sym (at_index-set_index a j topic ts us e) ∙ at))

set_alias_from-Placed :
    (fuel i : ℕ) (topic : Bytes) (t : TaHandler) → Placed topic t (set_alias_from fuel i topic t)
unfolding set_alias_from
set_alias_from-Placed zero i topic t = inl (refl, refl)
set_alias_from-Placed (suc fuel) i topic t =
    if_both (Placed topic t) (leb i t.alias_max)
      (elim (Option-cases (at_index i t.aliases)) [
        | inl e ↦ rw (e) (record {})
        | inr (s, e) ↦
            rw (e)
              (set_alias_step i topic t s _ (set_alias_from-Placed fuel ((i + 1) % 65536) topic t))
      ])
      (inl (refl, refl))

module _ (p : Publish) (b : ℕ) (bs : Bytes) (known : List (ℕ × Bytes))
    (named : p.topic ≡ b ∷ bs) where
  -- The receiver of the topic and alias finds the topic of `p`, and knows the handler's aliases.
  abbrev pub Finds : Option ℕ → Bytes → TaHandler → Type 0
  Finds alias topic t = let r = resolve alias topic known in (r.0 ≡ p.topic) × Agrees t.aliases r.1

  abbrev pub Understood : Option (Publish × TaHandler) → Type 0
  Understood none = Unit {0}
  Understood (some (q, t)) = Finds (own_alias q) q.topic t

  own_alias-with_alias : (a : ℕ) → own_alias (with_alias a p) ≡ some a
  own_alias-with_alias a = elim (Option-cases p.properties) [
    | inl e ↦ rw (e) refl
    | inr (i, e) ↦ rw (e) refl
  ]

  topic-with_alias : (a : ℕ) → (with_alias a p).topic ≡ p.topic
  topic-with_alias a = elim (Option-cases p.properties) [
    | inl e ↦ rw (e) refl
    | inr (i, e) ↦ rw (e) refl
  ]

  Finds-registered :
      (a : ℕ) (t t' : TaHandler)
      → set_index a p.topic t.aliases ≡ some t'.aliases
      → Agrees t.aliases known
      → Finds (some a) p.topic t'
  Finds-registered a t t' e agrees =
      subst
        (λ topic.
          set_index a topic t.aliases ≡ some t'.aliases
          → let r = resolve (some a) topic known in (r.0 ≡ topic) × Agrees t'.aliases r.1)
        (sym named) (λ f. registered a b bs t.aliases t'.aliases known f agrees) e

  own_alias-bare : (a : ℕ) → own_alias (record (with_alias a p) { topic = [] }) ≡ some a
  own_alias-bare a = elim (Option-cases p.properties) [
    | inl e ↦ rw (e) refl
    | inr (i, e) ↦ rw (e) refl
  ]

  Finds-bare :
      (t : TaHandler) (a : ℕ)
      → get_alias p.topic t ≡ a
      → 0 < a
      → length t.aliases ≤ 65536
      → Agrees t.aliases known
      → Finds (some a) [] t
  unfolding resolve
  Finds-bare t a is_a h short agrees =
      let (j, at, found) =
        get_alias_from-at 0 p.topic t.aliases (rw (is_a) h) (omega (arith, short)) in
      let same_number : j ≡ a = omega (arith, at, is_a) in
      let knows = agrees a b bs h (rw (← same_number) (found ∙ ap some named)) in
      (rw (knows) (sym named), agrees)

  newly_aliased-Understood :
      (t : TaHandler) (o : Option (ℕ × TaHandler))
      → own_alias p ≡ none
      → Placed p.topic t o
      → Agrees t.aliases known
      → Understood (newly_aliased p o)
  unfolding resolve
  newly_aliased-Understood t none own placed agrees = record {}
  newly_aliased-Understood t (some (a, t')) own (inl (zero_, same_)) agrees =
      rw (zero_, same_) (rw (own) (refl, agrees))
  newly_aliased-Understood t (some (a, t')) own (inr set) agrees =
      if_each (λ q. Finds (own_alias q) q.topic t') (a == 0)
        (λ e. rw (own) (refl, Agrees-zero a p.topic t.aliases t'.aliases known e set agrees))
        (λ e. rw (own_alias-with_alias a, topic-with_alias a) (Finds-registered a t t' set agrees))

  -- Once the receiver knows the handler's aliases, it finds the topic of every message that the hook
  -- lets through, with its topic, with an alias, or with an alias alone; and it then knows the
  -- handler's aliases again. The topic is not empty, and the slice has at most 65536 elements.
  pub publish_hook-Understood :
      (t : TaHandler)
      → length t.aliases ≤ 65536
      → Agrees t.aliases known
      → Understood (publish_hook p t)
  unfolding publish_hook set_alias reset_alias
  publish_hook-Understood t short agrees = elim (Option-cases (own_alias p)) [
    | inr (a, own) ↦ elim (Option-cases (set_index a p.topic t.aliases)) [
      | inl e ↦ rw (publish_hook, own, e) (record {})
      | inr (us, e) ↦
          rw (publish_hook, own, e, own) (Finds-registered a t (record t { aliases = us }) e agrees)
    ]
    | inl own ↦
        rw (publish_hook, own)
          (if_each Understood (get_alias p.topic t == 0)
            (λ e.
              newly_aliased-Understood t (set_alias p.topic t) own
                (set_alias_from-Placed (suc t.alias_max) 1 p.topic t) agrees)
            (λ e.
              rw (own_alias-bare (get_alias p.topic t))
                (Finds-bare t (get_alias p.topic t) refl (ground arith) short agrees)))
  ]
