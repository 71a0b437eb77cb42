-- ===== src/Client/Router/Matching.antt =====
-- paho/router.go: matchDeep and a description of topic filters by levels; routeSplit.
use paho_golang.Common.{
  ◌≡◌, refl, ap, List, [], ◌∷◌, ◌++◌, Bool, true, false, ◌&&◌, ◌==◌, ==_iff, ==_refl, none, ◌⊎◌,
  inl, inr, Bool-cases, ◌↔◌, arith,
}
use paho_golang.Packets.Result.{Bytes}
use paho_golang.Client.Router.{same, hash, plus, slash, share, split, match_deep, route_split}

both : (a b : Bool) → (a && b) ≡ true → (a ≡ true) × (b ≡ true)
both true b e = (refl, e)
both false b e = ground arith

pub same-≡ : (s t : Bytes) → same s t ≡ true → s ≡ t
same-≡ [] [] e = refl
same-≡ [] (t ∷ ts) e = ground arith
same-≡ (s ∷ ss) [] e = ground arith
same-≡ (s ∷ ss) (t ∷ ts) e =
    let (h, l) = both (s == t) (same ss ts) e in
    let p : s ≡ t = (==_iff s t).0 h in rw (p, same-≡ ss ts l) refl

pub same_refl : (s : Bytes) → same s s ≡ true
same_refl [] = refl
same_refl (c ∷ s) = rw (==_refl c, same_refl s) refl

-- Level by level: equal, or a single-level wildcard in the filter.
abbrev pub Levels : List Bytes → List Bytes → Type 0
Levels [] [] = Unit {0}
Levels [] (t ∷ ts) = ⊥
Levels (r ∷ rs) [] = ⊥
Levels (r ∷ rs) (t ∷ ts) = ((r ≡ plus) ⊎ (r ≡ t)) × Levels rs ts

-- All levels agree, or those before a multi-level wildcard agree with the first ones of the topic.
pub data Filter (route topic : List Bytes) : Type 0 where
  whole : Levels route topic → Filter route topic
  front :
      (before after first rest : List Bytes)
      → route ≡ before ++ hash ∷ after
      → topic ≡ first ++ rest
      → Levels before first
      → Filter route topic

Filter-cons :
    (r t : Bytes) (rs ts : List Bytes)
    → (r ≡ plus) ⊎ (r ≡ t)
    → Filter rs ts
    → Filter (r ∷ rs) (t ∷ ts)
Filter-cons r t rs ts l (whole w) = whole (l, w)
Filter-cons r t rs ts l (front before after first rest e f w) =
    front (r ∷ before) after (t ∷ first) rest (ap (λ x. r ∷ x) e) (ap (λ x. t ∷ x) f) (l, w)

abbrev pub NoSlash : Bytes → Type 0
NoSlash [] = Unit {0}
NoSlash (c ∷ s) = ((c == slash) ≡ false) × NoSlash s

match_deep-Filter : (route topic : List Bytes) → match_deep route topic ≡ true → Filter route topic
unfolding match_deep
match_deep-Filter [] [] e = whole tt
match_deep-Filter [] (t ∷ ts) e = ground arith
match_deep-Filter (r ∷ rs) [] e = front [] rs [] [] (ap (λ x. x ∷ rs) (same-≡ r hash e)) refl tt
match_deep-Filter (r ∷ rs) (t ∷ ts) e = elim (Bool-cases (same r hash)) [
  | inl h ↦ front [] rs [] (t ∷ ts) (ap (λ x. x ∷ rs) (same-≡ r hash h)) refl tt
  | inr h ↦ elim (Bool-cases (same r plus)) [
    | inl p ↦
        Filter-cons r t rs ts (inl (same-≡ r plus p)) (match_deep-Filter rs ts (rw (h, p) at e))
    | inr p ↦ elim (Bool-cases (same r t)) [
      | inl q ↦
          Filter-cons r t rs ts (inr (same-≡ r t q)) (match_deep-Filter rs ts (rw (h, p, q) at e))
      | inr q ↦ ground (arith, e, h, p, q)
    ]
  ]
]

match_deep_step :
    (r t : Bytes) (rs ts : List Bytes)
    → (r ≡ plus) ⊎ (r ≡ t)
    → match_deep rs ts ≡ true
    → match_deep (r ∷ rs) (t ∷ ts) ≡ true
unfolding match_deep
match_deep_step r t rs ts (inl p) e = ground (arith, e, ap (λ x. same x plus) p, same_refl plus)
match_deep_step r t rs ts (inr q) e = ground (arith, e, ap (λ x. same x t) q, same_refl t)

match_deep-Levels : (route topic : List Bytes) → Levels route topic → match_deep route topic ≡ true
unfolding match_deep
match_deep-Levels [] [] w = refl
match_deep-Levels [] (t ∷ ts) w = absurd w
match_deep-Levels (r ∷ rs) [] w = absurd w
match_deep-Levels (r ∷ rs) (t ∷ ts) (l, w) = match_deep_step r t rs ts l (match_deep-Levels rs ts w)

match_deep-hash : (rs topic : List Bytes) → match_deep (hash ∷ rs) topic ≡ true
unfolding match_deep
match_deep-hash rs [] = refl
match_deep-hash rs (t ∷ ts) = refl

match_deep-front :
    (before after first rest : List Bytes)
    → Levels before first
    → match_deep (before ++ hash ∷ after) (first ++ rest) ≡ true
match_deep-front [] after [] rest w = match_deep-hash after rest
match_deep-front [] after (t ∷ first) rest w = absurd w
match_deep-front (r ∷ before) after [] rest w = absurd w
match_deep-front (r ∷ before) after (t ∷ first) rest (l, w) =
    match_deep_step r t _ _ l (match_deep-front before after first rest w)

Filter-match_deep : (route topic : List Bytes) → Filter route topic → match_deep route topic ≡ true
Filter-match_deep route topic (whole w) = match_deep-Levels route topic w
Filter-match_deep route topic (front before after first rest e f w) =
    rw (e, f) (match_deep-front before after first rest w)

-- matchDeep holds exactly for the filters that match: level by level, a "+" for any level, or up to
-- a "#", which matches all levels that are left, also none.
pub match_deep_iff :
    (route topic : List Bytes) → (match_deep route topic ≡ true) ↔ Filter route topic
match_deep_iff route topic = (match_deep-Filter route topic, Filter-match_deep route topic)

one_level : (s : Bytes) → NoSlash s → split s ≡ s ∷ []
one_level [] n = refl
one_level (c ∷ s) (b, n) = rw (b, one_level s n) refl

-- A filter of one level that starts with "$share" makes routeSplit panic.
pub route_split_panics : (s : Bytes) → NoSlash s → route_split (share ++ s) ≡ none
unfolding route_split
route_split_panics s n =
    rw (one_level (share ++ s) (refl, (refl, (refl, (refl, (refl, (refl, n))))))) refl
