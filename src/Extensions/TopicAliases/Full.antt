-- ===== src/Extensions/TopicAliases/Full.antt =====
-- paho/extensions/topicaliases/topicliases.go: SetAlias when every alias is taken.
use mathlib.Core.Option.{none-ne-some}
use paho_golang.Common.{
  ℕ, zero, suc, ◌+◌, ◌%◌, ◌≤◌, ◌<◌, ◌≡◌, ◌≢◌, inl, inr, refl, List, [], ◌∷◌, true, none, some,
  Option-cases, leb, length, arith,
}
use paho_golang.Packets.Result.{Bytes}
use paho_golang.Client.Conversions.Messages.{Publish}
use paho_golang.Extensions.TopicAliases.{
  TaHandler, at_index, get_alias, set_alias_from, set_alias, own_alias, publish_hook,
}

at_index-bound : (i : ℕ) (ts : List Bytes) (s : Bytes) → at_index i ts ≡ some s → i < length ts
unfolding at_index
at_index-bound i [] s e = absurd (none-ne-some s e)
at_index-bound zero (t ∷ ts) s e = omega arith
at_index-bound (suc i) (t ∷ ts) s e = omega (arith, at_index-bound i ts s e)

-- A handler as NewTAHandler makes it, up to its topics, of which none but the first is empty.
pub record IsFull (t : TaHandler) : Type 0 where
  pub max_is_length : t.alias_max ≡ length t.aliases
  pub fits_uint16 : length t.aliases < 65536
  pub none_free : (i : ℕ) → 0 < i → at_index i t.aliases ≢ some []

module _ (t : TaHandler) (full : IsFull t) (topic : Bytes) where
  set_alias_from-panics :
      (fuel i : ℕ)
      → 0 < i
      → i ≤ length t.aliases
      → length t.aliases < i + fuel
      → set_alias_from fuel i topic t ≡ none
  unfolding set_alias_from
  set_alias_from-panics zero i h le enough = absurd (omega (arith, le, enough))
  set_alias_from-panics (suc fuel) i h le enough =
      let in_loop : leb i t.alias_max ≡ true = ground (arith, le, full.max_is_length) in
      elim (Option-cases (at_index i t.aliases)) [
        | inl e ↦ rw (set_alias_from, in_loop, e) refl
        | inr ([], e) ↦ absurd (full.none_free i h e)
        | inr (b ∷ bs, e) ↦
            let small = at_index-bound i t.aliases (b ∷ bs) e in
            let stays : (i + 1) % 65536 ≡ i + 1 = omega (arith, small, full.fits_uint16) in
            rw (set_alias_from, in_loop, e, stays)
              (set_alias_from-panics fuel (i + 1) (omega arith) (omega (arith, small))
                (omega (arith, enough)))
      ]

-- When every alias is taken, a message on a new topic makes the hook panic: SetAlias looks one
-- position behind the end of the slice. The handler has one alias at least.
pub publish_hook-panics :
    (p : Publish) (t : TaHandler)
    → IsFull t
    → 0 < length t.aliases
    → own_alias p ≡ none
    → get_alias p.topic t ≡ 0
    → publish_hook p t ≡ none
unfolding publish_hook set_alias
publish_hook-panics p t full h own unknown =
    rw (publish_hook, own, unknown)
      (rw
        (set_alias_from-panics t full p.topic (suc t.alias_max) 1 (omega arith) h
          (omega (arith, full.max_is_length)))
        refl)
