-- ===== src/Extensions/Tests.antt =====
-- The extensions at concrete states.
use mathlib.Core.List.{cons-ne-nil}
use mathlib.Core.Option.{none-ne-some, some-injective}
use paho_golang.Common.{
  ℕ, zero, suc, sym, ◌*◌, ◌≤◌, ◌<◌, ◌≡◌, ◌≢◌, refl, [], ◌∷◌, false, none, some, arith,
}
use paho_golang.Common.Int.{pos}
use paho_golang.Client.Conversions.Messages.{Publish}
use paho_golang.Extensions.TopicAliases.{
  TaHandler, publish_hook, get_alias, get_alias_from, at_index,
}
use paho_golang.Extensions.TopicAliases.Agreement.{Agrees, Understood, publish_hook-Understood}
use paho_golang.Extensions.TopicAliases.Full.{IsFull, publish_hook-panics}
use paho_golang.Extensions.MemoryQueue.{new, Queue}
use paho_golang.Extensions.MemoryQueue.Order.{calls_enqueue, call}
use paho_golang.Extensions.Backoff.{default_limits, millis, refuses, exponential_backoff}
use paho_golang.Extensions.Backoff.Range.{exponential_backoff-range}

abbrev message : Publish
message = record {
  packet_id = 0;
  qos = 0;
  duplicate = false;
  retain = false;
  topic = 98 ∷ [];
  properties = none;
  payload = [];
}

-- One alias, which is free.
abbrev one_free : TaHandler
one_free = record { alias_max = 2; aliases = [] ∷ [] ∷ [] }

nothing_known : Agrees one_free.aliases []
unfolding at_index
nothing_known zero b bs h at = absurd (omega (arith, h))
nothing_known (suc zero) b bs h at = absurd (cons-ne-nil b bs (sym (some-injective _ _ at)))
nothing_known (suc (suc a)) b bs h at = absurd (none-ne-some _ at)

publish_hook-Understood_example : Understood message 98 [] [] refl (publish_hook message one_free)
publish_hook-Understood_example =
    publish_hook-Understood message 98 [] [] refl one_free (omega arith) nothing_known

-- The same handler when "a" has the alias.
abbrev one_taken : TaHandler
one_taken = record { alias_max = 2; aliases = [] ∷ (97 ∷ []) ∷ [] }

none_free_here : (i : ℕ) → 0 < i → at_index i one_taken.aliases ≢ some []
unfolding at_index
none_free_here zero h e = omega (arith, h)
none_free_here (suc zero) h e = cons-ne-nil 97 [] (some-injective _ _ e)
none_free_here (suc (suc i)) h e = none-ne-some _ e

taken-IsFull : IsFull one_taken
taken-IsFull = record {
  max_is_length = refl;
  fits_uint16 = omega arith;
  none_free = none_free_here;
}

unknown : get_alias message.topic one_taken ≡ 0
unfolding get_alias_from
unknown = refl

publish_hook-panics_example : publish_hook message one_taken ≡ none
publish_hook-panics_example =
    publish_hook-panics message one_taken taken-IsFull (omega arith) refl unknown

-- Two messages are put, and one is taken.
abbrev two_put : Queue
two_put = call (calls_enqueue (some (2 ∷ []))) (call (calls_enqueue (some (1 ∷ []))) new)

-- The limits of DefaultExponentialBackoff, with a factor of 2 and the smallest draw.
default_made : refuses default_limits false ≡ false
unfolding refuses
default_made = refl

exponential_backoff-range_example :
    (d : ℕ) × (exponential_backoff (λ m. pos (m * 2)) (λ k. 0) default_limits (pos 3)
      ≡ some (d * 1000000))
    × ((millis default_limits.min_delay ≤ d) × (d ≤ millis default_limits.max_delay))
exponential_backoff-range_example =
    exponential_backoff-range (λ m. pos (m * 2)) (λ k. 0) default_limits 2 default_made (λ k h. h)
