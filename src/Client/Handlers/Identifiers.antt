-- ===== src/Client/Handlers/Identifiers.antt =====
-- paho/client.go: AddOnPublishReceived and the function it returns.
use mathlib.Core.Option.{some-injective}
use paho_golang.Common.{
  ℕ, zero, suc, ◌+◌, ◌<◌, ◌≤◌, ◌≡◌, refl, ap, sym, ◌∙◌, List, [], ◌∷◌, ◌++◌, Bool, true, false,
  ◌==◌, ==_refl, if◌then◌else◌, some, length, arith, Bool-cases, leb, inl, inr,
}
use paho_golang.Client.Handlers.{
  Handler, Handlers, is_used, unused_from, identifiers, handlers_of, add_on_publish_received, added,
  remove_handler,
}

-- How many of the identifiers are `from` or more.
count_from : ℕ → List ℕ → ℕ
count_from from [] = 0
count_from from (id ∷ ids) =
    let rest = count_from from ids in if leb from id then suc rest else rest

count_from-length : (from : ℕ) (ids : List ℕ) → count_from from ids ≤ length ids
unfolding count_from
count_from-length from [] = omega arith
count_from-length from (id ∷ ids) = ground (arith, count_from-length from ids)

count_from-next : (from : ℕ) (ids : List ℕ) → count_from (from + 1) ids ≤ count_from from ids
unfolding count_from
count_from-next from [] = omega arith
count_from-next from (id ∷ ids) = ground (arith, count_from-next from ids)

count_from-used :
    (id : ℕ) (ids : List ℕ) → is_used id ids ≡ true → count_from (id + 1) ids < count_from id ids
unfolding count_from is_used
count_from-used id [] e = ground arith
count_from-used id (used ∷ ids) e = ground (arith, count_from-used id ids, count_from-next id ids)

fewer_left :
    (fuel id : ℕ) (ids : List ℕ)
    → is_used id ids ≡ true
    → count_from id ids < suc fuel
    → count_from (id + 1) ids < fuel
fewer_left fuel id ids e h = omega (arith, count_from-used id ids e)

-- The search ends when its fuel is more than the identifiers that are left to meet.
unused_from_finds :
    (fuel id : ℕ) (ids : List ℕ)
    → count_from id ids < fuel
    → (found : ℕ) × (unused_from fuel id ids ≡ some found) × (is_used found ids ≡ false)
unfolding unused_from
unused_from_finds zero id ids h = absurd (omega arith)
unused_from_finds (suc fuel) id ids h = elim (Bool-cases (is_used id ids)) [
  | inl e ↦
      let (found, at, free) = unused_from_finds fuel (id + 1) ids (fewer_left fuel id ids e h) in
      (found, rw (unused_from, e) at, free)
  | inr e ↦ (id, rw (unused_from, e) refl, e)
]

not_first :
    (id j : ℕ) (b : Bool)
    → (if j == id then true else b) ≡ false
    → ((id == j) ≡ false) × (b ≡ false)
not_first id j b e = ground arith

module _ {Error : Type 0} where
  remove_handler-added :
      (id : ℕ) (h : Handler Error) (hs : Handlers Error)
      → is_used id (identifiers hs) ≡ false
      → remove_handler id (hs ++ (id, h) ∷ []) ≡ hs
  unfolding identifiers remove_handler is_used
  remove_handler-added id h [] e = rw (==_refl id) refl
  remove_handler-added id h ((j, g) ∷ hs) e =
      let (other, free) = not_first id j (is_used id (identifiers hs)) e in
      rw (other) (ap (λ l. (j, g) ∷ l) (remove_handler-added id h hs free))

  handlers_of-added :
      (id : ℕ) (h : Handler Error) (hs : Handlers Error)
      → handlers_of (hs ++ (id, h) ∷ []) ≡ handlers_of hs ++ h ∷ []
  unfolding handlers_of
  handlers_of-added id h [] = refl
  handlers_of-added id h ((j, g) ∷ hs) = ap (λ l. g ∷ l) (handlers_of-added id h hs)

  -- AddOnPublishReceived ends: its search finds an identifier that no handler has, the new handler
  -- is called after the others, and the function that it returns takes just that handler away again.
  pub add_on_publish_received-ends :
      (h : Handler Error) (hs : Handlers Error)
      → (id : ℕ) × (hs' : Handlers Error) × (add_on_publish_received h hs ≡ some (id, hs'))
        × (is_used id (identifiers hs) ≡ false)
        × (handlers_of hs' ≡ handlers_of hs ++ h ∷ [])
        × (remove_handler id hs' ≡ hs)
  unfolding add_on_publish_received
  add_on_publish_received-ends h hs =
      let ids = identifiers hs in
      let (id, at, free) =
        unused_from_finds (suc (length ids)) 0 ids (omega (arith, count_from-length 0 ids)) in
      (
        id,
        hs ++ (id, h) ∷ [],
        ap (added h hs) at,
        free,
        handlers_of-added id h hs,
        remove_handler-added id h hs free,
      )

  -- A handler that is taken away leaves its identifier to the next one: when the function that
  -- removes the first of two handlers, added one after the other's removal, is called once more, it
  -- takes the second away.
  pub removed_twice :
      (g h : Handler Error) (hs hs1 hs2 : Handlers Error) (id j : ℕ)
      → add_on_publish_received g hs ≡ some (id, hs1)
      → add_on_publish_received h (remove_handler id hs1) ≡ some (j, hs2)
      → (j ≡ id) × (remove_handler id hs2 ≡ hs)
  unfolding add_on_publish_received
  removed_twice g h hs hs1 hs2 id j e f =
      let ids = identifiers hs in
      let (k, at, free) =
        unused_from_finds (suc (length ids)) 0 ids (omega (arith, count_from-length 0 ids)) in
      let first = some-injective _ _ (sym e ∙ ap (added g hs) at) in
      let removed =
        ap (λ (x : ℕ × Handlers Error). remove_handler x.0 x.1) first
        ∙ remove_handler-added k g hs free in
      let second =
        some-injective _ _ (sym f ∙ ap (add_on_publish_received h) removed ∙ ap (added h hs) at) in
      (
        ap (λ (x : ℕ × Handlers Error). x.0) second
            ∙ sym (ap (λ (x : ℕ × Handlers Error). x.0) first),
        ap (λ (x : ℕ × Handlers Error). remove_handler x.0 hs2) first
            ∙ ap (λ (x : ℕ × Handlers Error). remove_handler k x.1) second
            ∙ remove_handler-added k h hs free,
      )
