-- ===== src/Session/MemoryStore/Sorting.antt =====
-- paho/store/memory/store.go. The sort of List against insertion into a list of pairs, and entries in another order.
use mathlib.Core.Path.{subst}
use mathlib.Core.List.{Permᴰ}
use paho_golang.Common.{
  ℕ, ◌≤◌, ◌<◌, ◌≡◌, refl, sym, ap, ◌∙◌, List, [], ◌∷◌, map, ◌≢◌, ◌⊎◌, inl, inr, if◌then◌else◌,
  arith, ltb, ltb-false, lt→ltb, Bool-cases, All,
}
use paho_golang.Session.MemoryStore.{MemoryPacket, position, insert_at, list_loop, list}

abbrev pub id_of : ℕ × MemoryPacket → ℕ
id_of (i, v) = i

abbrev pub seq_of : ℕ × MemoryPacket → ℕ
seq_of (i, v) = v.c

-- Insertion before the first entry with a larger counter.
unfoldable pub insert_entry : ℕ × MemoryPacket → List (ℕ × MemoryPacket) → List (ℕ × MemoryPacket)
insert_entry e [] = e ∷ []
insert_entry e (f ∷ fs) =
    let rest = insert_entry e fs in if ltb (seq_of e) (seq_of f) then e ∷ f ∷ fs else f ∷ rest

unfoldable pub insert_all :
    List (ℕ × MemoryPacket) → List (ℕ × MemoryPacket) → List (ℕ × MemoryPacket)
unfolding insert_entry
insert_all [] fs = fs
insert_all (e ∷ es) fs = insert_all es (insert_entry e fs)

insert_at-position :
    {A : Type 0} (g : ℕ × MemoryPacket → A) (e : ℕ × MemoryPacket) (fs : List (ℕ × MemoryPacket))
    → insert_at (position (seq_of e) (map seq_of fs)) (g e) (map g fs) ≡ map g (insert_entry e fs)
unfolding position insert_entry
insert_at-position g e [] = refl
insert_at-position g e (f ∷ fs) = elim (Bool-cases (ltb (seq_of e) (seq_of f))) [
  | inl t ↦ rw (t) refl
  | inr t ↦ rw (t) (ap (λ gs. g f ∷ gs) (insert_at-position g e fs))
]

list_loop-insert_all :
    (es fs : List (ℕ × MemoryPacket))
    → list_loop es (map id_of fs) (map seq_of fs) ≡ map id_of (insert_all es fs)
unfolding list_loop insert_all
list_loop-insert_all [] fs = refl
list_loop-insert_all ((i, v) ∷ es) fs =
    rw (insert_at-position id_of (i, v) fs, insert_at-position seq_of (i, v) fs)
      (list_loop-insert_all es (insert_entry (i, v) fs))

pub list-insert_all : (es : List (ℕ × MemoryPacket)) → list es ≡ map id_of (insert_all es [])
unfolding list
list-insert_all es = list_loop-insert_all es []

insert_entry-[] : (e : ℕ × MemoryPacket) → insert_entry e [] ≡ e ∷ []
unfolding insert_entry
insert_entry-[] e = refl

insert_entry-front :
    (e f : ℕ × MemoryPacket) (fs : List (ℕ × MemoryPacket))
    → seq_of e < seq_of f
    → insert_entry e (f ∷ fs) ≡ e ∷ f ∷ fs
unfolding insert_entry
insert_entry-front e f fs l = rw (lt→ltb (seq_of e) (seq_of f) l) refl

pub insert_entry-behind :
    (e f : ℕ × MemoryPacket) (fs : List (ℕ × MemoryPacket))
    → seq_of f ≤ seq_of e
    → insert_entry e (f ∷ fs) ≡ f ∷ insert_entry e fs
unfolding insert_entry
insert_entry-behind e f fs l = rw (ltb-false (seq_of e) (seq_of f) l) refl

before_or_behind : (m n : ℕ) → (m < n) ⊎ (n ≤ m)
before_or_behind m n = ground arith

insert_ascending :
    (e f : ℕ × MemoryPacket) (gs : List (ℕ × MemoryPacket))
    → seq_of e < seq_of f
    → insert_entry e (insert_entry f gs) ≡ insert_entry f (insert_entry e gs)
insert_ascending e f [] l =
    rw
      (
        insert_entry-[] e,
        insert_entry-[] f,
        insert_entry-front e f [] l,
        insert_entry-behind f e [] (omega arith),
        insert_entry-[] f,
      )
      refl
insert_ascending e f (g ∷ gs) l = elim (before_or_behind (seq_of f) (seq_of g)) [
  | inl fg ↦
      rw
        (
          insert_entry-front f g gs fg,
          insert_entry-front e g gs (omega arith),
          insert_entry-front e f (g ∷ gs) l,
          insert_entry-behind f e (g ∷ gs) (omega arith),
          insert_entry-front f g gs fg,
        )
        refl
  | inr gf ↦ elim (before_or_behind (seq_of e) (seq_of g)) [
    | inl eg ↦
        rw
          (
            insert_entry-behind f g gs gf,
            insert_entry-front e g gs eg,
            insert_entry-front e g (insert_entry f gs) eg,
            insert_entry-behind f e (g ∷ gs) (omega arith),
            insert_entry-behind f g gs gf,
          )
          refl
    | inr ge ↦
        rw
          (
            insert_entry-behind f g gs gf,
            insert_entry-behind e g gs ge,
            insert_entry-behind e g (insert_entry f gs) ge,
            insert_entry-behind f g (insert_entry e gs) gf,
          )
          (ap (λ hs. g ∷ hs) (insert_ascending e f gs l))
  ]
]

insert_entry_comm :
    (e f : ℕ × MemoryPacket) (gs : List (ℕ × MemoryPacket))
    → seq_of e ≢ seq_of f
    → insert_entry e (insert_entry f gs) ≡ insert_entry f (insert_entry e gs)
insert_entry_comm e f gs n = elim (smaller_or_larger (seq_of e) (seq_of f) n) [
  | inl l ↦ insert_ascending e f gs l
  | inr l ↦ sym (insert_ascending f e gs l)
]
  where
    smaller_or_larger : (m n : ℕ) → m ≢ n → (m < n) ⊎ (n < m)
    smaller_or_larger m n e = ground arith

-- No two entries have the same counter.
unfoldable pub IsDistinct : List (ℕ × MemoryPacket) → Type 0
IsDistinct [] = Unit
IsDistinct (e ∷ es) = All (λ f. seq_of e ≢ seq_of f) es × IsDistinct es

Permᴰ-All :
    (n : ℕ) (es fs : List (ℕ × MemoryPacket))
    → Permᴰ es fs
    → All (λ f. n ≢ seq_of f) es
    → All (λ f. n ≢ seq_of f) fs
Permᴰ-All n es fs Permᴰ.nil a = a
Permᴰ-All n es fs (Permᴰ.cons e p) (x, a) = (subst (λ f. n ≢ seq_of f) e x, Permᴰ-All n _ _ p a)
Permᴰ-All n es fs (Permᴰ.swap e f) (x, (y, a)) =
    (subst (λ g. n ≢ seq_of g) f y, (subst (λ g. n ≢ seq_of g) e x, a))
Permᴰ-All n es fs (Permᴰ.trans p q) a = Permᴰ-All n _ fs q (Permᴰ-All n es _ p a)

Permᴰ-IsDistinct : (es fs : List (ℕ × MemoryPacket)) → Permᴰ es fs → IsDistinct es → IsDistinct fs
unfolding IsDistinct
Permᴰ-IsDistinct es fs Permᴰ.nil d = d
Permᴰ-IsDistinct es fs (Permᴰ.cons {l₁ = l₁} {l₂ = l₂} e p) (x, d) = (
  subst (λ f. All (λ g. seq_of f ≢ seq_of g) l₂) e (Permᴰ-All _ l₁ l₂ p x),
  Permᴰ-IsDistinct l₁ l₂ p d,
)
Permᴰ-IsDistinct es fs (Permᴰ.swap {a = a} {b = b} {a' = a'} {l = l} e f) ((x, all), (all', d)) = (
  (
    subst (λ g. seq_of a' ≢ seq_of g) e (subst (λ g. seq_of g ≢ seq_of a) f (λ q. x (sym q))),
    subst (λ g. All (λ h. seq_of g ≢ seq_of h) l) f all',
  ),
  (subst (λ g. All (λ h. seq_of g ≢ seq_of h) l) e all, d),
)
Permᴰ-IsDistinct es fs (Permᴰ.trans p q) d = Permᴰ-IsDistinct _ fs q (Permᴰ-IsDistinct es _ p d)

-- The order of the visit does not matter.
pub insert_all-perm :
    (es fs gs : List (ℕ × MemoryPacket))
    → Permᴰ es fs
    → IsDistinct es
    → insert_all es gs ≡ insert_all fs gs
unfolding insert_all IsDistinct
insert_all-perm es fs gs Permᴰ.nil d = refl
insert_all-perm es fs gs (Permᴰ.cons {l₁ = l₁} {l₂ = l₂} e p) (x, d) =
    rw (e) (insert_all-perm l₁ l₂ (insert_entry _ gs) p d)
insert_all-perm es fs gs (Permᴰ.swap {a = a} {b = b} {l = l} e f) ((x, a'), (b', d)) =
    rw (sym e, sym f) (ap (insert_all l) (insert_entry_comm b a gs (λ q. x (sym q))))
insert_all-perm es fs gs (Permᴰ.trans p q) d =
    insert_all-perm es _ gs p d ∙ insert_all-perm _ fs gs q (Permᴰ-IsDistinct es _ p d)
