-- ===== src/Client/Conversions/Users.antt =====
-- paho/cp_utils.go: Add, Get and GetAll, which find the user properties of a key.
use paho_golang.Common.{
  ◌≡◌, ◌≢◌, refl, ap, ◌∙◌, List, [], ◌∷◌, ◌++◌, append-nil, false, if◌then◌else◌, Bool-cases, inl,
  inr, arith,
}
use paho_golang.Packets.Result.{Bytes}
use paho_golang.Client.Router.{same}
use paho_golang.Client.Router.Matching.{same-≡, same_refl}
use paho_golang.Client.Conversions.{UserProperty, add, get, get_all}

-- The first of some values, or "".
abbrev pub first_of : List Bytes → Bytes
first_of [] = []
first_of (v ∷ vs) = v

-- The values of a key among user properties, in their order: each entry that has just this key, and
-- no other.
pub data Values (key : Bytes) : List UserProperty → List Bytes → Type 0 where
  no_more : Values key [] []
  has_key :
      (v : UserProperty) (u : List UserProperty) (vs : List Bytes)
      → v.key ≡ key
      → Values key u vs
      → Values key (v ∷ u) (v.value ∷ vs)
  has_other :
      (v : UserProperty) (u : List UserProperty) (vs : List Bytes)
      → v.key ≢ key
      → Values key u vs
      → Values key (v ∷ u) vs

differs : (k key : Bytes) → same k key ≡ false → k ≢ key
differs k key e same_key =
    let is_same = ap (λ x. same x key) same_key ∙ same_refl key in ground (arith, e, is_same)

is_other : (k key : Bytes) → k ≢ key → same k key ≡ false
is_other k key n = elim (Bool-cases (same k key)) [
  | inl e ↦ absurd (n (same-≡ k key e))
  | inr e ↦ e
]

get_all-Values : (key : Bytes) (u : List UserProperty) → Values key u (get_all key u)
unfolding get_all
get_all-Values key [] = no_more
get_all-Values key (v ∷ u) = elim (Bool-cases (same v.key key)) [
  | inl e ↦ rw (e) (has_key v u (get_all key u) (same-≡ v.key key e) (get_all-Values key u))
  | inr e ↦ rw (e) (has_other v u (get_all key u) (differs v.key key e) (get_all-Values key u))
]

get-first : (key : Bytes) (u : List UserProperty) → get key u ≡ first_of (get_all key u)
unfolding get get_all
get-first key [] = refl
get-first key (v ∷ u) = elim (Bool-cases (same v.key key)) [
  | inl e ↦ rw (e) refl
  | inr e ↦ rw (e) (get-first key u)
]

get_all-added :
    (key k value : Bytes) (u : List UserProperty)
    → get_all key (add k value u) ≡ get_all key u ++ (if same k key then value ∷ [] else [])
unfolding get_all
get_all-added key k value [] = refl
get_all-added key k value (v ∷ u) = elim (Bool-cases (same v.key key)) [
  | inl e ↦ rw (e) (ap (λ vs. v.value ∷ vs) (get_all-added key k value u))
  | inr e ↦ rw (e) (get_all-added key k value u)
]

-- GetAll returns the values of just the key it is given, in their order, and Get the first of them,
-- or "". A property that is added becomes the last value of its key, and of no other.
pub get_all-add :
    (key k value : Bytes) (u : List UserProperty)
    → Values key u (get_all key u)
      × (get key u ≡ first_of (get_all key u))
      × (k ≡ key → get_all key (add k value u) ≡ get_all key u ++ value ∷ [])
      × (k ≢ key → get_all key (add k value u) ≡ get_all key u)
get_all-add key k value u = (
  get_all-Values key u,
  get-first key u,
  λ e.
      get_all-added key k value u
      ∙ ap (λ b. get_all key u ++ (if b then value ∷ [] else []))
          (ap (λ x. same x key) e ∙ same_refl key),
  λ n.
      get_all-added key k value u
      ∙ ap (λ b. get_all key u ++ (if b then value ∷ [] else [])) (is_other k key n)
      ∙ append-nil (get_all key u),
)
