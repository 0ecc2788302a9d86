-- ===== src/Analysis/Tallied.antt =====
-- What a tally holds of a key, told from the observations.
use reqable_mcp.Prelude.{
  ℕ, ◌+◌, String, ◌≡◌, refl, sym, ap, ◌∙◌, Bool, true, false, not, ◌&&◌, ◌||◌, none, some, List, [],
  ◌∷◌, length, leb, str_eq, eq_iff, arith, if◌then◌else◌, Bool-cases, inl, inr, is_some,
}
use reqable_mcp.Prelude.Dict
use reqable_mcp.Prelude.Dict.{Dict}
use reqable_mcp.Prelude.Dict.Laws.{get-put, IsUnique-put}
use reqable_mcp.Analysis.{Observation, Tally, add_value, values_at, count_at, observe, observe_each}

-- How often a key was observed, and the values that were, each once.
unfoldable pub times : String → List Observation → ℕ → ℕ
times key [] n = n
times key ((k, v) ∷ os) n = times key os (if str_eq k key then n + 1 else n)

unfoldable pub distinct : String → List Observation → List String → List String
distinct key [] vs = vs
distinct key ((k, v) ∷ os) vs = distinct key os (if str_eq k key then add_value v vs else vs)

pub observe_each-times :
    (key : String) (os : List Observation) (t : Tally)
    → count_at (observe_each os t).occurrences key ≡ times key os (count_at t.occurrences key)
unfolding observe_each observe times
observe_each-times key [] t = refl
observe_each-times key ((k, v) ∷ os) t =
    observe_each-times key os (observe (k, v) t)
    ∙ ap (times key os)
        (ground (arith, get-put t.occurrences k (count_at t.occurrences k + 1) key, eq_iff k key))

seen_after :
    (seen : Dict (List String)) (k v key : String)
    → values_at (Dict.put seen k (add_value v (values_at seen k))) key
      ≡ (if str_eq k key then add_value v (values_at seen key) else values_at seen key)
seen_after seen k v key =
    ap (λ o. elim o as (λ _. List String) [ none ↦ [] | some vs ↦ vs ])
      (get-put seen k (add_value v (values_at seen k)) key)
    ∙ elim (Bool-cases (str_eq k key)) [
      | inl same ↦ rw same (ap (λ x. add_value v (values_at seen x)) ((eq_iff k key).0 same))
      | inr other ↦ rw other refl
    ]

pub observe_each-distinct :
    (key : String) (os : List Observation) (t : Tally)
    → values_at (observe_each os t).seen key ≡ distinct key os (values_at t.seen key)
unfolding observe_each observe distinct
observe_each-distinct key [] t = refl
observe_each-distinct key ((k, v) ∷ os) t =
    observe_each-distinct key os (observe (k, v) t)
    ∙ ap (distinct key os) (seen_after t.seen k v key)

-- the two dictionaries have the same keys, each once
abbrev pub IsTally : Tally → Type 0
IsTally t =
    Dict.IsUnique t.seen
    × ((key : String) → Dict.contains t.seen key ≡ Dict.contains t.occurrences key)

contains-put :
    {A : Type 0} (d : Dict A) (k key : String) (a : A)
    → Dict.contains (Dict.put d k a) key ≡ (if str_eq k key then true else Dict.contains d key)
contains-put d k key a = ap is_some (get-put d k a key) ∙ by_case (str_eq k key)
  where
    by_case :
        (b : Bool)
        → is_some (if b then some a else Dict.get d key) ≡ (if b then true else Dict.contains d key)
    by_case true = refl
    by_case false = refl

pub observe_each-IsTally :
    (os : List Observation) (t : Tally) → IsTally t → IsTally (observe_each os t)
unfolding observe_each observe
observe_each-IsTally [] t h = h
observe_each-IsTally ((k, v) ∷ os) t (unique, same) = observe_each-IsTally os (observe (k, v) t) (
  IsUnique-put t.seen k (add_value v (values_at t.seen k)) unique,
  λ key.
      contains-put t.seen k key (add_value v (values_at t.seen k))
      ∙ ap (λ c. if str_eq k key then true else c) (same key)
      ∙ sym (contains-put t.occurrences k key (count_at t.occurrences k + 1)),
)

-- Whether a key was observed with another value than `v`.
unfoldable changes : String → String → List Observation → Bool
changes key v [] = false
changes key v ((k, w) ∷ os) = (str_eq k key && not (str_eq v w)) || changes key v os

-- Whether two observations of a key have different values.
unfoldable pub varies : String → List Observation → Bool
unfolding changes
varies key [] = false
varies key ((k, v) ∷ os) = if str_eq k key then changes key v os else varies key os

add_value-many :
    (v : String) (vs : List String)
    → leb 2 (length vs) ≡ true
    → leb 2 (length (add_value v vs)) ≡ true
unfolding add_value
add_value-many v [] h = absurd (cc)
add_value-many v (w ∷ []) h = absurd (cc)
add_value-many v (w ∷ u ∷ vs) h = ground arith

-- a second value
add_value-one : (v w : String) → add_value w (v ∷ []) ≡ (if str_eq v w then v ∷ [] else v ∷ w ∷ [])
unfolding add_value
add_value-one v w = ground arith

many :
    (key : String) (os : List Observation) (vs : List String)
    → leb 2 (length vs) ≡ true
    → leb 2 (length (distinct key os vs)) ≡ true
unfolding distinct
many key [] vs h = h
many key ((k, v) ∷ os) vs h =
    many key os (if str_eq k key then add_value v vs else vs) (elim (Bool-cases (str_eq k key)) [
      | inl same ↦ rw same (add_value-many v vs h)
      | inr other ↦ rw other h
    ])

distinct-changes :
    (key v : String) (os : List Observation)
    → leb 2 (length (distinct key os (v ∷ []))) ≡ changes key v os
unfolding distinct changes
distinct-changes key v [] = refl
distinct-changes key v ((k, w) ∷ os) = elim (Bool-cases (str_eq k key)) [
  | inl same ↦ rw same (
      rw (add_value-one v w) (elim (Bool-cases (str_eq v w)) [
        | inl e ↦ rw e (distinct-changes key v os)
        | inr e ↦ rw e (many key os (v ∷ w ∷ []) refl)
      ]))
  | inr other ↦ rw other (distinct-changes key v os)
]

pub distinct-varies :
    (key : String) (os : List Observation) → leb 2 (length (distinct key os [])) ≡ varies key os
unfolding distinct varies add_value
distinct-varies key [] = refl
distinct-varies key ((k, v) ∷ os) = elim (Bool-cases (str_eq k key)) [
  | inl same ↦ rw same (distinct-changes key v os)
  | inr other ↦ rw other (distinct-varies key os)
]
