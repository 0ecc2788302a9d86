-- ===== src/Analysis/Classes.antt =====
-- Which fields are dynamic, and which are stable.
use mathlib.Core.Path.{subst}
use reqable_mcp.Prelude.{
  ℕ, ◌+◌, ◌*◌, ◌≤◌, String, ◌≡◌, refl, sym, ap, ◌∙◌, Bool, true, false, not, ◌&&◌, ◌||◌, Option,
  none, some, List, [], ◌∷◌, length, ltb, leb, str_eq, eq_iff, arith, if◌then◌else◌, Bool-cases,
  inl, inr, is_some,
}
use reqable_mcp.Prelude.Dict
use reqable_mcp.Prelude.Dict.{Dict}
use reqable_mcp.Analysis.{
  Observation, Tally, is_member, values_at, count_at, observe_each, threshold_of, chosen,
  fields_of_class,
}
use reqable_mcp.Analysis.Tallied.{
  times, distinct, varies, observe_each-times, observe_each-distinct, observe_each-IsTally,
  distinct-varies,
}

-- the test of a class
abbrev pub in_class : Bool → List String → Bool
in_class dynamic vs = if dynamic then leb 2 (length vs) else ltb (length vs) 2

member_step :
    (skip wanted : Bool) (k key : String) (rest : List String)
    → is_member key (if skip then rest else if wanted then k ∷ rest else rest)
      ≡ (str_eq k key && not skip && wanted) || is_member key rest
member_step skip wanted k key rest = ground arith

-- membership in what is chosen
abbrev HasClass : Bool → ℕ → Dict ℕ → Dict (List String) → String → Type 0
HasClass dynamic threshold occurrences seen key =
    is_member key (chosen dynamic threshold occurrences seen)
    ≡ Dict.contains seen key
      && (not (ltb (count_at occurrences key) threshold) && in_class dynamic (values_at seen key))

both_or_false : (a b : Bool) → (true && a && b) || false ≡ true && (a && b)
both_or_false a b = ground arith

chosen-HasClass :
    (dynamic : Bool) (threshold : ℕ) (occurrences : Dict ℕ) (seen : Dict (List String))
    (key : String)
    → Dict.IsUnique seen
    → HasClass dynamic threshold occurrences seen key
unfolding chosen Dict.get
chosen-HasClass dynamic threshold occurrences [] key h = refl
chosen-HasClass dynamic threshold occurrences ((k, vs) ∷ seen) key (fresh, h) =
    let rest = chosen dynamic threshold occurrences seen in
    let skip = ltb (count_at occurrences k) threshold in
    let wanted = in_class dynamic vs in
    elim (Bool-cases (str_eq k key)) [
      | inl same ↦
          let kk : str_eq k k ≡ true = (eq_iff k k).1 refl in
          let gone : is_member k rest ≡ false =
            chosen-HasClass dynamic threshold occurrences seen k h ∙ rw fresh refl in
          let head : values_at ((k, vs) ∷ seen) k ≡ vs =
            ap
              (λ b. elim (if b then some vs else Dict.get seen k) as (λ _. List String) [
                | none ↦ []
                | some ws ↦ ws
              ])
              kk in
          subst (HasClass dynamic threshold occurrences ((k, vs) ∷ seen)) ((eq_iff k key).0 same) (
            member_step skip wanted k k rest
            ∙ rw kk (
                rw gone (
                  both_or_false (not skip) wanted
                  ∙ ap (λ ws. true && (not skip && in_class dynamic ws)) (sym head))))
      | inr other ↦
          let tail : values_at seen key ≡ values_at ((k, vs) ∷ seen) key =
            ap
              (λ b. elim (if b then some vs else Dict.get seen key) as (λ _. List String) [
                | none ↦ []
                | some ws ↦ ws
              ])
              (sym other) in
          let often = not (ltb (count_at occurrences key) threshold) in
          member_step skip wanted k key rest
          ∙ rw other (
              chosen-HasClass dynamic threshold occurrences seen key h
              ∙ ap (λ ws. Dict.contains seen key && (often && in_class dynamic ws)) tail)
    ]

threshold_of-ge : (rows : ℕ) → 2 ≤ threshold_of rows
unfolding threshold_of
threshold_of-ge rows = ground arith

never_enough :
    (o : Option ℕ) (threshold : ℕ)
    → 2 ≤ threshold
    → is_some o && not (ltb (elim o as (λ _. ℕ) [ none ↦ 0 | some n ↦ n ]) threshold)
      ≡ not (ltb (elim o as (λ _. ℕ) [ none ↦ 0 | some n ↦ n ]) threshold)
never_enough none threshold h = ground arith
never_enough (some n) threshold h = refl

and_assoc : (a b c : Bool) → a && (b && c) ≡ (a && b) && c
and_assoc true b c = refl
and_assoc false b c = refl

in_class-eq :
    (dynamic : Bool) (vs : List String)
    → in_class dynamic vs ≡ (if dynamic then leb 2 (length vs) else not (leb 2 (length vs)))
in_class-eq dynamic vs = ground arith

-- Whether a number is at least 2 and at least four fifths of the rows, rounded down.
often_enough :
    (rows n : ℕ) → not (ltb n (threshold_of rows)) ≡ leb 2 n && ltb (4 * rows) (5 * (n + 1))
unfolding threshold_of
often_enough rows n = ground arith

-- A field is dynamic exactly where its name was observed at least twice, and at least as often as four fifths
-- of the rows, rounded down, with two values that differ; and stable where it was observed so often and
-- never with two values that differ.
pub fields_of_class-eq :
    (dynamic : Bool) (rows : ℕ) (os : List Observation) (key : String)
    → is_member key (fields_of_class dynamic rows os)
      ≡ (leb 2 (times key os 0) && ltb (4 * rows) (5 * (times key os 0 + 1)))
        && (if dynamic then varies key os else not (varies key os))
unfolding fields_of_class Dict.get
fields_of_class-eq dynamic rows os key =
    let none_yet : Tally = record { seen = []; occurrences = [] } in
    let t = observe_each os none_yet in
    let (unique, same) = observe_each-IsTally os none_yet (tt, λ k. refl) in
    let often = not (ltb (count_at t.occurrences key) (threshold_of rows)) in
    chosen-HasClass dynamic (threshold_of rows) t.occurrences t.seen key unique
    ∙ ap (λ b. b && (often && in_class dynamic (values_at t.seen key))) (same key)
    ∙ and_assoc (Dict.contains t.occurrences key) often (in_class dynamic (values_at t.seen key))
    ∙ ap (λ b. b && in_class dynamic (values_at t.seen key))
        (never_enough (Dict.get t.occurrences key) (threshold_of rows) (threshold_of-ge rows))
    ∙ (λ i.
        not (ltb (observe_each-times key os none_yet i) (threshold_of rows))
        && in_class dynamic (observe_each-distinct key os none_yet i))
    ∙ (λ i. often_enough rows (times key os 0) i && in_class-eq dynamic (distinct key os []) i)
    ∙ ap
        (λ b.
          (leb 2 (times key os 0) && ltb (4 * rows) (5 * (times key os 0 + 1)))
          && (if dynamic then b else not b))
        (distinct-varies key os)
