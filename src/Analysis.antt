-- ===== src/Analysis.antt =====
-- tools/analysis.py: the tally of `find_dynamic_fields`, from the observed fields with their values (cut to
-- 200 characters), in the order in which the loops come to them.
pub mod Tallied
pub mod Classes
mod Tests
use reqable_mcp.Prelude.{
  ℕ, suc, ◌+◌, ◌*◌, ◌/◌, String, Bool, true, false, not, ◌&&◌, ◌||◌, Option, none, some, List, [],
  ◌∷◌, ◌++◌, length, ltb, leb, str_eq, if◌then◌else◌,
}
use reqable_mcp.Prelude.Dict
use reqable_mcp.Prelude.Dict.{Dict}

abbrev pub Observation : Type 0
Observation = String × String

-- `seen` and `occurrences`
pub record Tally : Type 0 where
  pub seen : Dict (List String)
  pub occurrences : Dict ℕ

abbrev pub is_member : String → List String → Bool
is_member v [] = false
is_member v (w ∷ ws) = str_eq w v || is_member v ws

-- `s.add(v)`
unfoldable pub add_value : String → List String → List String
add_value v vs = if is_member v vs then vs else vs ++ v ∷ []

-- `seen[key]` and `occurrences[key]` of a `defaultdict`
abbrev pub values_at : Dict (List String) → String → List String
values_at d k = elim (Dict.get d k) [ none ↦ [] | some vs ↦ vs ]

abbrev pub count_at : Dict ℕ → String → ℕ
count_at d k = elim (Dict.get d k) [ none ↦ 0 | some n ↦ n ]

unfoldable pub observe : Observation → Tally → Tally
unfolding add_value
observe (key, v) t = record {
  seen = Dict.put t.seen key (add_value v (values_at t.seen key));
  occurrences = Dict.put t.occurrences key (count_at t.occurrences key + 1);
}

unfoldable pub observe_each : List Observation → Tally → Tally
unfolding observe
observe_each [] t = t
observe_each (o ∷ os) t = observe_each os (observe o t)

-- `max(2, int(0.8 * len(rows)))`
unfoldable pub threshold_of : ℕ → ℕ
threshold_of rows = let n = 4 * rows / 5 in if ltb n 2 then 2 else n

-- the dynamic fields, or the stable ones, before they are sorted
unfoldable pub chosen : Bool → ℕ → Dict ℕ → Dict (List String) → List String
chosen dynamic threshold occurrences [] = []
chosen dynamic threshold occurrences ((k, vs) ∷ seen) =
    let rest = chosen dynamic threshold occurrences seen in
    let wanted = if dynamic then leb 2 (length vs) else ltb (length vs) 2 in
    if ltb (count_at occurrences k) threshold then rest else if wanted then k ∷ rest else rest

-- `dynamic` or `stable`, from the number of rows and the observations
unfoldable pub fields_of_class : Bool → ℕ → List Observation → List String
unfolding observe_each threshold_of chosen
fields_of_class dynamic rows observations =
    let t = observe_each observations (record { seen = []; occurrences = [] }) in
    chosen dynamic (threshold_of rows) t.occurrences t.seen
