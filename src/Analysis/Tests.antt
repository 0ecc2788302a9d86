-- ===== src/Analysis/Tests.antt =====
-- A tally, and the theorem at a concrete input.
use reqable_mcp.Prelude.{
  ◌+◌, ◌*◌, leb, if◌then◌else◌, ◌≡◌, refl, true, false, not, ◌&&◌, List, [], ◌∷◌, ltb,
}
use reqable_mcp.Prelude.Dict
use reqable_mcp.Analysis.{Observation, is_member, fields_of_class}
use reqable_mcp.Analysis.Tallied.{times, varies}
use reqable_mcp.Analysis.Classes.{fields_of_class-eq}

-- a name that stands twice in one of the two requests, and one that both have
abbrev seen_twice : List Observation
seen_twice = ("header:c", "1") ∷ ("header:c", "2") ∷ ("header:a", "x") ∷ ("header:a", "x") ∷ []

tallied :
    (fields_of_class true 2 seen_twice ≡ "header:c" ∷ [])
    × (fields_of_class false 2 seen_twice ≡ "header:a" ∷ [])
unfolding fields_of_class Dict.get Dict.put
tallied = (refl, refl)

fields_of_class-eq_example :
    is_member "header:c" (fields_of_class true 2 seen_twice)
    ≡ (leb 2 (times "header:c" seen_twice 0)
        && ltb (4 * 2) (5 * (times "header:c" seen_twice 0 + 1)))
      && (if true then varies "header:c" seen_twice else not (varies "header:c" seen_twice))
fields_of_class-eq_example = fields_of_class-eq true 2 seen_twice "header:c"
