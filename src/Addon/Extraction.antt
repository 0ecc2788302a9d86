-- ===== src/Addon/Extraction.antt =====
-- Tokens are taken from the response as it came: the order in which rules are applied.
use reqable_mcp.Prelude.{
  String, ◌≡◌, refl, Bool, false, str_eq, Option, none, some, List, [], ◌∷◌, ◌++◌,
}
use reqable_mcp.Prelude.Dict
use reqable_mcp.Prelude.Dict.{Dict}
use reqable_mcp.Json.{Json}
use reqable_mcp.Addon.{Sdk, Runtime, Socket, Flight}
use reqable_mcp.Addon.Apply.{text_at, apply_rule}
use reqable_mcp.Addon.Hook.{apply_each}

-- whether a kind is that of the rules that extract a token
abbrev pub is_extraction : Option String → Bool
is_extraction none = false
is_extraction (some kind) = str_eq kind "relay_extract"

-- a rule that extracts a token
abbrev pub extracts : Dict Json → Bool
extracts rule = is_extraction (text_at rule "kind")

module _ (sdk : Sdk) (rt : Runtime) {D : Type 0} (socket : Socket D) where
  pub apply_each-append :
      (side : String) (rs ss : List (Dict Json)) (f : Flight sdk D)
      → (apply_each sdk rt socket side (rs ++ ss) f).1
        ≡ (apply_each sdk rt socket side ss (apply_each sdk rt socket side rs f).1).1
  unfolding apply_each
  apply_each-append side [] ss f = refl
  apply_each-append side (r ∷ rs) ss f =
      apply_each-append side rs ss (apply_rule sdk rt socket side r f).1
