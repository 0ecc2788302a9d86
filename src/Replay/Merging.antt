-- ===== src/Replay/Merging.antt =====
-- What the overrides make of the captured headers.
use reqable_mcp.Prelude.{String, not, ◌&&◌, Option, none, some, [], ◌∷◌, str_eq, if◌then◌else◌}
use reqable_mcp.Prelude.Dict
use reqable_mcp.Prelude.Dict.{Dict}
use reqable_mcp.Python.{Python}

module _ (py : Python) where
  -- The last of the overrides with a name that is not empty and is the given one in lower case.
  abbrev pub last_override : String → Option String → Dict String → Option String
  last_override name found [] = found
  last_override name found ((k, v) ∷ overrides) =
      last_override name (if not (str_eq k "") && str_eq (py.lower k) name then some v else found)
        overrides

-- What a captured value becomes: an override that is empty takes it away.
abbrev pub resolved : Option String → Option String → Option String
resolved none captured = captured
resolved (some v) captured = if str_eq v "" then none else some v
