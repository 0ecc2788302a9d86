-- ===== src/Python.antt =====
-- What the program takes from Python's standard library, as a parameter of the model: `str.lower` and
-- `str.upper`, `re.compile` (whether it accepts a pattern) and `re.search`, `json.dumps` and
-- `json.loads` (`none` is a `JSONDecodeError`).
use reqable_mcp.Prelude.{String, Bool, Option}
use reqable_mcp.Json.{Json}

pub record Python : Type 0 where
  pub lower : String → String
  pub upper : String → String
  pub compiles : String → Bool
  pub search : String → String → Bool
  pub dumps : Json → String
  pub loads : String → Option Json
