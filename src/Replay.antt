-- ===== src/Replay.antt =====
-- tools/replay.py: the headers and the body of a request that is replayed. Headers and overrides are texts, as
-- the code declares them.
pub mod Merging
mod Tests
use Prim.Native.String.{◌++◌ as str_append}
use text.Mathlib.Text.{starts_with}
use reqable_mcp.Prelude.{
  ℕ, String, Bool, true, false, not, ◌&&◌, ◌||◌, Option, none, some, List, [], ◌∷◌, length, ltb,
  str_eq, is_some, ◌==◌, if◌then◌else◌,
}
use reqable_mcp.Prelude.Dict
use reqable_mcp.Prelude.Dict.{Dict}
use reqable_mcp.Json.{Json, null, str, obj}
use reqable_mcp.FlatBuffers.{Bytes}
use reqable_mcp.Python.{Python}
use reqable_mcp.RuleTools.Checks.{body_max_bytes}
use reqable_mcp.Values.{Text, split_header, has_colon, join}

module _ (py : Python) (t : Text) where
  open py use {lower}

  abbrev put_header : Dict String → Option (String × String) → Dict String
  put_header out none = out
  put_header out (some (name, value)) = Dict.put out (lower name) value

  -- the loop of `_ci_dict`
  unfoldable pub ci_each : List String → Dict String → Dict String
  ci_each [] out = out
  ci_each (h ∷ hs) out = ci_each hs (put_header out (split_header t h))

  -- `_ci_dict`
  unfoldable pub ci_dict : List String → Dict String
  unfolding ci_each
  ci_dict headers = ci_each headers []

  -- one round of the loop over the overrides
  unfoldable pub override : String → String → Dict String → Dict String
  override k v captured =
      if str_eq k ""
      then captured
      else if str_eq (lower k) "content-length"
      then captured
      else if str_eq v ""
      then Dict.remove captured (lower k)
      else Dict.put captured (lower k) v

  unfoldable pub override_each : Dict String → Dict String → Dict String
  unfolding override
  override_each [] captured = captured
  override_each ((k, v) ∷ overrides) captured = override_each overrides (override k v captured)

  -- the values by the names in lower case
  unfoldable pub merged_values : List String → Dict String → Dict String
  unfolding ci_dict override_each
  merged_values base overrides =
      override_each overrides (Dict.remove (ci_dict base) "content-length")

  abbrev put_name : Dict String → Option (String × String) → Dict String
  put_name casing none = casing
  put_name casing (some (name, value)) = Dict.put casing (lower name) name

  -- the names as they were captured
  unfoldable pub captured_casing : List String → Dict String → Dict String
  captured_casing [] casing = casing
  captured_casing (h ∷ hs) casing = captured_casing hs (put_name casing (split_header t h))

  -- and those of the overrides, where there is none yet
  unfoldable pub override_casing : Dict String → Dict String → Dict String
  override_casing [] casing = casing
  override_casing ((k, v) ∷ overrides) casing =
      override_casing overrides
        (if is_some (Dict.get casing (lower k)) then casing else Dict.put casing (lower k) k)

  abbrev cased : Dict String → String → String
  cased casing k = elim (Dict.get casing k) [ none ↦ k | some name ↦ name ]

  unfoldable pub rename : Dict String → Dict String → List (String × String)
  rename casing [] = []
  rename casing ((k, v) ∷ captured) = (cased casing k, v) ∷ rename casing captured

  -- `_merge_headers`
  unfoldable pub merge_headers : List String → Dict String → List (String × String)
  unfolding merged_values captured_casing override_casing rename
  merge_headers base overrides =
      rename (override_casing overrides (captured_casing base [])) (merged_values base overrides)

-- `(bytes, content_type_hint, error)`
pub data Coerced : Type 0 where
  no_body : Coerced
  body : Bytes → Option String → Coerced
  invalid : Coerced

abbrev checked : Option String → Option Bytes → Coerced
checked hint none = invalid
checked hint (some bytes) = if ltb body_max_bytes (length bytes) then invalid else body bytes hint

-- `_coerce_body`, where `encode` is `encode("utf-8")`, and `none` what it refuses
unfoldable pub coerce_body : Python → (String → Option Bytes) → Json → Coerced
coerce_body py encode null = no_body
coerce_body py encode (str s) = checked none (encode s)
coerce_body py encode (obj fields) =
    checked (some "application/json") (encode (py.dumps (obj fields)))
coerce_body py encode _ = invalid

-- the host of a URL, where an IPv6 literal gets brackets
unfoldable pub bracketed : String → String
bracketed host =
    if has_colon host && not (starts_with host "[") then join ("[" ∷ host ∷ "]" ∷ []) else host
