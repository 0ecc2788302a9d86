-- ===== src/RuleTools.antt =====
-- tools/rules.py: the tools that install rules. The server checks the arguments against a tool's
-- signature before it calls it, so they have the types of the signature, and the tests of those types
-- in the code pass. What a tool answers with `{"error": ...}` is the error `value_error`.
pub mod Checks
pub mod Calls
pub mod Log
pub mod Relay
pub mod Atomic
pub mod Narrow
pub mod Effects
pub mod Headers
pub mod Segments
pub mod Paired
mod Tests
mod EffectTests
use reqable_mcp.Prelude.{ℕ, String, Bool, Option, List}
use reqable_mcp.Prelude.Int.{ℤ}
use reqable_mcp.Prelude.Dict.{Dict}
use reqable_mcp.Json.{Json}

-- What `Path(p).expanduser()` tells of a file: why it will not do, or its name and its size.
pub data FileState : Type 0 where
  relative missing unreadable : FileState
  file : String → ℕ → FileState

-- What the tools call: the length of `s.encode("utf-8")`, which is `none` where that raises
-- `UnicodeEncodeError`, `json.dumps`, `re.compile` with flags, and the file system.
pub record Host : Type 0 where
  pub utf8_len : String → Option ℕ
  pub encoded : Json → String
  pub compiles_with : String → ℕ → Bool
  pub stat_file : String → FileState

-- the arguments that all the tools have
pub record Filters : Type 0 where
  pub host : Option String
  pub path_pattern : Option String
  pub method : Option String
  pub ttl_seconds : ℤ
  pub dry_run : Bool

pub data Tool : Type 0 where
  tag_pattern : String → Option ℤ → Option ℤ → Filters → Tool
  comment_pattern : String → Option ℤ → Option ℤ → Filters → Tool
  inject_header : String → String → String → Filters → Tool
  replace_body : Json → String → Filters → Tool
  mock_response : Option ℤ → Option Json → Option (Dict String) → Filters → Tool
  block_request : Filters → Tool
  patch_body_field : String → Json → String → Filters → Tool
  replace_body_regex : String → String → ℤ → List String → String → Filters → Tool
  patch_multipart : String → Option String → Option String → String → Filters → Tool
