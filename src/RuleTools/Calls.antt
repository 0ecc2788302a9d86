-- ===== src/RuleTools/Calls.antt =====
-- tools/rules.py: the tools themselves. Each makes its checks and then calls `RuleEngine.add`; where the
-- engine was not started it answers with an error.
use reqable_mcp.Prelude.{
  ℕ, String, Bool, false, not, ◌||◌, Option, none, some, List, [], ◌∷◌, ◌++◌, ltb, str_eq, is_some,
  map, if◌then◌else◌,
}
use Prim.Native.String.{count}
use reqable_mcp.Prelude.Int.{ℤ, pos}
use reqable_mcp.Prelude.Result.{Result, ok, err, value_error, ◌>>=◌, ◌>>◌, raise_if}
use reqable_mcp.Prelude.Dict.{Dict}
use reqable_mcp.Json.{Json, int, float, str, bool, obj, of_dict}
use reqable_mcp.Python.{Python}
use reqable_mcp.Rules.{Rule}
use reqable_mcp.Rules.Record.{of_text, of_time, of_int}
use reqable_mcp.Rules.Engine
use reqable_mcp.Rules.Engine.{Engine, Spec}
use reqable_mcp.Rules.Report
use reqable_mcp.RuleTools.{
  Host, Filters, Tool, tag_pattern, comment_pattern, inject_header, replace_body, mock_response,
  block_request, patch_body_field, replace_body_regex, patch_multipart,
}
use reqable_mcp.RuleTools.Checks.{
  valid_colors, is_in, is_pseudo, is_specified, is_catchall, validate_field_path, coerce_body,
  validate_patch_value, mock_status, mock_body, mock_headers, validate_regex_inputs, part_source,
}

-- the arguments of `engine.add`
abbrev pub spec : String → String → Dict Json → Filters → Spec
spec kind side payload fl = record {
  kind = kind;
  side = side;
  payload = of_dict payload;
  host = fl.host;
  path_pattern = fl.path_pattern;
  method = fl.method;
  ttl_seconds = some fl.ttl_seconds;
  dry_run = fl.dry_run;
  status_min = none;
  status_max = none;
}

-- those of a rule that filters by status, which sets no `dry_run`
abbrev pub status_spec : String → Dict Json → Option ℤ → Option ℤ → Filters → Spec
status_spec kind payload lo hi fl =
    record (spec kind (if is_some lo || is_some hi then "response" else "request") payload fl) {
      dry_run = false;
      status_min = lo;
      status_max = hi;
    }

module _ (py : Python) (host : Host) where
  -- the checks of each tool, and what it passes on to `engine.add`
  unfoldable pub prepare_tag : String → Option ℤ → Option ℤ → Filters → Result Spec
  prepare_tag color lo hi fl = do
    raise_if (not (is_in color valid_colors)) value_error
    ok (status_spec "tag" (("color", str color) ∷ []) lo hi fl)

  unfoldable pub prepare_comment : String → Option ℤ → Option ℤ → Filters → Result Spec
  prepare_comment text lo hi fl = do
    raise_if (str_eq text "" || ltb 500 (count text)) value_error
    ok (status_spec "comment" (("text", str text) ∷ []) lo hi fl)

  unfoldable pub prepare_header : String → String → String → Filters → Result Spec
  prepare_header name value side fl = do
    raise_if (str_eq name "") value_error
    raise_if (is_pseudo name) value_error
    ok (spec "inject_header" side (("name", str name) ∷ ("value", str value) ∷ []) fl)

  unfoldable pub prepare_body : Json → String → Filters → Result Spec
  prepare_body body side fl = do
    coerce_body py host body
    ok (spec "replace_body" side (("body", body) ∷ []) fl)

  unfoldable pub prepare_mock :
      Option ℤ → Option Json → Option (Dict String) → Filters → Result Spec
  prepare_mock status body headers fl = do
    s ← mock_status status
    b ← mock_body py host body
    h ← mock_headers headers
    raise_if (not (is_some status || is_some body || is_some headers)) value_error
    ok (spec "mock" "response" (s ++ (b ++ h)) fl)

  unfoldable pub prepare_block : Filters → Result Spec
  prepare_block fl = do
    raise_if (not (is_specified fl.host || is_specified fl.path_pattern || is_specified fl.method))
        value_error
    raise_if (is_catchall fl.path_pattern) value_error
    ok (spec "block" "request" [] fl)

  unfoldable pub prepare_patch : String → Json → String → Filters → Result Spec
  prepare_patch path value side fl = do
    validate_field_path path
    validate_patch_value py host value
    ok (spec "patch_field" side (("field_path", str path) ∷ ("value", value) ∷ []) fl)

  unfoldable pub prepare_regex : String → String → ℤ → List String → String → Filters → Result Spec
  prepare_regex pattern replacement times flags side fl = do
    flags_int ← validate_regex_inputs py host pattern replacement times flags
    ok (
        spec "regex_replace" side
          (("pattern", str pattern)
            ∷ ("replacement", str replacement)
            ∷ ("count", int times)
            ∷ ("flags", int (pos flags_int))
            ∷ [])
          fl)

  unfoldable pub prepare_multipart :
      String → Option String → Option String → String → Filters → Result Spec
  prepare_multipart name new_text new_file_path side fl = do
    raise_if (str_eq name "") value_error
    source ← part_source py host new_text new_file_path
    ok (spec "patch_multipart" side (("part_name", str name) ∷ source) fl)

  unfoldable pub prepare : Tool → Result Spec
  unfolding prepare_tag prepare_comment prepare_header prepare_body prepare_mock prepare_block
      prepare_patch prepare_regex prepare_multipart
  prepare (tag_pattern color lo hi fl) = prepare_tag color lo hi fl
  prepare (comment_pattern text lo hi fl) = prepare_comment text lo hi fl
  prepare (inject_header name value side fl) = prepare_header name value side fl
  prepare (replace_body body side fl) = prepare_body body side fl
  prepare (mock_response status body headers fl) = prepare_mock status body headers fl
  prepare (block_request fl) = prepare_block fl
  prepare (patch_body_field path value side fl) = prepare_patch path value side fl
  prepare (replace_body_regex pattern replacement times flags side fl) =
      prepare_regex pattern replacement times flags side fl
  prepare (patch_multipart name new_text new_file_path side fl) =
      prepare_multipart name new_text new_file_path side fl

  -- `engine.add` in the `try`
  unfoldable pub install_spec :
      Result Spec → String → ℕ → ℕ → Bool → Option Engine → Result Rule × Option Engine
  install_spec (err x) uuid now later writes e = (err x, e)
  install_spec (ok a) uuid now later writes none = (err value_error, none)
  install_spec (ok a) uuid now later writes (some e) =
      let (r, e') = Engine.add py a uuid now later writes e in (r, some e')

  -- a tool: the rule that it installed, an answer with an error, or another exception
  unfoldable pub call : Tool → String → ℕ → ℕ → Bool → Option Engine → Result Rule × Option Engine
  unfolding prepare install_spec
  call t uuid now later writes e = install_spec (prepare t) uuid now later writes e

-- `_serialize_rule`
unfoldable pub serialize_rule : Rule → Dict Json
serialize_rule r =
    ("id", str r.id)
    ∷ ("kind", str r.kind)
    ∷ ("side", str r.side)
    ∷ ("host", of_text r.host)
    ∷ ("path_pattern", of_text r.path_pattern)
    ∷ ("method", of_text r.method)
    ∷ ("payload", obj r.payload)
    ∷ ("created_ts", float r.created_ts)
    ∷ ("expires_ts", of_time r.expires_ts)
    ∷ ("hits", int r.hits)
    ∷ ("dry_run", bool r.dry_run)
    ∷ ("status_min", of_int r.status_min)
    ∷ ("status_max", of_int r.status_max)
    ∷ []

unfoldable pub list_rules : Option String → ℕ → Option Engine → List (Dict Json)
unfolding serialize_rule
list_rules kind now none = []
list_rules kind now (some e) = map serialize_rule (Report.list_all kind now e)

module _ (py : Python) where
  unfoldable pub remove_rule : String → Bool → Option Engine → Result Bool × Option Engine
  remove_rule id writes none = (err value_error, none)
  remove_rule id writes (some e) = let (r, e') = Engine.remove py id writes e in (r, some e')

  unfoldable pub clear_rules : Bool → Option Engine → Result ℕ × Option Engine
  clear_rules writes none = (err value_error, none)
  clear_rules writes (some e) = let (r, e') = Engine.clear py writes e in (r, some e')
