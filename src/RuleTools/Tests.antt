-- ===== src/RuleTools/Tests.antt =====
-- Runs of the tools, and the theorems at concrete inputs.
use Prim.Native.String.{count}
use reqable_mcp.Addon.Path.{split_dots}
use reqable_mcp.RuleTools.Segments.{field_path_iff}
use reqable_mcp.Prelude.{
  ◌≤◌, ◌≢◌, ◌↔◌, All, String, ◌≡◌, refl, true, false, not, none, some, [], str_eq,
}
use reqable_mcp.Prelude.Int.{pos}
use reqable_mcp.Prelude.Result.{ok, err, value_error}
use reqable_mcp.Python.{Python}
use reqable_mcp.Rules.{Rule, post_init}
use reqable_mcp.Rules.Engine
use reqable_mcp.Rules.Engine.{
  Engine, Spec, new_rule, checked_rule, check_kind, check_status, validated_ttl, save,
}
use reqable_mcp.Rules.Checks.{deadline}
use reqable_mcp.RuleTools.{Host, Filters, file, block_request}
use reqable_mcp.RuleTools.Calls.{spec, call}
use reqable_mcp.RuleTools.Checks.{is_catchall, validate_field_path}
use reqable_mcp.RuleTools.Relay.{RelayArgs, Outside, auto_token_relay}
use reqable_mcp.RuleTools.Narrow.{HasFilter, block-narrow}
use reqable_mcp.RuleTools.Paired.{BothOrNone, relay_paired}

abbrev py : Python
py = record {
  lower = λ s. s;
  upper = λ s. s;
  compiles = λ p. not (str_eq p "(");
  search = str_eq;
  dumps = λ j. "saved";
  loads = λ s. none;
}

abbrev host : Host
host = record {
  utf8_len = λ s. some 5;
  encoded = λ v. "saved";
  compiles_with = λ p flags. true;
  stat_file = λ p. file p 10;
}

abbrev filters : Filters
filters = record {
  host = some "h";
  path_pattern = none;
  method = none;
  ttl_seconds = pos 60;
  dry_run = false;
}

abbrev empty : Engine
empty = record { rules = []; file = none }

abbrev blocking : Rule
blocking = new_rule py (spec "block" "request" [] filters) "u" (deadline 7 (some (pos 60))) 8

blocks : (call py host (block_request filters) "u" 7 8 true (some empty)).0 ≡ ok blocking
unfolding call Engine.add Engine.install checked_rule check_kind validated_ttl check_status
    post_init new_rule
blocks = refl

refuses_catchall :
    (call py host
      (block_request (record filters { path_pattern = some ".*" }))
      "u"
      7
      8
      true
      (some empty)).0
    ≡ err value_error
unfolding call
refuses_catchall = refl

block-narrow_example :
    (blocking.kind ≡ "block")
    × (blocking.side ≡ "request")
    × HasFilter blocking
    × (is_catchall blocking.path_pattern ≡ false)
block-narrow_example = block-narrow py host filters "u" 7 8 true empty blocking blocks

abbrev relay : RelayArgs
relay = record {
  source_host = "auth";
  source_loc = "header";
  source_field = "Token";
  target_host = "api";
  target_header = "Authorization";
  name = none;
  source_path_pattern = none;
  target_path_pattern = none;
  value_prefix = "Bearer ";
  ttl_seconds = pos 300;
  dry_run = false;
}

abbrev outside : String → Outside
outside uuid = record { uuid = uuid; now = 7; later = 8; writes = true }

relay_paired_example :
    BothOrNone py relay
      (outside "a")
      (outside "b")
      true
      empty
      (auto_token_relay py relay (outside "a") (outside "b") true (some empty))
relay_paired_example = relay_paired py relay (outside "a") (outside "b") true empty refl refl

field_path_iff_example :
    (validate_field_path "user.0.name" ≡ ok tt)
    ↔ ((count "user.0.name" ≤ 256) × All (λ w. w ≢ "") (split_dots "user.0.name"))
field_path_iff_example = field_path_iff "user.0.name"
