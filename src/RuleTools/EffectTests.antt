-- ===== src/RuleTools/EffectTests.antt =====
-- A header that a tool injects, and the theorems at concrete inputs.
use reqable_mcp.Prelude.{ℕ, String, ◌≡◌, ◌↔◌, true, false, none, some, [], ◌∷◌, str_eq}
use reqable_mcp.Prelude.Int.{pos}
use reqable_mcp.Prelude.Result.{ok}
use reqable_mcp.Prelude.Dict
use reqable_mcp.Prelude.Dict.{Dict}
use reqable_mcp.Python.{Python}
use reqable_mcp.Rules.{Rule}
use reqable_mcp.Rules.Engine
use reqable_mcp.Rules.Engine.{Engine, new_rule}
use reqable_mcp.Rules.Checks.{deadline}
use reqable_mcp.Addon.{Sdk, Runtime, Socket, Flight, text}
use reqable_mcp.Json.{str}
use reqable_mcp.RuleTools.Checks
use reqable_mcp.RuleTools.{Host, Filters, file, inject_header}
use reqable_mcp.RuleTools.Calls.{spec, call}
use reqable_mcp.RuleTools.Headers.{IsAccepted, inject_header-IsAccepted}

abbrev py : Python
py = record {
  lower = λ s. s;
  upper = λ s. s;
  compiles = λ p. true;
  search = str_eq;
  dumps = λ j. "saved";
  loads = λ s. none;
}

abbrev host : Host
host = record {
  utf8_len = λ s. some 5;
  encoded = λ v. "saved";
  compiles_with = λ p flags. true;
  stat_file = λ p. file p 10;
}

abbrev filters : Filters
filters = record {
  host = some "h";
  path_pattern = none;
  method = none;
  ttl_seconds = pos 60;
  dry_run = false;
}

abbrev empty : Engine
empty = record { rules = []; file = none }

-- headers as a dictionary, and parts that are texts
abbrev sdk : Sdk
sdk = record {
  Headers = Dict String;
  Part = String;
  header = Dict.get;
  set_header = λ k v d. Dict.put d k v;
  part_name = λ p. some p;
  text_part = λ t n. some t;
  file_part = λ p n. none;
  takes_code = λ c. true;
  of_dict = λ fs. "{}";
}

abbrev rt : Runtime
rt = record {
  loads = λ s. none;
  dumps = λ v. "saved";
  int_of = λ s. none;
  is_digits = λ s. false;
  subn = λ p r s n f. some (r, 1);
}

-- a daemon that does not answer
abbrev silent : Socket ℕ
silent = record { ipc_call = λ cmd args n. (none, n) }

abbrev flight : Flight sdk ℕ
flight = record {
  context = record { host = "h"; uid = "u"; highlight = 0; comment = none };
  msg = record { method = "GET"; path = "/"; code = none; headers = []; body = text "{}" };
  daemon = 0;
}

abbrev with_header : Flight sdk ℕ
with_header = record flight { msg = record flight.msg { headers = Dict.put [] "X" "v" } }

abbrev injecting : Rule
injecting =
    new_rule py
      (spec "inject_header" "request" (("name", str "X") ∷ ("value", str "v") ∷ []) filters) "u"
      (deadline 7 (some (pos 60))) 8

inject_header-IsAccepted_example :
    ((r : Rule) × ((call py host
          (inject_header "X" "v" "request" filters)
          "u"
          7
          8
          true
          (some empty)).0
        ≡ ok r))
    ↔ IsAccepted py host "X" "v" "request" filters
inject_header-IsAccepted_example =
    inject_header-IsAccepted py host "X" "v" "request" filters "u" 7 8 empty
