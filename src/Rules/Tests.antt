-- ===== src/Rules/Tests.antt =====
-- Runs of the engine, and the theorems at concrete inputs.
use reqable_mcp.Prelude.{
  ◌≡◌, refl, true, false, not, ◌&&◌, none, some, List, [], ◌∷◌, ◌++◌, str_eq, arith, if◌then◌else◌,
  inr, eq_iff,
}
use reqable_mcp.Prelude.Int.{pos}
use reqable_mcp.Prelude.Result.{err, value_error, os_error}
use reqable_mcp.Prelude.Dict
use reqable_mcp.Json.{Json, Fields}
use reqable_mcp.Python.{Python}
use reqable_mcp.Rules.{Rule, Flow, matches, is_expired, post_init}
use reqable_mcp.Rules.Engine.{
  Engine, Spec, add, match_for, checked_rule, check_kind, check_status, validated_ttl, new_rule,
  document, load, save,
}
use reqable_mcp.Rules.Calls.{Call, run}
use reqable_mcp.Rules.Index.{IsIndexed}
use reqable_mcp.Rules.Invariant.{run-IsIndexed}
use reqable_mcp.Rules.Checks.{IsValid, deadline}
use reqable_mcp.Rules.Adding.{add_in_force}
use reqable_mcp.Rules.Saving.{Loadable, restart}

-- texts without case, and patterns that are found where they are equal
abbrev plain : Json → Python
plain saved = record {
  lower = λ s. s;
  upper = λ s. s;
  compiles = λ p. not (str_eq p "(");
  search = str_eq;
  dumps = λ j. "saved";
  loads = λ s. some saved;
}

abbrev py : Python
py = plain Json.null

abbrev old : Rule
old = record {
  id = "a";
  kind = "tag";
  side = "response";
  host = some "h";
  path_pattern = some "/x";
  method = none;
  payload = Fields.end;
  created_ts = pos 0;
  expires_ts = some (pos 5);
  hits = pos 2;
  status_min = some (pos 400);
  status_max = none;
  dry_run = false;
}

abbrev kept : Rule
kept = record old { id = "b"; kind = "comment"; expires_ts = none }

abbrev two : Engine
two = record { rules = ("a", old) ∷ ("b", kept) ∷ []; file = none }

two-IsIndexed : IsIndexed two
unfolding Dict.get
two-IsIndexed = record { unique = (refl, (refl, tt)); ids = (refl, (refl, tt)) }

abbrev flow : Flow
flow = record {
  side = "response";
  host = some "h";
  path = some "/x";
  method = some "GET";
  status = some (pos 404);
}

abbrev spec : Spec
spec = record {
  kind = "mock";
  side = "response";
  payload = Fields.end;
  host = none;
  path_pattern = some "/x";
  method = some "GET";
  ttl_seconds = some (pos 3600);
  dry_run = false;
  status_min = none;
  status_max = some (pos 599);
}

spec-IsValid : IsValid py spec
spec-IsValid = record {
  kinds = record {
    kind = refl;
    side = inr refl;
    mock = λ _. refl;
    block = λ e. ground (arith, eq_iff "mock" "block");
    relay_extract = λ e. ground (arith, eq_iff "mock" "relay_extract");
    relay_inject = λ e. ground (arith, eq_iff "mock" "relay_inject");
  };
  lifetime = (omega arith, omega arith);
  range = record {
    status_min = tt;
    status_max = (omega arith, omega arith);
    ordered = tt;
    response_only = λ _. refl;
  };
  pattern = refl;
}

matching : match_for py flow 4 two ≡ old ∷ kept ∷ []
unfolding match_for matches is_expired
matching = refl

rejected :
    (checked_rule py (record spec { side = "request" }) "u" 0 0 ≡ err value_error)
    × (checked_rule py (record spec { ttl_seconds = some (pos 3601) }) "u" 0 0 ≡ err value_error)
    × (checked_rule py (record spec { path_pattern = some "(" }) "u" 0 0 ≡ err value_error)
unfolding checked_rule post_init check_kind validated_ttl check_status new_rule
rejected = (refl, refl, refl)

abbrev installed : Rule
installed = new_rule py spec "u" (deadline 7 (some (pos 3600))) 8

u_fresh : Dict.contains two.rules "u" ≡ false
unfolding Dict.get
u_fresh = refl

add_in_force_example :
    ((add py spec "u" 7 8 false two).0 ≡ err os_error)
    × (match_for py flow 9 (add py spec "u" 7 8 false two).1
        ≡ match_for py flow 9 two
          ++ (if not (is_expired 9 installed) && matches py installed flow
              then installed ∷ []
              else []))
add_in_force_example = add_in_force py spec "u" 7 8 false two flow 9 spec-IsValid u_fresh

abbrev calls : List Call
calls =
    Call.add spec "u" 7 8 false
    ∷ Call.record_hit "u"
    ∷ Call.edit_file (some "junk")
    ∷ Call.load true 9
    ∷ Call.reap_expired 10 true
    ∷ Call.remove "a" false
    ∷ []

run-IsIndexed_example : IsIndexed (run py calls two)
run-IsIndexed_example = run-IsIndexed py calls two two-IsIndexed

abbrev reader : Python
reader = plain (document two.rules)

two-Loadable : Loadable reader two.rules
unfolding post_init
two-Loadable = (refl, (refl, tt))

restart_example :
    (load reader true 6 (record { rules = []; file = (save reader true two).1.file })).rules
    ≡ Dict.keep (λ r. not (is_expired 6 r)) two.rules
restart_example = restart reader 6 two two-IsIndexed two-Loadable refl
