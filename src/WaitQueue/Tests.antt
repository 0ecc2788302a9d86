-- ===== src/WaitQueue/Tests.antt =====
-- Runs of the registry, and the theorems at concrete inputs.
use reqable_mcp.Prelude.{String, ◌≡◌, refl, true, false, none, some, List, [], ◌∷◌, str_eq}
use reqable_mcp.Prelude.Int.{pos}
use reqable_mcp.Prelude.Result.{ok, err, type_error}
use reqable_mcp.Prelude.Dict
use reqable_mcp.Json.{null, int, str}
use reqable_mcp.Python.{Python}
use reqable_mcp.WaitQueue.{Capture, FilterSpec, matches}
use reqable_mcp.WaitQueue.Waiters.{empty, add, wait_end, is_in}
use reqable_mcp.WaitQueue.Calls.{Call, exec, run, step, state_of}
use reqable_mcp.WaitQueue.Reaping.{exec-step}
use reqable_mcp.WaitQueue.Delivery.{notified, first_match, wait_end-first_match}

-- texts without case, and patterns that are found where they are equal
abbrev py : Python
py = record {
  lower = λ s. s;
  upper = λ s. s;
  compiles = λ p. true;
  search = str_eq;
  dumps = λ j. "";
  loads = λ s. some null;
}

abbrev login : FilterSpec
login = record {
  host = some "h";
  method = none;
  path_pattern = some "/login";
  app = none;
  status = some (pos 200);
}

abbrev page : String → Capture
page path = ("host", str "h") ∷ ("status", int (pos 200)) ∷ ("path", str path) ∷ []

filtering :
    (matches py login (page "/login") ≡ ok true)
    × (matches py login (page "/") ≡ ok false)
    × (matches py login (("url", int (pos 7)) ∷ page "/login") ≡ err type_error)
unfolding matches Dict.get
filtering = (refl, refl, refl)

abbrev calls : List Call
calls =
    Call.add (record login { status = none }) "other" 2
    ∷ Call.notify (page "/")
    ∷ Call.reap_expired 9 10
    ∷ Call.notify (("path", str "x") ∷ page "/login")
    ∷ Call.cancel "other"
    ∷ Call.notify (("app_name", str "a") ∷ page "/login")
    ∷ Call.notify (page "/login")
    ∷ []

third_matches : first_match py login (notified calls) ≡ some (("app_name", str "a") ∷ page "/login")
unfolding first_match notified matches Dict.get
third_matches = refl

wait_end-first_match_example :
    ((wait_end "w" (run py calls (add login "w" 1 empty))).0
      ≡ first_match py login (notified calls))
    × (is_in "w" (wait_end "w" (run py calls (add login "w" 1 empty))).1.registered ≡ false)
wait_end-first_match_example =
    wait_end-first_match py "w" login 1 calls empty
      (refl, (refl, (refl, (refl, (refl, (refl, (refl, tt)))))))

exec-step_example :
    state_of "w" (exec py (Call.notify (page "/login")) (add login "w" 1 empty))
    ≡ step py "w" (Call.notify (page "/login")) (state_of "w" (add login "w" 1 empty))
exec-step_example = exec-step py "w" (Call.notify (page "/login")) (add login "w" 1 empty)
