-- ===== src/DryRun/Tests.antt =====
-- Runs of the log, and the theorems at concrete inputs.
use reqable_mcp.Prelude.{ℕ, String, ◌≡◌, refl, some, List, [], ◌∷◌, ◌++◌, arith, eq_iff, last}
use reqable_mcp.Prelude.Int.{pos}
use reqable_mcp.Prelude.Dict
use reqable_mcp.DryRun
use reqable_mcp.DryRun.{DryRunEntry, DryRunLog, empty, fetch, stats, per_rule_limit}
use reqable_mcp.DryRun.History.{add_all, entries_for, newest_of, fetch-add_all}
use reqable_mcp.DryRun.Bounds.{Call, IsBounded}

abbrev at : ℕ → DryRunEntry
at t = record { ts = t; uid = "u"; host = "h"; path = "/"; method = "GET"; side = "request" }

abbrev first : DryRunLog
first = record { buckets = ("a", at 1 ∷ []) ∷ [] }

abbrev more : List (String × DryRunEntry)
more = ("b", at 2) ∷ ("a", at 3) ∷ ("", at 4) ∷ ("a", at 5) ∷ []

newest_two : fetch "a" (pos 2) (add_all more first) ≡ at 5 ∷ at 3 ∷ []
unfolding fetch add_all DryRun.add Dict.get Dict.put
newest_two = refl

first_holds : Dict.get first.buckets "a" ≡ some (last per_rule_limit (at 1 ∷ []))
unfolding Dict.get
first_holds = refl

fetch-add_all_example :
    fetch "a" (pos 2) (add_all more first) ≡ newest_of (pos 2) (at 1 ∷ [] ++ entries_for "a" more)
fetch-add_all_example =
    fetch-add_all more first "a" (at 1 ∷ []) (pos 2) (λ e. ground (arith, eq_iff "a" ""))
      first_holds

abbrev calls : List Call
calls = Call.add "a" (at 2) ∷ Call.clear (some "b") ∷ Call.add "c" (at 3) ∷ []

first-IsBounded : IsBounded first
unfolding Dict.get
first-IsBounded = record { unique = (refl, tt); few = omega arith; short = (omega arith, tt) }
