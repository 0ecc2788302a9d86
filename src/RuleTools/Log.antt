-- ===== src/RuleTools/Log.antt =====
-- tools/rules.py: the tools that read and clear the dry-run log, and the limits.
use reqable_mcp.Prelude.{ℕ, String, ◌||◌, Option, none, some, List, if◌then◌else◌}
use reqable_mcp.Prelude.Int.{ℤ, pos, leb_ℤ, ltb_ℤ}
use reqable_mcp.Prelude.Result.{Result, ok, err, value_error}
use reqable_mcp.Prelude.Dict.{Dict}
use reqable_mcp.DryRun
use reqable_mcp.DryRun.{DryRunEntry, DryRunLog}

-- what `dry_run_log` answers: the counts of all rules, or the entries of one
pub data Answer : Type 0 where
  by_rule : Dict ℕ → Answer
  entries : String → List DryRunEntry → Answer

unfoldable pub dry_run_log : Option String → ℤ → Option DryRunLog → Result Answer
dry_run_log id limit none = err value_error
dry_run_log none limit (some l) = ok (by_rule (DryRun.fetch_all l))
dry_run_log (some id) limit (some l) =
    if leb_ℤ limit (pos 0) || ltb_ℤ (pos 256) limit
    then err value_error
    else ok (entries id (DryRun.fetch id limit l))

unfoldable pub clear_dry_run_log : Option String → Option DryRunLog → ℕ × Option DryRunLog
clear_dry_run_log id none = (0, none)
clear_dry_run_log id (some l) = let (n, l') = DryRun.clear id l in (n, some l')
