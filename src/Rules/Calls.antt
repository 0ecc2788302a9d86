-- ===== src/Rules/Calls.antt =====
-- Sequences of calls of the engine's methods.
use reqable_mcp.Prelude.{ℕ, String, Bool, Option, List, [], ◌∷◌}
use reqable_mcp.Python.{Python}
use reqable_mcp.Rules.Engine
use reqable_mcp.Rules.Engine.{Engine, Spec}

-- Any call of a method that changes the engine, with what it takes from outside, or a change of the
-- file by another process.
pub data Call : Type 0 where
  add : Spec → String → ℕ → ℕ → Bool → Call
  remove : String → Bool → Call
  clear : Bool → Call
  reap_expired : ℕ → Bool → Call
  record_hit : String → Call
  load : Bool → ℕ → Call
  edit_file : Option String → Call

unfoldable pub exec : Python → Call → Engine → Engine
exec py (add a uuid now later writes) e = (Engine.add py a uuid now later writes e).1
exec py (remove id writes) e = (Engine.remove py id writes e).1
exec py (clear writes) e = (Engine.clear py writes e).1
exec py (reap_expired now writes) e = (Engine.reap_expired py now writes e).1
exec py (record_hit id) e = (Engine.record_hit id e).1
exec py (load readable now) e = Engine.load py readable now e
exec py (edit_file text) e = record e { file = text }

unfoldable pub run : Python → List Call → Engine → Engine
run py [] e = e
run py (c ∷ calls) e = run py calls (exec py c e)
