-- ===== src/Rules/Invariant.antt =====
-- Every method keeps the engine's index.
use mathlib.Core.Path.{subst}
use reqable_mcp.Prelude.{
  ℕ, String, ◌≡◌, refl, Bool, true, false, Option, none, some, List, [], ◌∷◌, arith,
}
use reqable_mcp.Prelude.Result.{Result, ok, err}
use reqable_mcp.Prelude.Dict
use reqable_mcp.Prelude.Dict.{Dict, IsUnique}
use reqable_mcp.Prelude.Dict.Laws.{IsUnique-put, IsUnique-remove, IsUnique-keep}
use reqable_mcp.Json.{Json}
use reqable_mcp.Python.{Python}
use reqable_mcp.Rules.{Rule}
use reqable_mcp.Rules.Record.{from_dict}
use reqable_mcp.Rules.Engine
use reqable_mcp.Rules.Engine.{
  Engine, Spec, install, remove, clear, reap_expired, load_rule, load_entry, load_entries,
  load_json, load_file, hit, increment, checked_rule, entries_of,
}
use reqable_mcp.Rules.Calls.{Call, exec, run}
use reqable_mcp.Rules.Index.{
  HasIds, IsIndexed, HasIds-put, HasIds-remove, HasIds-keep, HasIds-get, reap_rules,
}

load_rule-IsIndexed :
    (now : ℕ) (r : Result Rule) (d : Dict Rule)
    → IsUnique d × HasIds d
    → IsUnique (load_rule now r d) × HasIds (load_rule now r d)
unfolding load_rule
load_rule-IsIndexed now (err x) d h = h
load_rule-IsIndexed now (ok r) d (u, h) = ground (arith, IsUnique-put d r.id r u, HasIds-put d r h)

module _ (py : Python) where
  load_entries-IsIndexed :
      (now : ℕ) (entries : List Json) (d : Dict Rule)
      → IsUnique d × HasIds d
      → IsUnique (load_entries py now entries d) × HasIds (load_entries py now entries d)
  unfolding load_entries load_entry
  load_entries-IsIndexed now [] d h = h
  load_entries-IsIndexed now (entry ∷ entries) d h =
      load_entries-IsIndexed now entries (load_entry py now entry d)
        (load_rule-IsIndexed now (from_dict py entry) d h)

  load_json-IsIndexed :
      (now : ℕ) (json : Option Json) (e : Engine)
      → IsIndexed e
      → IsIndexed (load_json py now json e)
  unfolding load_json
  load_json-IsIndexed now none e v = v
  load_json-IsIndexed now (some json) e v = go (entries_of json)
    where
      go :
          (o : Option (List Json))
          → IsIndexed (elim o [
            | none ↦ e
            | some entries ↦ record e { rules = load_entries py now entries e.rules }
          ])
      go none = v
      go (some entries) =
          let (u, h) = load_entries-IsIndexed now entries e.rules (v.unique, v.ids) in
          record { unique = u; ids = h }

  load_file-IsIndexed :
      (readable : Bool) (now : ℕ) (file : Option String) (e : Engine)
      → IsIndexed e
      → IsIndexed (load_file py readable now file e)
  unfolding load_file
  load_file-IsIndexed readable now none e v = v
  load_file-IsIndexed true now (some text) e v = load_json-IsIndexed now (py.loads text) e v
  load_file-IsIndexed false now (some text) e v = v

  install-IsIndexed :
      (r : Result Rule) (writes : Bool) (e : Engine)
      → IsIndexed e
      → IsIndexed (install py r writes e).1
  unfolding install
  install-IsIndexed (err x) writes e v = v
  install-IsIndexed (ok r) true e v = record {
    unique = IsUnique-put e.rules r.id r v.unique;
    ids = HasIds-put e.rules r v.ids;
  }
  install-IsIndexed (ok r) false e v = record {
    unique = IsUnique-put e.rules r.id r v.unique;
    ids = HasIds-put e.rules r v.ids;
  }

  remove-IsIndexed :
      (id : String) (writes : Bool) (e : Engine) → IsIndexed e → IsIndexed (remove py id writes e).1
  unfolding remove
  remove-IsIndexed id writes e v =
      ground (arith, IsUnique-remove e.rules id v.unique, HasIds-remove e.rules id v.ids)

  clear-IsIndexed : (writes : Bool) (e : Engine) → IsIndexed (clear py writes e).1
  unfolding clear
  clear-IsIndexed true e = record { unique = tt; ids = tt }
  clear-IsIndexed false e = record { unique = tt; ids = tt }

  reap_expired-IsIndexed :
      (now : ℕ) (writes : Bool) (e : Engine)
      → IsIndexed e
      → IsIndexed (reap_expired py now writes e).1
  reap_expired-IsIndexed now writes e v = record {
    unique = rw (reap_rules py now writes e v) (IsUnique-keep _ e.rules v.unique);
    ids = rw (reap_rules py now writes e v) (HasIds-keep _ e.rules v.ids);
  }

hit-IsIndexed :
    (id : String) (o : Option Rule) (e : Engine)
    → Dict.get e.rules id ≡ o
    → IsIndexed e
    → IsIndexed (hit id o e).1
unfolding hit
hit-IsIndexed id none e g v = v
hit-IsIndexed id (some r) e g v =
    let same = HasIds-get e.rules id r v.ids g in
    let r' : Rule = record r { hits = increment r.hits } in
    record {
      unique = IsUnique-put e.rules id r' v.unique;
      ids = subst (λ k. HasIds (Dict.put e.rules k r')) same (HasIds-put e.rules r' v.ids);
    }

exec-IsIndexed : (py : Python) (c : Call) (e : Engine) → IsIndexed e → IsIndexed (exec py c e)
unfolding exec Engine.add Engine.load Engine.record_hit
exec-IsIndexed py (Call.add a uuid now later writes) e v = install-IsIndexed py _ writes e v
exec-IsIndexed py (Call.remove id writes) e v = remove-IsIndexed py id writes e v
exec-IsIndexed py (Call.clear writes) e v = clear-IsIndexed py writes e
exec-IsIndexed py (Call.reap_expired now writes) e v = reap_expired-IsIndexed py now writes e v
exec-IsIndexed py (Call.record_hit id) e v = hit-IsIndexed id (Dict.get e.rules id) e refl v
exec-IsIndexed py (Call.load readable now) e v = load_file-IsIndexed py readable now e.file e v
exec-IsIndexed py (Call.edit_file text) e v = record { unique = v.unique; ids = v.ids }

-- Whatever the calls, whether their writes succeed and whatever is found in the file, each rule
-- stands once in the engine and under its own id.
pub run-IsIndexed :
    (py : Python) (calls : List Call) (e : Engine) → IsIndexed e → IsIndexed (run py calls e)
unfolding run
run-IsIndexed py [] e v = v
run-IsIndexed py (c ∷ calls) e v = run-IsIndexed py calls (exec py c e) (exec-IsIndexed py c e v)
