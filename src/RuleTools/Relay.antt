-- ===== src/RuleTools/Relay.antt =====
-- tools/rules.py: `auto_token_relay`, which installs two rules that belong together.
use Prim.Native.String.{◌++◌ as str_append}
use reqable_mcp.Prelude.{
  ℕ, String, Bool, true, false, not, ◌||◌, Option, none, some, List, [], ◌∷◌, str_eq, if◌then◌else◌,
}
use reqable_mcp.Prelude.Int.{ℤ, pos, ltb_ℤ, leb_ℤ}
use reqable_mcp.Prelude.Result.{Result, ok, err, value_error, ◌>>=◌}
use reqable_mcp.Json.{int, str}
use reqable_mcp.Python.{Python}
use reqable_mcp.Rules.{Rule, admits}
use reqable_mcp.Rules.Engine
use reqable_mcp.Rules.Engine.{Engine, Spec, max_ttl_seconds}
use reqable_mcp.RuleTools.{Filters}
use reqable_mcp.RuleTools.Checks.{is_in, is_pseudo}
use reqable_mcp.RuleTools.Calls.{spec}

pub record RelayArgs : Type 0 where
  pub source_host : String
  pub source_loc : String
  pub source_field : String
  pub target_host : String
  pub target_header : String
  pub name : Option String
  pub source_path_pattern : Option String
  pub target_path_pattern : Option String
  pub value_prefix : String
  pub ttl_seconds : ℤ
  pub dry_run : Bool

-- What a call of `engine.add` takes from outside.
pub record Outside : Type 0 where
  pub uuid : String
  pub now : ℕ
  pub later : ℕ
  pub writes : Bool

abbrev pub valid_source_locs : List String
valid_source_locs = "header" ∷ "json_body" ∷ []

module _ (py : Python) (a : RelayArgs) where
  abbrev pub named_or : Option String → String
  named_or none = str_append (py.lower a.source_host) (str_append ":" a.source_field)
  named_or (some n) =
      if str_eq n "" then str_append (py.lower a.source_host) (str_append ":" a.source_field) else n

  abbrev pub relay_name : String
  relay_name = named_or a.name

  abbrev filters : String → Option String → Filters
  filters host pattern = record {
    host = some host;
    path_pattern = pattern;
    method = none;
    ttl_seconds = a.ttl_seconds;
    dry_run = a.dry_run;
  }

  abbrev pub extract_spec : Spec
  extract_spec =
      spec "relay_extract" "response"
        (("name", str relay_name)
          ∷ ("source_loc", str a.source_loc)
          ∷ ("source_field", str a.source_field)
          ∷ ("ttl_seconds", int a.ttl_seconds)
          ∷ [])
        (filters a.source_host a.source_path_pattern)

  abbrev pub inject_spec : Spec
  inject_spec =
      spec "relay_inject" "request"
        (("name", str relay_name)
          ∷ ("target_header", str a.target_header)
          ∷ ("value_prefix", str a.value_prefix)
          ∷ [])
        (filters a.target_host a.target_path_pattern)

  -- the checks before the first `add`, each of which answers with an error
  unfoldable pub refuses : Bool
  refuses =
      str_eq a.source_host ""
      || str_eq a.target_host ""
      || not (is_in a.source_loc valid_source_locs)
      || str_eq a.source_field ""
      || str_eq a.target_header ""
      || is_pseudo a.target_header
      || not (admits a.source_path_pattern py.compiles)
      || not (admits a.target_path_pattern py.compiles)
      || leb_ℤ a.ttl_seconds (pos 0)
      || ltb_ℤ (pos max_ttl_seconds) a.ttl_seconds

  -- after the second `add`: the roll-back where it was refused
  unfoldable pub pair_up : Rule → Bool → Result Rule × Engine → Result (Rule × Rule) × Engine
  pair_up x undo (ok y, e) = (ok (x, y), e)
  pair_up x undo (err value_error, e) =
      let (removed, e') = Engine.remove py x.id undo e in (removed >>= λ _. err value_error, e')
  pair_up x undo (err other, e) = (err other, e)

  unfoldable pub second_add : Outside → Bool → Result Rule × Engine → Result (Rule × Rule) × Engine
  unfolding pair_up
  second_add o undo (err x, e) = (err x, e)
  second_add o undo (ok x, e) =
      pair_up x undo (Engine.add py inject_spec o.uuid o.now o.later o.writes e)

  unfoldable pub add_both : Bool → Outside → Outside → Bool → Engine → Result (Rule × Rule) × Engine
  unfolding second_add
  add_both true first second undo e = (err value_error, e)
  add_both false first second undo e =
      second_add second undo
        (Engine.add py extract_spec first.uuid first.now first.later first.writes e)

  unfoldable pub auto_token_relay :
      Outside → Outside → Bool → Option Engine → Result (Rule × Rule) × Option Engine
  unfolding refuses add_both
  auto_token_relay first second undo none = (err value_error, none)
  auto_token_relay first second undo (some e) =
      let (r, e') = add_both refuses first second undo e in (r, some e')
