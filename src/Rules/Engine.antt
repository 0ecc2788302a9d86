-- ===== src/Rules/Engine.antt =====
-- rules.py: `RuleEngine`. The methods run under the engine's lock, so each is one step on its state:
-- the rules in memory and the text of rules.json, `none` where there is no such file. What a call
-- takes from outside is an argument: readings of the clock, a new uuid, and whether the file could be
-- read or replaced. The file is replaced as a whole or not at all.
use reqable_mcp.Prelude.{
  ℕ, ◌+◌, ◌*◌, String, Bool, true, false, not, ◌&&◌, ◌||◌, Option, none, some, List, [], ◌∷◌,
  length, filter, ◌==◌, str_eq, is_some, if◌then◌else◌, map,
}
use reqable_mcp.Prelude.Int.{ℤ, pos, negsuc, ltb_ℤ, leb_ℤ, sub_ℕ, pos_part}
use reqable_mcp.Prelude.Result.{Result, ok, err, value_error, os_error, ◌>>=◌, ◌>>◌, raise_if}
use reqable_mcp.Prelude.Dict
use reqable_mcp.Prelude.Dict.{Dict}
use reqable_mcp.Json.{Json, Fields, arr, obj, to_dict, to_list, of_dict, of_list}
use reqable_mcp.Python.{Python}
use reqable_mcp.Rules.{Rule, Flow, post_init, matches, is_expired}
use reqable_mcp.Rules.Record.{fields_of, from_dict}

abbrev pub valid_kinds : List String
valid_kinds =
    "tag" ∷ "comment" ∷ "inject_header" ∷ "replace_body" ∷ "mock" ∷ "block" ∷ "relay_extract"
    ∷ "relay_inject" ∷ "patch_field" ∷ "regex_replace" ∷ "patch_multipart" ∷ []

abbrev pub valid_sides : List String
valid_sides = "request" ∷ "response" ∷ []

abbrev pub max_ttl_seconds : ℕ
max_ttl_seconds = 3600

abbrev pub micros : ℕ
micros = 1_000_000

-- `x in xs`
abbrev pub is_in : String → List String → Bool
is_in k [] = false
is_in k (j ∷ js) = str_eq j k || is_in k js

pub record Engine : Type 0 where
  pub rules : Dict Rule
  pub file : Option String

-- the arguments of `add`
pub record Spec : Type 0 where
  pub kind : String
  pub side : String
  pub payload : Fields
  pub host : Option String
  pub path_pattern : Option String
  pub method : Option String
  pub ttl_seconds : Option ℤ
  pub dry_run : Bool
  pub status_min : Option ℤ
  pub status_max : Option ℤ

-- `_validated_ttl`
unfoldable pub validated_ttl : Option ℤ → ℕ → Result (Option ℤ)
validated_ttl none now = ok none
validated_ttl (some ttl) now =
    if leb_ℤ ttl (pos 0)
    then err value_error
    else if ltb_ℤ (pos max_ttl_seconds) ttl
    then err value_error
    else ok (some (pos (now + pos_part ttl * micros)))

-- `x is not None and (x < 100 or x > 599)`
abbrev pub bad_status : Option ℤ → Bool
bad_status none = false
bad_status (some n) = ltb_ℤ n (pos 100) || ltb_ℤ (pos 599) n

abbrev pub exceeds : Option ℤ → Option ℤ → Bool
exceeds (some lo) (some hi) = ltb_ℤ hi lo
exceeds _ _ = false

-- the checks before the time to live, and those after it
unfoldable pub check_kind : Spec → Result (Unit {0})
check_kind a = do
  raise_if (not (is_in a.kind valid_kinds)) value_error
  raise_if (not (is_in a.side valid_sides)) value_error
  raise_if (str_eq a.kind "mock" && not (str_eq a.side "response")) value_error
  raise_if (str_eq a.kind "block" && not (str_eq a.side "request")) value_error
  raise_if (str_eq a.kind "relay_extract" && not (str_eq a.side "response")) value_error
  raise_if (str_eq a.kind "relay_inject" && not (str_eq a.side "request")) value_error

unfoldable pub check_status : Spec → Result (Unit {0})
check_status a = do
  raise_if (bad_status a.status_min) value_error
  raise_if (bad_status a.status_max) value_error
  raise_if (exceeds a.status_min a.status_max) value_error
  raise_if ((is_some a.status_min || is_some a.status_max) && not (str_eq a.side "response"))
      value_error

-- `f(x) if x else None`
abbrev pub folded : (String → String) → Option String → Option String
folded f none = none
folded f (some s) = if str_eq s "" then none else some (f s)

-- what is written to rules.json
unfoldable pub document : Dict Rule → Json
document d = obj (
    Fields.field "rules" (arr (of_list (map (λ r. obj (of_dict (fields_of r))) (Dict.values d))))
      Fields.end)

abbrev as_list : Option Json → Option (List Json)
as_list (some (arr vs)) = some (to_list vs)
as_list _ = none

-- `data.get("rules") if isinstance(data, dict) else None`, where it is a list
unfoldable pub entries_of : Json → Option (List Json)
entries_of (obj fs) = as_list (Dict.get (to_dict fs) "rules")
entries_of _ = none

unfoldable pub load_rule : ℕ → Result Rule → Dict Rule → Dict Rule
load_rule now (err x) d = d
load_rule now (ok r) d = if is_expired now r then d else Dict.put d r.id r

module _ (py : Python) where
  open py use {lower, upper, dumps, loads}

  -- the rule that `add` makes
  unfoldable pub new_rule : Spec → String → Option ℤ → ℕ → Rule
  new_rule a uuid expires now = record {
    id = uuid;
    kind = a.kind;
    side = a.side;
    host = folded lower a.host;
    path_pattern = a.path_pattern;
    method = folded upper a.method;
    payload = a.payload;
    created_ts = pos now;
    expires_ts = expires;
    hits = pos 0;
    status_min = a.status_min;
    status_max = a.status_max;
    dry_run = a.dry_run;
  }

  -- the checks of `add`, and the rule; `now` and `later` are its two readings of the clock
  unfoldable pub checked_rule : Spec → String → ℕ → ℕ → Result Rule
  checked_rule a uuid now later = do
    check_kind a
    expires ← validated_ttl a.ttl_seconds now
    check_status a
    post_init py (new_rule a uuid expires later)

  -- `_save_locked`
  unfoldable pub save : Bool → Engine → Result (Unit {0}) × Engine
  save true e = (ok tt, record e { file = some (dumps (document e.rules)) })
  save false e = (err os_error, e)

  -- save, and then return a value
  saving {ℓ} : {A : Type ℓ} → A → Bool → Engine → Result A × Engine
  unfolding save
  saving a writes e = let (done, e') = save writes e in (done >>= λ _. ok a, e')

  -- the part of `add` under the lock, for a rule that passed the checks
  unfoldable pub install : Result Rule → Bool → Engine → Result Rule × Engine
  unfolding saving
  install (err x) writes e = (err x, e)
  install (ok r) writes e = saving r writes (record e { rules = Dict.put e.rules r.id r })

  unfoldable pub add : Spec → String → ℕ → ℕ → Bool → Engine → Result Rule × Engine
  add a uuid now later writes e = install (checked_rule a uuid now later) writes e

  unfoldable pub remove : String → Bool → Engine → Result Bool × Engine
  unfolding saving
  remove id writes e =
      if Dict.contains e.rules id
      then saving true writes (record e { rules = Dict.remove e.rules id })
      else (ok false, e)

  unfoldable pub clear : Bool → Engine → Result ℕ × Engine
  unfolding saving
  clear writes e = saving (length e.rules) writes (record e { rules = [] })

  unfoldable pub reap_expired : ℕ → Bool → Engine → Result ℕ × Engine
  unfolding saving
  reap_expired now writes e =
      let stale = map (λ r. r.id) (filter (is_expired now) (Dict.values e.rules)) in
      if length stale == 0
      then (ok 0, e)
      else saving (length stale) writes (record e { rules = Dict.remove_all e.rules stale })

  unfoldable pub match_for : Flow → ℕ → Engine → List Rule
  match_for f now e = filter (λ r. not (is_expired now r) && matches py r f) (Dict.values e.rules)

  -- one round of the loop of `load`: an entry that is no rule, or has expired, is passed over
  unfoldable pub load_entry : ℕ → Json → Dict Rule → Dict Rule
  unfolding load_rule
  load_entry now entry d = load_rule now (from_dict py entry) d

  unfoldable pub load_entries : ℕ → List Json → Dict Rule → Dict Rule
  load_entries now [] d = d
  load_entries now (entry ∷ entries) d = load_entries now entries (load_entry now entry d)

  unfoldable pub load_json : ℕ → Option Json → Engine → Engine
  load_json now none e = e
  load_json now (some json) e = elim (entries_of json) [
    | none ↦ e
    | some entries ↦ record e { rules = load_entries now entries e.rules }
  ]

  unfoldable pub load_file : Bool → ℕ → Option String → Engine → Engine
  unfolding load_json
  load_file readable now none e = e
  load_file readable now (some text) e = if readable then load_json now (loads text) e else e

  unfoldable pub load : Bool → ℕ → Engine → Engine
  load readable now e = load_file readable now e.file e

-- `r.hits += 1`
abbrev pub increment : ℤ → ℤ
increment (pos n) = pos (n + 1)
increment (negsuc n) = sub_ℕ 0 n

unfoldable pub hit : String → Option Rule → Engine → Bool × Engine
hit id none e = (false, e)
hit id (some r) e =
    (true, record e { rules = Dict.put e.rules id (record r { hits = increment r.hits }) })

unfoldable pub record_hit : String → Engine → Bool × Engine
unfolding hit
record_hit id e = hit id (Dict.get e.rules id) e
