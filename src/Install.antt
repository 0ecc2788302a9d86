-- ===== src/Install.antt =====
-- hook/install.py: the installer of the hook, as steps on the files of the proxy and the backups. A file is
-- its text and its modification time, which `copy2` copies too. Whether the proxy runs, the
-- deployment of the templates and the writes are parameters, which return or raise.
pub mod Undoing
pub mod Entries
pub mod Stripping
pub mod Latest
pub mod Installed
pub mod Restoring
pub mod Deploy
mod Tests
use reqable_mcp.Prelude.{
  ℕ, String, Bool, true, false, not, ◌&&◌, Option, none, some, List, [], ◌∷◌, ◌++◌, length, filter,
  sort_by, str_eq, is_some, ◌==◌, if◌then◌else◌,
}
use reqable_mcp.Prelude.Result.{
  Result, ok, err, value_error, os_error, attribute_error, runtime_error, ◌>>=◌, ◌>>◌, raise_if,
}
use reqable_mcp.Prelude.Dict
use reqable_mcp.Prelude.Dict.{Dict}
use reqable_mcp.Json.{Json, null, bool, str, arr, obj, Items, Fields, to_dict, of_dict, of_list}
use reqable_mcp.Python.{Python}
use reqable_mcp.Values.{at, is_true, or_else, as_dict, iterate}

pub record File : Type 0 where
  pub text : String
  pub mtime : ℕ

-- the two files of the proxy, and the backups of each by their names
pub record Files : Type 0 where
  pub capture_config : Option File
  pub script_environment : Option File
  pub config_backups : Dict File
  pub environment_backups : Dict File

pub record InstallPlan : Type 0 where
  pub hook_dir : String
  pub backup_capture_config : String
  pub backup_script_environment : String
  pub new_script_entry : Json
  pub new_script_environment : Json

-- what the system does during an installation
pub record World : Type 0 where
  pub running : Bool
  pub present : Result (Unit {0})
  pub deployed : Result (Unit {0})
  pub config_written : Result (Unit {0})
  pub environment_written : Result (Unit {0})
  pub now : ℕ

abbrev pub our_script_id : String
our_script_id = "reqable-mcp"

abbrev pub of_pairs : Dict Json → Json
of_pairs d = obj (of_dict d)

-- `build_script_entry`
unfoldable pub build_script_entry : String → Json
build_script_entry hook_dir = of_pairs (
    ("id", str our_script_id)
    ∷ ("name", str "reqable-mcp")
    ∷ ("method", str "")
    ∷ ("url", str "*")
    ∷ ("wildcard", bool true)
    ∷ ("isEnabled", bool true)
    ∷ ("path", str hook_dir)
    ∷ [])

-- `build_script_environment`
unfoldable pub build_script_environment : String → String → Json
build_script_environment executor version =
    of_pairs (("executor", str executor) ∷ ("version", str version) ∷ ("home", str "") ∷ [])

-- `make_plan`, with the two names of backups that it makes
unfoldable pub make_plan : String → String → String → String → String → InstallPlan
unfolding build_script_entry build_script_environment
make_plan hook_dir executor version config_backup environment_backup = record {
  hook_dir = hook_dir;
  backup_capture_config = config_backup;
  backup_script_environment = environment_backup;
  new_script_entry = build_script_entry hook_dir;
  new_script_environment = build_script_environment executor version;
}

abbrev pub is_our_id : Json → Bool
is_our_id (str s) = str_eq s our_script_id
is_our_id _ = false

-- `[s for s in scripts if s.get("id") != OUR_SCRIPT_ID]`
unfoldable pub without_ours : List Json → Result (List Json)
without_ours [] = ok []
without_ours (s ∷ ss) = do
  d ← as_dict s
  rest ← without_ours ss
  ok (if is_our_id (at d "id") then rest else s ∷ rest)

-- `d.setdefault(k, v)`
abbrev pub set_default : Dict Json → String → Json → Json
set_default d k v = elim (Dict.get d k) [ none ↦ v | some w ↦ w ]

-- the default of the section
abbrev pub no_scripts : Json
no_scripts =
    of_pairs (("scripts", arr Items.nil) ∷ ("isEnabled", bool false) ∷ ("execHome", str "") ∷ [])

-- what `apply_plan` makes of the section `scriptConfig`
unfoldable pub with_entry : InstallPlan → Dict Json → Result (Dict Json)
unfolding without_ours
with_entry plan sc = do
  scripts ← iterate (set_default sc "scripts" (arr Items.nil))
  others ← without_ours scripts
  ok (
      Dict.put
        (Dict.put (Dict.put sc "scripts" (arr (of_list (others ++ plan.new_script_entry ∷ []))))
          "isEnabled" (bool true))
        "execHome" (str plan.hook_dir))

-- and of the configuration
unfoldable pub add_entry : InstallPlan → Json → Result Json
unfolding with_entry
add_entry plan cap = do
  d ← as_dict cap
  sc ← as_dict (set_default d "scriptConfig" no_scripts)
  sc' ← with_entry plan sc
  ok (of_pairs (Dict.put d "scriptConfig" (of_pairs sc')))

abbrev pub load : Python → File → Result Json
load py f = elim (py.loads f.text) [ none ↦ err value_error | some j ↦ ok j ]

-- what a call gives, and the files after it
abbrev pub Done : Type 0
Done = Result (Unit {0}) × Files

abbrev pub and_then : Result (Unit {0}) → Files → Done → Done
and_then (err x) files next = (err x, files)
and_then (ok _) files next = next

-- the checks before anything is changed
abbrev pub may_install : Bool → World → Result (Unit {0})
may_install force_running w = raise_if (w.running && not force_running) runtime_error >> w.present

module _ (py : Python) where
  -- the writes: the configuration first
  unfoldable pub write_both : InstallPlan → World → Json → Files → Done
  write_both plan w cap files =
      let configured = record files {
        capture_config = some (record { text = py.dumps cap; mtime = w.now });
      } in
      and_then w.config_written files (
        and_then w.environment_written configured (
          ok tt,
          record configured {
            script_environment =
                some (record { text = py.dumps plan.new_script_environment; mtime = w.now });
          },
        ))

  abbrev pub write_result : InstallPlan → World → Files → Result Json → Done
  write_result plan w files (err x) = (err x, files)
  write_result plan w files (ok cap) = write_both plan w cap files

  -- the steps after the checks: the backups, the deployment and the writes
  unfoldable pub install : InstallPlan → World → File → File → Files → Done
  unfolding add_entry write_both
  install plan w config environment files =
      let saved = record files {
        config_backups = Dict.put files.config_backups plan.backup_capture_config config;
        environment_backups =
            Dict.put files.environment_backups plan.backup_script_environment environment;
      } in
      and_then w.deployed saved
        (write_result plan w saved (do cap ← load py config; add_entry plan cap))

  -- whether the two files are there
  abbrev pub install_from : Option File → Option File → InstallPlan → World → Files → Done
  install_from none environment plan w files = (err os_error, files)
  install_from (some config) none plan w files = (err os_error, files)
  install_from (some config) (some environment) plan w files =
      install plan w config environment files

  -- `apply_plan`
  unfoldable pub apply_plan : InstallPlan → Bool → World → Files → Done
  unfolding install
  apply_plan plan force_running w files =
      and_then (may_install force_running w) files
        (install_from files.capture_config files.script_environment plan w files)
