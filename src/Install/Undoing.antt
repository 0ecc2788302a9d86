-- ===== src/Install/Undoing.antt =====
-- hook/install.py: `uninstall_hook` and the restoring of backups.
use reqable_mcp.Prelude.{
  ℕ, Bool, true, false, Option, none, some, List, [], ◌∷◌, length, sort_by, ◌==◌, if◌then◌else◌,
}
use reqable_mcp.Prelude.Result.{Result, ok, err, ◌>>=◌}
use reqable_mcp.Prelude.Dict
use reqable_mcp.Prelude.Dict.{Dict}
use reqable_mcp.Json.{Json, bool, str, arr, obj, Items, Fields, of_list}
use reqable_mcp.Python.{Python}
use reqable_mcp.Values.{at, or_else, as_dict, iterate}
use reqable_mcp.Install.{File, Files, of_pairs, without_ours, load}

-- The section without our entry, or `none` where it is not there.
unfoldable pub strip_section : Dict Json → Result (Option (Dict Json))
unfolding without_ours
strip_section sc = do
  scripts ← iterate (or_else (at sc "scripts") (arr Items.nil))
  others ← without_ours scripts
  let stripped = Dict.put sc "scripts" (arr (of_list others))
  ok (
      if length others == length scripts
      then none
      else some (
          if length others == 0
          then Dict.put (Dict.put stripped "isEnabled" (bool false)) "execHome" (str "")
          else stripped))

unfoldable pub strip_entry : Json → Result (Option Json)
unfolding strip_section
strip_entry cap = do
  d ← as_dict cap
  sc ← as_dict (or_else (at d "scriptConfig") (obj Fields.end))
  stripped ← strip_section sc
  ok (elim stripped [
    | none ↦ none
    | some sc' ↦ some (of_pairs (Dict.put d "scriptConfig" (of_pairs sc')))
  ])

-- the last of the backups by their modification times
abbrev pub latest : List File → Option File
latest [] = none
latest (f ∷ fs) = elim (latest fs) [ none ↦ some f | some g ↦ some g ]

-- `find_latest_backup`, on the backups of the prefix
unfoldable pub find_latest_backup : Dict File → Option File
find_latest_backup backups = latest (sort_by (λ f. f.mtime) (Dict.values backups))

-- `restore_capture_config`
unfoldable pub restore_capture_config : Files → Option File × Files
unfolding find_latest_backup
restore_capture_config files = elim (find_latest_backup files.config_backups) [
  | none ↦ (none, files)
  | some backup ↦ (some backup, record files { capture_config = some backup })
]

-- what `uninstall_hook` returns; a call without the configuration does nothing
pub data Summary : Type 0 where
  no_op : Summary
  uninstalled : Bool → Bool → Summary

abbrev pub Undone : Type 0
Undone = Result Summary × Files

-- the restoring of the environment, after the entry was removed or not
abbrev pub restored : Option File → Bool → Files → Undone
restored none removed files = (ok (uninstalled removed false), files)
restored (some backup) removed files =
    (ok (uninstalled removed true), record files { script_environment = some backup })

abbrev pub restore : Bool → Files → Undone
restore removed files = restored (find_latest_backup files.environment_backups) removed files

module _ (py : Python) where
  abbrev pub removal : Result (Unit {0}) → ℕ → Files → Result (Option Json) → Undone
  removal written now files (err x) = (err x, files)
  removal written now files (ok none) = restore false files
  removal (err x) now files (ok (some cap)) = (err x, files)
  removal (ok _) now files (ok (some cap)) =
      restore true
        (record files { capture_config = some (record { text = py.dumps cap; mtime = now }) })

  abbrev pub uninstall_from : Option File → Result (Unit {0}) → ℕ → Files → Undone
  uninstall_from none written now files = (ok no_op, files)
  uninstall_from (some config) written now files =
      removal written now files (load py config >>= strip_entry)

  -- `uninstall_hook`, with whether its write succeeds
  unfoldable pub uninstall_hook : Result (Unit {0}) → ℕ → Files → Undone
  unfolding strip_entry find_latest_backup
  uninstall_hook written now files = uninstall_from files.capture_config written now files
