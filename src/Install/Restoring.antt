-- ===== src/Install/Restoring.antt =====
-- What `uninstall_hook` restores after `apply_plan`.
use reqable_mcp.Prelude.{
  ℕ, ◌≤◌, String, ◌≡◌, refl, ap, ◌∙◌, Bool, true, false, none, some, List, All,
}
use reqable_mcp.Prelude.Result.{Result, ok, err, value_error, ◌>>=◌}
use reqable_mcp.Prelude.Dict
use reqable_mcp.Prelude.Dict.{Dict}
use reqable_mcp.Json.{Json}
use reqable_mcp.Python.{Python}
use reqable_mcp.Values.{as_dict}
use reqable_mcp.Install.{
  File, Files, InstallPlan, World, build_script_entry, make_plan, add_entry, load, apply_plan,
}
use reqable_mcp.Install.Undoing.{
  strip_entry, find_latest_backup, uninstalled, Undone, restored, removal, uninstall_from,
  uninstall_hook,
}
use reqable_mcp.Install.Entries.{scripts_of, others_of, IsOurs}
use reqable_mcp.Install.Stripping.{strip_entry-add_entry}
use reqable_mcp.Install.Latest.{find_latest_backup-put}
use reqable_mcp.Install.Installed.{IsInstalled, apply_plan-IsInstalled}

-- The entry and the environment that `make_plan` makes are ours.
pub make_plan-IsOurs :
    (hook_dir executor version one two : String)
    → IsOurs (make_plan hook_dir executor version one two).new_script_entry
unfolding make_plan build_script_entry as_dict Dict.get
make_plan-IsOurs hook_dir executor version one two = (_, refl, refl)

module _ (py : Python) where
  -- what taking the hook out gives, once it is known what is left of the configuration
  uninstall_hook-eq :
      (now : ℕ) (config : File) (files : Files) (before stripped : Json) (backup : File)
      → files.capture_config ≡ some config
      → py.loads config.text ≡ some before
      → strip_entry before ≡ ok (some stripped)
      → find_latest_backup files.environment_backups ≡ some backup
      → uninstall_hook py (ok tt) now files ≡ (
        ok (uninstalled true true),
        record files {
          capture_config = some (record { text = py.dumps stripped; mtime = now });
          script_environment = some backup;
        },
      )
  unfolding uninstall_hook
  uninstall_hook-eq now config files before stripped backup c l s b =
      let read : (load py config >>= strip_entry) ≡ ok (some stripped) =
        ap
          (λ o.
            elim o as (λ _. Result Json) [ none ↦ err value_error | some j ↦ ok j ] >>= strip_entry)
          l
        ∙ s in
      ap (λ o. uninstall_from py o (ok tt) now files) c
      ∙ ap (removal py (ok tt) now files) read
      ∙ ap
          (λ o. restored o true (record files {
            capture_config = some (record { text = py.dumps stripped; mtime = now });
          }))
          b

  -- What `uninstall_hook` gives after a successful `apply_plan`.
  pub record IsUndone (before : Json) (environment : File) (done : Undone) : Type 0 where
    pub summary : done.0 ≡ ok (uninstalled true true)
    pub environment_back : done.1.script_environment ≡ some environment
    pub scripts_back :
        (others : List Json) × (others_of before ≡ ok others)
        × ((after : Json) × (scripts_of after ≡ ok others)
            × ((now : ℕ) × (done.1.capture_config
                  ≡ some (record { text = py.dumps after; mtime = now }))))

  undone :
      (plan : InstallPlan) (installed later : ℕ) (config environment : File) (files files' : Files)
      → IsOurs plan.new_script_entry
      → (h : IsInstalled py plan installed config environment files files')
      → py.loads (py.dumps h.configured.2.0) ≡ some h.configured.2.0
      → Dict.contains files.environment_backups plan.backup_script_environment ≡ false
      → All (λ g. g.mtime ≤ environment.mtime) (Dict.values files.environment_backups)
      → IsUndone h.configured.0 environment (uninstall_hook py (ok tt) later files')
  undone plan installed later config environment files files' ours h law fresh old =
      let (before, l, (after, added, c)) = h.configured in
      let (others, kept, (stripped, removed, left)) =
        strip_entry-add_entry plan before after ours added in
      let newest : find_latest_backup files'.environment_backups ≡ some environment =
        ap find_latest_backup h.backed_up
        ∙ find_latest_backup-put files.environment_backups plan.backup_script_environment
            environment fresh old in
      let gone =
        uninstall_hook-eq later (record { text = py.dumps after; mtime = installed }) files' after
          stripped environment c law removed newest in
      record {
        summary = ap (λ d. d.0) gone;
        environment_back = ap (λ d. d.1.script_environment) gone;
        scripts_back = (others, kept, (stripped, left, (later, ap (λ d. d.1.capture_config) gone)));
      }

  -- `uninstall_hook` undoes `apply_plan`: after an installation that succeeded, with a backup of a new name
  -- and no newer one there, it takes our entry out, leaves the scripts that are not ours as they were, and
  -- restores the environment; if the configuration that is
  -- written is read back.
  pub uninstall_hook-apply_plan :
      (plan : InstallPlan) (force : Bool) (w : World) (config environment : File)
      (files files' : Files) (later : ℕ)
      → ((before after : Json)
          → py.loads config.text ≡ some before
          → add_entry plan before ≡ ok after
          → py.loads (py.dumps after) ≡ some after)
      → IsOurs plan.new_script_entry
      → files.capture_config ≡ some config
      → files.script_environment ≡ some environment
      → Dict.contains files.environment_backups plan.backup_script_environment ≡ false
      → All (λ g. g.mtime ≤ environment.mtime) (Dict.values files.environment_backups)
      → apply_plan py plan force w files ≡ (ok tt, files')
      → (before : Json) × (py.loads config.text ≡ some before)
        × IsUndone before environment (uninstall_hook py (ok tt) later files')
  uninstall_hook-apply_plan plan force w config environment files files' later law ours c e fresh
        old h =
      let installed =
        apply_plan-IsInstalled py plan force w config environment files files' c e h in
      (
        installed.configured.0,
        installed.configured.1,
        undone plan w.now later config environment files files' ours installed
            (law installed.configured.0 installed.configured.2.0 installed.configured.1
              installed.configured.2.1)
            fresh old,
      )

  -- Taking the hook out after two installations, the second with a backup of a new name and later than all
  -- backups, leaves the environment of the first installation, not the one before it.
  pub uninstall_hook-reinstalled :
      (plan plan' : InstallPlan) (force force' : Bool) (w w' : World) (config environment : File)
      (files files' files'' : Files) (later : ℕ)
      → ((j : Json) → py.loads (py.dumps j) ≡ some j)
      → IsOurs plan'.new_script_entry
      → files.capture_config ≡ some config
      → files.script_environment ≡ some environment
      → apply_plan py plan force w files ≡ (ok tt, files')
      → apply_plan py plan' force' w' files' ≡ (ok tt, files'')
      → Dict.contains files'.environment_backups plan'.backup_script_environment ≡ false
      → All (λ g. g.mtime ≤ w.now) (Dict.values files'.environment_backups)
      → (uninstall_hook py (ok tt) later files'').1.script_environment
        ≡ some (record { text = py.dumps plan.new_script_environment; mtime = w.now })
  uninstall_hook-reinstalled plan plan' force force' w w' config environment files files' files''
        later law ours c e h h' fresh old =
      let first = apply_plan-IsInstalled py plan force w config environment files files' c e h in
      let (_, _, (after, _, c')) = first.configured in
      let ours_now : File = record { text = py.dumps plan.new_script_environment; mtime = w.now } in
      let config_now : File = record { text = py.dumps after; mtime = w.now } in
      (uninstall_hook-apply_plan plan' force' w' config_now ours_now files' files'' later
        (λ _ j _ _. law j) ours c' first.environment_ours fresh old h').2.environment_back
