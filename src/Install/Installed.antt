-- ===== src/Install/Installed.antt =====
-- What an installation that succeeded leaves.
use reqable_mcp.Prelude.{ℕ, ◌≡◌, refl, sym, ap, ◌∙◌, Bool, Option, none, some}
use reqable_mcp.Prelude.Result.{Result, ok, err, value_error, ◌>>=◌, >>=-eq-ok, ok-inj}
use reqable_mcp.Prelude.Dict
use reqable_mcp.Prelude.Dict.{Dict}
use reqable_mcp.Json.{Json}
use reqable_mcp.Python.{Python}
use reqable_mcp.Install.{
  File, Files, InstallPlan, World, add_entry, load, Done, and_then, write_both, write_result,
  install, may_install, install_from, apply_plan,
}

and_then-ok :
    (r : Result (Unit {0})) (files files' : Files) (next : Done)
    → and_then r files next ≡ (ok tt, files')
    → next ≡ (ok tt, files')
and_then-ok (err x) files files' next h = absurd (cc)
and_then-ok (ok _) files files' next h = h

module _ (py : Python) where
  -- What a successful installation leaves: the configuration with the entry, our environment, and the
  -- environment that was there among the backups.
  pub record IsInstalled (plan : InstallPlan) (now : ℕ) (config environment : File)
      (files files' : Files) : Type 0 where
    pub configured :
        (before : Json) × (py.loads config.text ≡ some before)
        × ((after : Json) × (add_entry plan before ≡ ok after)
            × (files'.capture_config ≡ some (record { text = py.dumps after; mtime = now })))
    pub environment_ours :
        files'.script_environment
        ≡ some (record { text = py.dumps plan.new_script_environment; mtime = now })
    pub backed_up :
        files'.environment_backups
        ≡ Dict.put files.environment_backups plan.backup_script_environment environment

  loaded :
      (o : Option Json) (j : Json)
      → elim o as (λ _. Result Json) [ none ↦ err value_error | some k ↦ ok k ] ≡ ok j
      → o ≡ some j
  loaded none j h = absurd (cc)
  loaded (some k) j h = ap some (ok-inj k j h)

  write_both-ok :
      (plan : InstallPlan) (w : World) (cap : Json) (files files' : Files)
      → write_both py plan w cap files ≡ (ok tt, files')
      → (files'.capture_config ≡ some (record { text = py.dumps cap; mtime = w.now }))
        × (files'.script_environment
            ≡ some (record { text = py.dumps plan.new_script_environment; mtime = w.now }))
        × (files'.environment_backups ≡ files.environment_backups)
  unfolding write_both
  write_both-ok plan w cap files files' h =
      let done =
        and_then-ok w.environment_written _ files' _
          (and_then-ok w.config_written files files' _ h) in
      let made = sym (ap (λ d. d.1) done) in
      (
        ap (λ f. f.capture_config) made,
        ap (λ f. f.script_environment) made,
        ap (λ f. f.environment_backups) made,
      )

  install-IsInstalled :
      (plan : InstallPlan) (w : World) (config environment : File) (files files' : Files)
      → install py plan w config environment files ≡ (ok tt, files')
      → IsInstalled plan w.now config environment files files'
  unfolding install
  install-IsInstalled plan w config environment files files' h =
      let saved = record files {
        config_backups = Dict.put files.config_backups plan.backup_capture_config config;
        environment_backups =
            Dict.put files.environment_backups plan.backup_script_environment environment;
      } in
      by_result saved refl (load py config >>= add_entry plan) refl
        (and_then-ok w.deployed saved files' _ h)
    where
      by_result :
          (saved : Files)
          → saved.environment_backups
            ≡ Dict.put files.environment_backups plan.backup_script_environment environment
          → (r : Result Json) → (load py config >>= add_entry plan) ≡ r
          → write_result py plan w saved r ≡ (ok tt, files')
          → IsInstalled plan w.now config environment files files'
      by_result saved b (err x) e h = absurd (cc)
      by_result saved b (ok after) e h =
          let (before, l, added) = >>=-eq-ok (load py config) (add_entry plan) e in
          let (c, env, kept) = write_both-ok plan w after saved files' h in
          record {
            configured = (before, loaded (py.loads config.text) before l, (after, added, c));
            environment_ours = env;
            backed_up = kept ∙ b;
          }

  pub apply_plan-IsInstalled :
      (plan : InstallPlan) (force : Bool) (w : World) (config environment : File)
      (files files' : Files)
      → files.capture_config ≡ some config
      → files.script_environment ≡ some environment
      → apply_plan py plan force w files ≡ (ok tt, files')
      → IsInstalled plan w.now config environment files files'
  unfolding apply_plan
  apply_plan-IsInstalled plan force w config environment files files' c e h =
      let done =
        and_then-ok (may_install force w) files files'
          (install_from py files.capture_config files.script_environment plan w files) h in
      install-IsInstalled plan w config environment files files'
        (sym (λ i. install_from py (c i) (e i) plan w files) ∙ done)
