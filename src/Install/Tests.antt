-- ===== src/Install/Tests.antt =====
-- An installation and its undoing, and the theorems at concrete inputs.
use reqable_mcp.Prelude.{
  String, ◌≡◌, refl, true, false, Option, some, [], ◌∷◌, str_eq, if◌then◌else◌, ap, sym, ◌∙◌, arith,
}
use reqable_mcp.Prelude.Result.{ok, err, runtime_error, ok-inj}
use reqable_mcp.Prelude.Dict
use reqable_mcp.Json.{Json, bool, str, arr, obj, Items, Fields}
use reqable_mcp.Python.{Python}
use reqable_mcp.Values
use reqable_mcp.Install.{File, Files, InstallPlan, World, make_plan, add_entry, apply_plan}
use reqable_mcp.Install.Undoing.{uninstall_hook}
use reqable_mcp.Install.Restoring.{IsUndone, make_plan-IsOurs, uninstall_hook-apply_plan}

abbrev theirs : Json
theirs = obj (Fields.field "id" (str "x") Fields.end)

abbrev config_before : Json
config_before = obj (
    Fields.field "scriptConfig"
      (obj (Fields.field "scripts" (arr (Items.cons theirs Items.nil)) Fields.end)) Fields.end)

abbrev our_plan : String → InstallPlan
our_plan stamp = make_plan "/hook" "python" "3.12.0" stamp stamp

abbrev after_adding : Json
after_adding = obj (
    Fields.field "scriptConfig"
      (obj (
        Fields.field "scripts"
          (arr (Items.cons theirs (Items.cons (our_plan "1").new_script_entry Items.nil)))
          (Fields.field "isEnabled" (bool true)
            (Fields.field "execHome" (str "/hook") Fields.end))))
      Fields.end)

added : add_entry (our_plan "1") config_before ≡ ok after_adding
unfolding add_entry make_plan Values.as_dict Dict.get Values.iterate Dict.put
added = refl

some_inj : {a b : Json} → Path (Option Json) (some a) (some b) → a ≡ b
some_inj h = cc

-- a library whose `loads` knows the two configurations
abbrev py : Python
py = record {
  lower = λ s. s;
  upper = λ s. s;
  compiles = λ p. true;
  search = λ p s. true;
  dumps = λ j. "after";
  loads = λ s. if str_eq s "after" then some after_adding else some config_before;
}

abbrev config_file : File
config_file = record { text = "before"; mtime = 3 }

abbrev environment_file : File
environment_file = record { text = "theirs"; mtime = 3 }

abbrev files_before : Files
files_before = record {
  capture_config = some config_file;
  script_environment = some environment_file;
  config_backups = [];
  environment_backups = ("0", record { text = "older"; mtime = 1 }) ∷ [];
}

abbrev quiet : World
quiet = record {
  running = false;
  present = ok tt;
  deployed = ok tt;
  config_written = ok tt;
  environment_written = ok tt;
  now = 5;
}

abbrev files_after : Files
files_after = (apply_plan py (our_plan "1") false quiet files_before).1

applied : apply_plan py (our_plan "1") false quiet files_before ≡ (ok tt, files_after)
unfolding apply_plan add_entry make_plan Values.as_dict Dict.get Values.iterate Dict.put
applied = refl

refused_while_running :
    apply_plan py (our_plan "1") false (record quiet { running = true }) files_before
    ≡ (err runtime_error, files_before)
unfolding apply_plan
refused_while_running = refl

uninstall_hook-apply_plan_example :
    (before : Json) × (py.loads "before" ≡ some before)
    × IsUndone py before environment_file (uninstall_hook py (ok tt) 9 files_after)
unfolding Dict.get make_plan
uninstall_hook-apply_plan_example =
    uninstall_hook-apply_plan py (our_plan "1") false quiet config_file environment_file
      files_before files_after 9
      (λ before after l a.
        ap some
          (ok-inj after_adding after (sym added ∙ ap (add_entry (our_plan "1")) (some_inj l) ∙ a)))
      (make_plan-IsOurs "/hook" "python" "3.12.0" "1" "1") refl refl refl (omega arith, tt) applied
