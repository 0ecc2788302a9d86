-- ===== src/RuleTools/Atomic.antt =====
-- A tool installs one valid rule, or leaves the engine alone.
use reqable_mcp.Prelude.{
  ℕ, String, ◌≡◌, ◌⊎◌, refl, sym, ◌∙◌, true, false, Bool, Option, some, inl, inr, if◌then◌else◌,
}
use reqable_mcp.Prelude.Result.{Result, ok, err, Error, os_error, Result-cases}
use reqable_mcp.Prelude.Dict
use reqable_mcp.Prelude.Dict.{Dict}
use reqable_mcp.Python.{Python}
use reqable_mcp.Rules.{Rule}
use reqable_mcp.Rules.Engine
use reqable_mcp.Rules.Engine.{Engine, Spec, checked_rule, install, new_rule}
use reqable_mcp.Rules.Checks.{IsValid}
use reqable_mcp.Rules.Adding.{made, IsValid-of_checked, install-rules, install-result}
use reqable_mcp.RuleTools.{Host, Tool}
use reqable_mcp.RuleTools.Calls.{prepare, install_spec, call}

module _ (py : Python) (host : Host) (uuid : String) (now later : ℕ) (writes : Bool)
    (e : Engine) where
  -- what a call leaves that was refused
  abbrev pub Refused : Result Rule × Option Engine → Type 0
  Refused (r, e') = (x : Error) × (r ≡ err x) × (e' ≡ some e)

  -- and one that got as far as the file, for the arguments of `add`
  abbrev pub Installed : Spec → Result Rule × Option Engine → Type 0
  Installed a (r, e') =
      IsValid py a
      × (r ≡ (if writes then ok (made py a uuid now later) else err os_error))
      × (e'' : Engine) × (e' ≡ some e'')
      × (e''.rules ≡ Dict.put e.rules uuid (made py a uuid now later))

  not_added : (x : Error) → install py (err x) writes e ≡ (err x, e)
  unfolding install
  not_added x = refl

  added :
      (a : Spec)
      → Refused (install_spec py host (ok a) uuid now later writes (some e))
        ⊎ Installed a (install_spec py host (ok a) uuid now later writes (some e))
  unfolding install_spec Engine.add new_rule
  added a = elim (Result-cases (checked_rule py a uuid now later)) [
    | inl (r, good) ↦
        let (valid, same) = IsValid-of_checked py a uuid now later r good in
        rw (good, same)
          (inr (
            valid,
            install-result py a uuid now later writes e (made py a uuid now later),
            (install py (ok (made py a uuid now later)) writes e).1,
            refl,
            install-rules py a uuid now later writes e (made py a uuid now later),
          ))
    | inr (x, bad) ↦ rw (bad, not_added x) (inl (x, refl, refl))
  ]

  -- Whatever the arguments of a tool are, it either answers with an error and leaves the engine as it
  -- was, or its checks and those of `add` passed, and exactly the rule that they describe is put into
  -- the engine's rules, where rules.json cannot be written too.
  pub call_atomic :
      (t : Tool)
      → Refused (call py host t uuid now later writes (some e))
        ⊎ ((a : Spec) × (prepare py host t ≡ ok a)
            × Installed a (call py host t uuid now later writes (some e)))
  unfolding call install_spec
  call_atomic t = elim (Result-cases (prepare py host t)) [
    | inl (a, good) ↦
        rw good
          (elim (added a) [ inl refused ↦ inl refused | inr installed ↦ inr (a, refl, installed) ])
    | inr (x, bad) ↦ rw bad (inl (x, refl, refl))
  ]

  installed_rule : (w : Bool) {x r : Rule} → (if w then ok x else err os_error) ≡ ok r → r ≡ x
  installed_rule true h = cc
  installed_rule false h = cc

  -- A rule that a tool answers with is the one that `add` makes of what the tool passes on.
  pub call-made :
      (t : Tool) (r : Rule)
      → (call py host t uuid now later writes (some e)).0 ≡ ok r
      → (a : Spec) × (prepare py host t ≡ ok a) × IsValid py a × (r ≡ made py a uuid now later)
  call-made t r h = elim (call_atomic t) [
    | inl (x, bad, _) ↦ absurd (cc)
    | inr (a, good, installed) ↦ (a, good, installed.0, installed_rule writes (sym installed.1 ∙ h))
  ]
