-- ===== src/Install/Deploy.antt =====
-- hook/deploy.py: the copying of the template files. The target directory is a dictionary of its files, where
-- `none` is a file that cannot be read; the bytes of the templates are a parameter.
use mathlib.Core.Path.{subst}
use reqable_mcp.Prelude.{
  String, ◌≡◌, refl, sym, ap, ◌∙◌, Bool, true, false, Option, some, List, [], ◌∷◌, str_eq, eq_iff,
  arith, if◌then◌else◌, Bool-cases, inl, inr, All,
}
use reqable_mcp.Prelude.Dict
use reqable_mcp.Prelude.Dict.{Dict}
use reqable_mcp.Prelude.Dict.Laws.{get-put}

abbrev pub template_files : List String
template_files = "main.py" ∷ "reqable.py" ∷ "addons.py" ∷ []

abbrev pub Target : Type 0
Target = Dict (Option String)

pub record DeployResult : Type 0 where
  pub written : List String
  pub skipped : List String

-- the file is there and has these bytes
abbrev pub is_current : Option (Option String) → String → Bool
is_current (some (some bytes)) src = str_eq bytes src
is_current _ src = false

module _ (template : String → String) where
  -- the loop over the names
  unfoldable pub deploy_each : List String → Target → DeployResult × Target
  deploy_each [] target = (record { written = []; skipped = [] }, target)
  deploy_each (name ∷ names) target =
      if is_current (Dict.get target name) (template name)
      then (let (rest, after) = deploy_each names target in
          (record rest { skipped = name ∷ rest.skipped }, after))
      else (let (rest, after) = deploy_each names (Dict.put target name (some (template name))) in
          (record rest { written = name ∷ rest.written }, after))

  -- `deploy_to`
  unfoldable pub deploy_to : Target → DeployResult × Target
  unfolding deploy_each
  deploy_to target = deploy_each template_files target

  -- the file of a name is the template's
  abbrev pub IsCurrent : Target → String → Type 0
  IsCurrent target name = is_current (Dict.get target name) (template name) ≡ true

  put-IsCurrent :
      (target : Target) (name other : String)
      → IsCurrent target other
      → IsCurrent (Dict.put target name (some (template name))) other
  put-IsCurrent target name other h =
      ap (λ o. is_current o (template other)) (get-put target name (some (template name)) other)
      ∙ elim (Bool-cases (str_eq name other)) [
        | inl same ↦ rw same (
            ap (λ n. str_eq (template n) (template other)) ((eq_iff name other).0 same)
            ∙ ground (arith, eq_iff (template other) (template other)))
        | inr apart ↦ rw apart h
      ]

  deploy_each-keeps :
      (names : List String) (target : Target) (other : String)
      → IsCurrent target other
      → IsCurrent (deploy_each names target).1 other
  unfolding deploy_each
  deploy_each-keeps [] target other h = h
  deploy_each-keeps (name ∷ names) target other h =
      elim (Bool-cases (is_current (Dict.get target name) (template name))) [
        | inl e ↦ rw e (deploy_each-keeps names target other h)
        | inr e ↦ rw e (
            deploy_each-keeps names (Dict.put target name (some (template name))) other
              (put-IsCurrent target name other h))
      ]

  just_put :
      (target : Target) (name : String)
      → IsCurrent (Dict.put target name (some (template name))) name
  just_put target name =
      ap (λ o. is_current o (template name)) (get-put target name (some (template name)) name)
      ∙ ground (arith, eq_iff name name, eq_iff (template name) (template name))

  deploy_each-IsCurrent :
      (names : List String) (target : Target) → All (IsCurrent (deploy_each names target).1) names
  unfolding deploy_each
  deploy_each-IsCurrent [] target = tt
  deploy_each-IsCurrent (name ∷ names) target =
      let put = Dict.put target name (some (template name)) in
      elim (Bool-cases (is_current (Dict.get target name) (template name))) [
        | inl e ↦
            let same : (deploy_each (name ∷ names) target).1 ≡ (deploy_each names target).1 =
              rw e refl in
            subst (λ d. All (IsCurrent d) (name ∷ names)) (sym same)
              (deploy_each-keeps names target name e, deploy_each-IsCurrent names target)
        | inr e ↦
            let same : (deploy_each (name ∷ names) target).1 ≡ (deploy_each names put).1 =
              rw e refl in
            subst (λ d. All (IsCurrent d) (name ∷ names)) (sym same)
              (
                deploy_each-keeps names put name (just_put target name),
                deploy_each-IsCurrent names put,
              )
      ]

  deploy_each-again :
      (names : List String) (target : Target)
      → All (IsCurrent target) names
      → deploy_each names target ≡ (record { written = []; skipped = names }, target)
  unfolding deploy_each
  deploy_each-again [] target all = refl
  deploy_each-again (name ∷ names) target (h, all) = rw h (
      ap (λ d. (record d.0 { skipped = name ∷ d.0.skipped }, d.1))
        (deploy_each-again names target all))

  -- After a deployment each template file is there with the bytes of its template, and another deployment
  -- writes nothing and skips them all.
  pub deploy_to-again :
      (target : Target)
      → All (IsCurrent (deploy_to target).1) template_files
        × (deploy_to (deploy_to target).1
            ≡ (record { written = []; skipped = template_files }, (deploy_to target).1))
  unfolding deploy_to
  deploy_to-again target =
      let all = deploy_each-IsCurrent template_files target in
      (all, deploy_each-again template_files (deploy_each template_files target).1 all)
