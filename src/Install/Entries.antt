-- ===== src/Install/Entries.antt =====
-- Adding our entry to the scripts of the configuration, and taking it out again.
use reqable_mcp.Prelude.{
  ◌≡◌, refl, sym, ap, ◌∙◌, true, false, List, [], ◌∷◌, ◌++◌, Bool-cases, inl, inr, All,
}
use reqable_mcp.Prelude.Result.{OnOk, OnOk-then, OnOk-self, Result, ok, >>=-eq-ok, ok-inj, ◌>>=◌}
use reqable_mcp.Prelude.Dict
use reqable_mcp.Prelude.Dict.{Dict}
use reqable_mcp.Prelude.Dict.Laws.{get-put}
use reqable_mcp.Json.{Json, bool, str, arr, obj, Items, Fields, of_list}
use reqable_mcp.Values.{or_null, at, or_else, as_dict, iterate}
use reqable_mcp.Install.{InstallPlan, is_our_id, without_ours, set_default, with_entry}

-- the scripts of a configuration, as `uninstall_hook` reads them
unfoldable pub scripts_of : Json → Result (List Json)
scripts_of cap = do
  d ← as_dict cap
  sc ← as_dict (or_else (at d "scriptConfig") (obj Fields.end))
  iterate (or_else (at sc "scripts") (arr Items.nil))

-- those that are not ours
unfoldable pub others_of : Json → Result (List Json)
others_of cap = scripts_of cap >>= without_ours

-- an entry that is ours
abbrev pub IsOurs : Json → Type 0
IsOurs entry = (d : Dict Json) × (as_dict entry ≡ ok d) × (is_our_id (at d "id") ≡ true)

-- scripts of which none is ours
abbrev pub IsOther : Json → Type 0
IsOther s = (d : Dict Json) × (as_dict s ≡ ok d) × (is_our_id (at d "id") ≡ false)

pub without_ours-IsOther : (ss : List Json) → OnOk (All IsOther) (without_ours ss)
unfolding without_ours
without_ours-IsOther [] = tt
without_ours-IsOther (s ∷ ss) =
    OnOk-then (λ d. as_dict s ≡ ok d) (All IsOther) (as_dict s) _ (OnOk-self (as_dict s))
      (λ d e.
        OnOk-then (All IsOther) (All IsOther) (without_ours ss) _ (without_ours-IsOther ss)
          (λ rest all. elim (Bool-cases (is_our_id (at d "id"))) [
            | inl ours ↦ rw ours all
            | inr other ↦ rw other ((d, e, other), all)
          ]))

-- other scripts stay, and our entry behind them goes
pub without_ours-append :
    (others : List Json) (entry : Json)
    → IsOurs entry
    → All IsOther others
    → without_ours (others ++ entry ∷ []) ≡ ok others
unfolding without_ours
without_ours-append [] entry (d, e, ours) all = rw e (rw ours refl)
without_ours-append (s ∷ ss) entry ours ((d, e, other), all) =
    rw e (rw (without_ours-append ss entry ours all) (rw other refl))

-- what is added to a section
pub with_entry-eq :
    (plan : InstallPlan) (sc sc' : Dict Json)
    → with_entry plan sc ≡ ok sc'
    → (others : List Json) × ((iterate (set_default sc "scripts" (arr Items.nil)) >>= without_ours)
        ≡ ok others)
      × (at sc' "scripts" ≡ arr (of_list (others ++ plan.new_script_entry ∷ [])))
unfolding with_entry
with_entry-eq plan sc sc' h =
    let (scripts, i, h₁) = >>=-eq-ok (iterate (set_default sc "scripts" (arr Items.nil))) _ h in
    let (others, o, h₂) = >>=-eq-ok (without_ours scripts) _ h₁ in
    let list = arr (of_list (others ++ plan.new_script_entry ∷ [])) in
    let one = Dict.put sc "scripts" list in
    let two = Dict.put one "isEnabled" (bool true) in
    (
      others,
      rw i o,
      ap (λ d. at d "scripts") (sym (ok-inj _ sc' h₂))
          ∙ ap or_null (
              get-put two "execHome" (str plan.hook_dir) "scripts"
              ∙ get-put one "isEnabled" (bool true) "scripts"
              ∙ get-put sc "scripts" list "scripts"),
    )
