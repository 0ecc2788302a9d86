-- ===== src/Install/Stripping.antt =====
-- Taking out the entry that was added leaves the scripts of the others.
use reqable_mcp.Prelude.{
  ℕ, ◌+◌, ◌≡◌, refl, sym, ap, ◌∙◌, false, Option, none, some, List, [], ◌∷◌, ◌++◌, length, str_eq,
  eq_iff, arith, if◌then◌else◌, Bool-cases, inl, inr, ◌==◌, length-append, All,
}
use reqable_mcp.Prelude.Result.{OnOk-elim, ok, >>=-eq-ok, ok-inj}
use reqable_mcp.Prelude.Dict
use reqable_mcp.Prelude.Dict.{Dict}
use reqable_mcp.Prelude.Dict.Laws.{get-put}
use reqable_mcp.Json.{
  to_dict-of_dict, to_list-of_list, Json, bool, str, arr, obj, Items, Fields, to_dict, of_dict,
  to_list, of_list,
}
use reqable_mcp.WaitQueue.{truthy}
use reqable_mcp.Values.{or_null, at, or_else, as_dict, iterate}
use reqable_mcp.Install.{InstallPlan, without_ours, set_default, no_scripts, with_entry, add_entry}
use reqable_mcp.Install.Undoing.{strip_section, strip_entry}
use reqable_mcp.Install.Entries.{
  scripts_of, others_of, IsOurs, IsOther, without_ours-IsOther, without_ours-append, with_entry-eq,
}

as_dict-or_else : (fs : Fields) → as_dict (or_else (obj fs) (obj Fields.end)) ≡ ok (to_dict fs)
unfolding as_dict truthy
as_dict-or_else Fields.end = refl
as_dict-or_else (Fields.field k v fs) = refl

iterate-or_else : (vs : Items) → iterate (or_else (arr vs) (arr Items.nil)) ≡ ok (to_list vs)
unfolding iterate truthy
iterate-or_else Items.nil = refl
iterate-or_else (Items.cons v vs) = refl

-- the section of a configuration that was put together again
section_of :
    (d sc : Dict Json)
    → as_dict (
        or_else
          (at (to_dict (of_dict (Dict.put d "scriptConfig" (obj (of_dict sc))))) "scriptConfig")
          (obj Fields.end))
      ≡ ok sc
section_of d sc =
    ap (λ e. as_dict (or_else (at e "scriptConfig") (obj Fields.end)))
      (to_dict-of_dict (Dict.put d "scriptConfig" (obj (of_dict sc))))
    ∙ ap (λ o. as_dict (or_else (or_null o) (obj Fields.end)))
        (get-put d "scriptConfig" (obj (of_dict sc)) "scriptConfig")
    ∙ as_dict-or_else (of_dict sc)
    ∙ ap ok (to_dict-of_dict sc)

listed :
    (sc : Dict Json) (vs : List Json)
    → at sc "scripts" ≡ arr (of_list vs)
    → iterate (or_else (at sc "scripts") (arr Items.nil)) ≡ ok vs
listed sc vs h =
    ap (λ x. iterate (or_else x (arr Items.nil))) h
    ∙ iterate-or_else (of_list vs)
    ∙ ap ok (to_list-of_list vs)

scripts_of-put :
    (d sc : Dict Json) (vs : List Json)
    → at sc "scripts" ≡ arr (of_list vs)
    → scripts_of (obj (of_dict (Dict.put d "scriptConfig" (obj (of_dict sc))))) ≡ ok vs
unfolding scripts_of as_dict
scripts_of-put d sc vs h = rw (section_of d sc) (listed sc vs h)

-- the scripts that are there, read with a default or with `or`
iterate-default :
    (o : Option Json) (ss : List Json)
    → iterate (elim o [ none ↦ arr Items.nil | some w ↦ w ]) ≡ ok ss
    → iterate (or_else (or_null o) (arr Items.nil)) ≡ ok ss
unfolding iterate truthy
iterate-default none ss h = h
iterate-default (some (arr vs)) ss h = iterate-or_else vs ∙ h
iterate-default (some (str s)) ss h = elim (Bool-cases (str_eq s "")) [
  | inl e ↦ rw e (sym (ap (λ t. iterate (str t)) ((eq_iff s "").0 e)) ∙ h)
  | inr e ↦ rw e h
]
iterate-default (some (obj Fields.end)) ss h = h
iterate-default (some (obj (Fields.field k v fs))) ss h = h
iterate-default (some v) ss h = absurd (cc)

-- and the section that is there
section-default :
    (o : Option Json) (sc : Dict Json)
    → as_dict (elim o [ none ↦ no_scripts | some w ↦ w ]) ≡ ok sc
    → (sc₂ : Dict Json) × (as_dict (or_else (or_null o) (obj Fields.end)) ≡ ok sc₂)
      × (iterate (or_else (at sc₂ "scripts") (arr Items.nil))
          ≡ iterate (or_else (at sc "scripts") (arr Items.nil)))
unfolding as_dict truthy Dict.get
section-default none sc h =
    ([], refl, ap (λ d. iterate (or_else (at d "scripts") (arr Items.nil))) (ok-inj _ sc h))
section-default (some (obj fs)) sc h = (
  to_dict fs,
  as_dict-or_else fs,
  ap (λ d. iterate (or_else (at d "scripts") (arr Items.nil))) (ok-inj _ sc h),
)
section-default (some v) sc h = absurd (cc)

one_more : (n : ℕ) → (n == n + 1) ≡ false
one_more n = ground arith

-- the section without the entry
strip_section-eq :
    (sc : Dict Json) (others : List Json) (entry : Json)
    → at sc "scripts" ≡ arr (of_list (others ++ entry ∷ []))
    → IsOurs entry
    → All IsOther others
    → (sc' : Dict Json) × (strip_section sc ≡ ok (some sc'))
      × (at sc' "scripts" ≡ arr (of_list others))
unfolding strip_section
strip_section-eq sc others entry h ours all =
    let list = arr (of_list others) in
    let one = Dict.put sc "scripts" list in
    let two = Dict.put one "isEnabled" (bool false) in
    let longer : (length others == length (others ++ entry ∷ [])) ≡ false =
      ap (λ n. length others == n) (length-append others (entry ∷ [])) ∙ one_more (length others) in
    let at_one : at one "scripts" ≡ list = ap or_null (get-put sc "scripts" list "scripts") in
    let at_three : at (Dict.put two "execHome" (str "")) "scripts" ≡ list =
      ap or_null
        (get-put two "execHome" (str "") "scripts" ∙ get-put one "isEnabled" (bool false) "scripts")
      ∙ at_one in
    (
      if length others == 0 then Dict.put two "execHome" (str "") else one,
      rw (listed sc (others ++ entry ∷ []) h)
          (rw (without_ours-append others entry ours all) (rw longer refl)),
      elim (Bool-cases (length others == 0)) [ inl e ↦ rw e at_three | inr e ↦ rw e at_one ],
    )

-- the configuration that was put together, without the entry
strip_built :
    (d sc : Dict Json) (others : List Json) (entry : Json)
    → at sc "scripts" ≡ arr (of_list (others ++ entry ∷ []))
    → IsOurs entry
    → All IsOther others
    → (stripped : Json) × (strip_entry
          (obj (of_dict (Dict.put d "scriptConfig" (obj (of_dict sc)))))
        ≡ ok (some stripped))
      × (scripts_of stripped ≡ ok others)
unfolding strip_entry as_dict
strip_built d sc others entry h ours all =
    let (sc', removed, left) = strip_section-eq sc others entry h ours all in
    let whole = to_dict (of_dict (Dict.put d "scriptConfig" (obj (of_dict sc)))) in
    (
      obj (of_dict (Dict.put whole "scriptConfig" (obj (of_dict sc')))),
      rw (section_of d sc) (rw removed refl),
      scripts_of-put whole sc' others left,
    )

-- Taking the entry out again: after an entry of ours was added to a configuration, there is one to take
-- out, and the scripts are then those of the first configuration that are not ours, in their order.
pub strip_entry-add_entry :
    (plan : InstallPlan) (config config' : Json)
    → IsOurs plan.new_script_entry
    → add_entry plan config ≡ ok config'
    → (others : List Json) × (others_of config ≡ ok others)
      × ((stripped : Json) × (strip_entry config' ≡ ok (some stripped))
          × (scripts_of stripped ≡ ok others))
unfolding add_entry others_of scripts_of
strip_entry-add_entry plan config config' ours h =
    let (d, is_dict, h₁) = >>=-eq-ok (as_dict config) _ h in
    let (sc, section, h₂) = >>=-eq-ok (as_dict (set_default d "scriptConfig" no_scripts)) _ h₁ in
    let (sc', added, h₃) = >>=-eq-ok (with_entry plan sc) _ h₂ in
    let made = sym (ok-inj _ config' h₃) in
    let (others, kept, listed_all) = with_entry-eq plan sc sc' added in
    let (ss, read, without) =
      >>=-eq-ok (iterate (set_default sc "scripts" (arr Items.nil))) without_ours kept in
    let all = OnOk-elim (All IsOther) _ others (without_ours-IsOther ss) without in
    let (sc₂, section₂, same) = section-default (Dict.get d "scriptConfig") sc section in
    let there = same ∙ iterate-default (Dict.get sc "scripts") ss read in
    (
      others,
      rw is_dict (rw section₂ (rw there without)),
      let (stripped, removed, left) =
            strip_built d sc' others plan.new_script_entry listed_all ours all in
          (stripped, ap strip_entry made ∙ removed, left),
    )
