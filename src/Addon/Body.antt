-- ===== src/Addon/Body.antt =====
-- hook/template/addons.py: the helpers that read and rewrite a body. Each gives whether it applied, and
-- the body as it leaves it.
use reqable_mcp.Prelude.{
  ℕ, zero, suc, String, Bool, true, false, Option, none, some, List, [], ◌∷◌, str_eq, if◌then◌else◌,
}
use reqable_mcp.Prelude.Int.{ℤ}
use reqable_mcp.Json.{Json, str, arr, obj}
use reqable_mcp.Addon.{Sdk, Runtime, Payload, text, parsed, parts}
use reqable_mcp.Addon.Path.{split_dots, set_at, walk, patch}

-- a document that is walked: a dictionary or a list
abbrev pub container : Option Json → Option Json
container (some (obj fs)) = some (obj fs)
container (some (arr xs)) = some (arr xs)
container _ = none

abbrev pub text_only : Option Json → Option String
text_only (some (str s)) = some s
text_only _ = none

module _ (rt : Runtime) {P : Type 0} where
  open rt use {loads, dumps, subn}

  unfoldable pub document : Payload P → Option Json
  document (text raw) = container (loads raw)
  document (parsed fs) = some (obj fs)
  document _ = none

  -- `_extract_from_json_body`
  unfoldable pub extract_from_json_body : Payload P → String → Option String
  unfolding document
  extract_from_json_body body dotted_path =
      if str_eq dotted_path "" then none else elim (document body) [
        | none ↦ none
        | some doc ↦ text_only (walk rt (split_dots dotted_path) doc)
      ]

  -- The body that the walk leaves: a parsed one is changed in place even where the walk fails, and a
  -- text is replaced only where it succeeds.
  unfoldable pub write_back : Payload P → Bool × Json → Bool × Payload P
  write_back (parsed fs) (done, obj gs) = (done, parsed gs)
  write_back body (true, doc) = (true, text (dumps doc))
  write_back body (false, doc) = (false, body)

  -- `_patch_json_body`
  unfoldable pub patch_json_body : Payload P → String → Json → Bool × Payload P
  unfolding document write_back
  patch_json_body body dotted_path value =
      if str_eq dotted_path "" then (false, body) else elim (document body) [
        | none ↦ (false, body)
        | some doc ↦ write_back body (patch rt (split_dots dotted_path) doc value)
      ]

  -- the text that `re.subn` runs on
  abbrev pub subject : Payload P → Option String
  subject (text raw) = some raw
  subject (parsed fs) = some (dumps (obj fs))
  subject _ = none

  abbrev pub replaced : Payload P → Option (String × ℕ) → Bool × Payload P
  replaced body none = (false, body)
  replaced body (some (s, zero)) = (false, body)
  replaced body (some (s, suc n)) = (true, text s)

  -- `_regex_replace_body`
  unfoldable pub regex_replace_body : Payload P → String → String → ℤ → ℤ → Bool × Payload P
  regex_replace_body body pattern replacement count flags = elim (subject body) [
    | none ↦ (false, body)
    | some s ↦ replaced body (subn pattern replacement s count flags)
  ]

module _ (sdk : Sdk) where
  open sdk use {Part, part_name, text_part, file_part}

  abbrev pub is_named : String → Option String → Bool
  is_named name none = false
  is_named name (some n) = str_eq n name

  -- the loop that looks for the part
  unfoldable pub find_part : String → List Part → Option ℕ
  find_part name [] = none
  find_part name (p ∷ ps) =
      let rest = find_part name ps in
      if is_named name (part_name p)
      then some 0
      else elim rest [ none ↦ none | some i ↦ some (suc i) ]

  unfoldable pub build_part : String → Option String → Option String → Option Part
  build_part name (some new_text) path = text_part new_text name
  build_part name none (some path) = if str_eq path "" then none else file_part path name
  build_part name none none = none

  abbrev pub replace_part : List Part → Option ℕ → Option Part → Bool × Payload Part
  replace_part ps (some i) (some p) = (true, parts (set_at ps i p))
  replace_part ps _ _ = (false, parts ps)

  -- `_patch_multipart_part`
  unfoldable pub patch_multipart_part :
      Payload Part → String → Option String → Option String → Bool × Payload Part
  unfolding find_part build_part
  patch_multipart_part (parts ps) name new_text new_file_path =
      if str_eq name ""
      then (false, parts ps)
      else replace_part ps (find_part name ps) (build_part name new_text new_file_path)
  patch_multipart_part body name new_text new_file_path = (false, body)
