-- ===== src/Addon/Apply.antt =====
-- hook/template/addons.py: `_apply_rule`, kind by kind. A rule is the dictionary that the daemon sent.
-- Each kind gives whether it applied, and what it leaves; an exception inside counts as not applied.
use Prim.Native.String.{◌++◌ as str_append}
use reqable_mcp.Prelude.{
  ℕ, String, Bool, true, false, ◌&&◌, Option, none, some, [], ◌∷◌, str_eq, if◌then◌else◌,
}
use reqable_mcp.Prelude.Int.{ℤ, pos}
use reqable_mcp.Prelude.Dict
use reqable_mcp.Prelude.Dict.{Dict}
use reqable_mcp.Json.{Json, bool, int, str, obj, to_dict}
use reqable_mcp.WaitQueue.{truthy}
use reqable_mcp.Addon.{Sdk, Runtime, Payload, text, Socket, Message, Flight}
use reqable_mcp.Addon.Body.{
  text_only, extract_from_json_body, patch_json_body, regex_replace_body, patch_multipart_part,
}
use reqable_mcp.Addon.Client.{store_relay, get_relay, report_dry_run}

-- `_HIGHLIGHTS`
abbrev pub highlights : Dict ℕ
highlights =
    ("none", 0)
    ∷ ("red", 1)
    ∷ ("yellow", 2)
    ∷ ("green", 3)
    ∷ ("blue", 4)
    ∷ ("teal", 5)
    ∷ ("strikethrough", 6)
    ∷ []

-- `rule.get(key)`, if it is a text, or an int
abbrev pub text_at : Dict Json → String → Option String
text_at rule key = text_only (Dict.get rule key)

abbrev pub int_value : Option Json → Option ℤ
int_value (some (int n)) = some n
int_value (some (bool b)) = some (pos (if b then 1 else 0))
int_value _ = none

-- `x if isinstance(x, int) else default`, for a key that may be missing
abbrev pub int_or : Dict Json → String → ℤ → ℤ
int_or rule key default = elim (int_value (Dict.get rule key)) [ none ↦ default | some n ↦ n ]

-- `rule.get(key, "")`, if it is a text
abbrev pub text_or_empty : Option Json → Option String
text_or_empty none = some ""
text_or_empty v = text_only v

module _ (sdk : Sdk) (rt : Runtime) {D : Type 0} (socket : Socket D) where
  open sdk use {header, set_header, takes_code, of_dict}

  abbrev pub Applied : Type 0
  Applied = Bool × Flight sdk D

  abbrev pub with_msg : Flight sdk D → Message sdk → Flight sdk D
  with_msg f m = record f { msg = m }

  abbrev pub with_body : Flight sdk D → Bool × Payload sdk.Part → Applied
  with_body f (done, b) = (done, with_msg f (record f.msg { body = b }))

  abbrev pub colored : Option ℕ → Flight sdk D → Applied
  colored none f = (false, f)
  colored (some n) f = (true, record f { context = record f.context { highlight = n } })

  unfoldable pub apply_tag : Dict Json → Flight sdk D → Applied
  apply_tag rule f = elim (text_at rule "color") [
    | none ↦ (false, f)
    | some color ↦ colored (Dict.get highlights color) f
  ]

  unfoldable pub apply_comment : Dict Json → Flight sdk D → Applied
  apply_comment rule f = elim (text_at rule "text") [
    | none ↦ (false, f)
    | some t ↦ (true, record f { context = record f.context { comment = some t } })
  ]

  abbrev pub put_header : Option String → Option String → Flight sdk D → Applied
  put_header (some name) (some value) f =
      (true, with_msg f (record f.msg { headers = set_header name value f.msg.headers }))
  put_header _ _ f = (false, f)

  unfoldable pub apply_inject_header : Dict Json → Flight sdk D → Applied
  apply_inject_header rule f = put_header (text_at rule "name") (text_at rule "value") f

  abbrev pub patch_field : Option String → Option Json → Flight sdk D → Applied
  patch_field (some path) (some value) f = with_body f (patch_json_body rt f.msg.body path value)
  patch_field _ _ f = (false, f)

  unfoldable pub apply_patch_field : Dict Json → Flight sdk D → Applied
  apply_patch_field rule f = patch_field (text_at rule "field_path") (Dict.get rule "value") f

  abbrev pub substitute : Option String → Option String → ℤ → ℤ → Flight sdk D → Applied
  substitute (some pattern) (some replacement) count flags f =
      with_body f (regex_replace_body rt f.msg.body pattern replacement count flags)
  substitute _ _ count flags f = (false, f)

  unfoldable pub apply_regex_replace : Dict Json → Flight sdk D → Applied
  apply_regex_replace rule f =
      substitute (text_at rule "pattern") (text_or_empty (Dict.get rule "replacement"))
        (int_or rule "count" (pos 0)) (int_or rule "flags" (pos 0)) f

  unfoldable pub apply_patch_multipart : Dict Json → Flight sdk D → Applied
  apply_patch_multipart rule f = elim (text_at rule "part_name") [
    | none ↦ (false, f)
    | some name ↦ with_body f (
        patch_multipart_part sdk f.msg.body name (text_at rule "new_text")
          (text_at rule "new_file_path"))
  ]

  -- `msg.body = ...` with a text or a dictionary
  abbrev pub new_body : Option Json → Option (Payload sdk.Part)
  new_body (some (str s)) = some (text s)
  new_body (some (obj fs)) = some (text (of_dict fs))
  new_body _ = none

  abbrev pub set_body : Option (Payload sdk.Part) → Flight sdk D → Applied
  set_body none f = (false, f)
  set_body (some b) f = with_body f (true, b)

  unfoldable pub apply_replace_body : Dict Json → Flight sdk D → Applied
  apply_replace_body rule f = set_body (new_body (Dict.get rule "body")) f

  -- the loop over `headers`
  unfoldable pub set_headers : Dict Json → sdk.Headers → sdk.Headers
  set_headers [] h = h
  set_headers ((name, str value) ∷ d) h = set_headers d (set_header name value h)
  set_headers ((name, v) ∷ d) h = set_headers d h

  -- `(rule.get("headers") or {}).items()`, which raises on a value that counts as true and is no object
  unfoldable pub headers_of : Option Json → Option (Dict Json)
  headers_of none = some []
  headers_of (some (obj fs)) = some (to_dict fs)
  headers_of (some v) = if truthy (some v) then none else some []

  abbrev pub mock_body : Option (Payload sdk.Part) → Message sdk → Message sdk
  mock_body none m = m
  mock_body (some b) m = record m { body = b }

  abbrev pub mock_rest : Dict Json → Option (Dict Json) → Flight sdk D → Applied
  mock_rest rule none f = (false, f)
  mock_rest rule (some d) f = (
    true,
    with_msg f (
        mock_body (new_body (Dict.get rule "body"))
          (record f.msg { headers = set_headers d f.msg.headers })),
  )

  -- the setter of the code raises on a code that it does not take
  unfoldable pub apply_mock : Dict Json → Flight sdk D → Applied
  unfolding set_headers headers_of
  apply_mock rule f = elim (int_value (Dict.get rule "status")) [
    | none ↦ mock_rest rule (headers_of (Dict.get rule "headers")) f
    | some status ↦
        if takes_code status
        then mock_rest rule (headers_of (Dict.get rule "headers"))
            (with_msg f (record f.msg { code = some status }))
        else (false, f)
  ]

  -- `_extract_from_header`
  unfoldable pub extract_from_header : sdk.Headers → String → Option String
  extract_from_header h field = if str_eq field "" then none else header h field

  unfoldable pub extracted : Option String → String → Flight sdk D → Option String
  unfolding extract_from_header
  extracted none field f = none
  extracted (some loc) field f =
      if str_eq loc "header"
      then extract_from_header f.msg.headers field
      else if str_eq loc "json_body"
      then extract_from_json_body rt f.msg.body field
      else none

  abbrev pub store : Option String → Option String → ℤ → Flight sdk D → Applied
  store (some name) (some value) ttl f =
      let (done, d) = store_relay socket name value ttl f.daemon in (done, record f { daemon = d })
  store _ _ ttl f = (false, f)

  unfoldable pub extract_at : Option String → Dict Json → Flight sdk D → Applied
  unfolding extracted
  extract_at none rule f = (false, f)
  extract_at (some field) rule f =
      store (text_at rule "name") (extracted (text_at rule "source_loc") field f)
        (int_or rule "ttl_seconds" (pos 300)) f

  unfoldable pub apply_relay_extract : Dict Json → Flight sdk D → Applied
  unfolding extract_at
  apply_relay_extract rule f = extract_at (text_at rule "source_field") rule f

  -- `value_prefix + value`, if the prefix is a text
  abbrev pub prefixed : Option String → String → String
  prefixed none value = value
  prefixed (some p) value = str_append p value

  abbrev pub inject : Option String → String → Option String → Flight sdk D → Applied
  inject prefix target none f = (false, f)
  inject prefix target (some value) f = (
    true,
    with_msg f (record f.msg { headers = set_header target (prefixed prefix value) f.msg.headers }),
  )

  abbrev pub fetch_and_inject :
      Option String → Option String → Option String → Flight sdk D → Applied
  fetch_and_inject (some name) (some target) prefix f =
      let (value, d) = get_relay socket name f.daemon in
      inject prefix target value (record f { daemon = d })
  fetch_and_inject _ _ prefix f = (false, f)

  unfoldable pub apply_relay_inject : Dict Json → Flight sdk D → Applied
  apply_relay_inject rule f =
      fetch_and_inject (text_at rule "name") (text_at rule "target_header")
        (text_or_empty (Dict.get rule "value_prefix")) f

  -- the chain of tests on the kind
  unfoldable pub apply_kind : String → String → Dict Json → Flight sdk D → Applied
  apply_kind kind side rule f =
      if str_eq kind "tag"
      then apply_tag rule f
      else if str_eq kind "comment"
      then apply_comment rule f
      else if str_eq kind "inject_header"
      then apply_inject_header rule f
      else if str_eq kind "patch_field"
      then apply_patch_field rule f
      else if str_eq kind "regex_replace"
      then apply_regex_replace rule f
      else if str_eq kind "patch_multipart"
      then apply_patch_multipart rule f
      else if str_eq kind "replace_body"
      then apply_replace_body rule f
      else if str_eq kind "mock" && str_eq side "response"
      then apply_mock rule f
      else if str_eq kind "relay_extract" && str_eq side "response"
      then apply_relay_extract rule f
      else if str_eq kind "relay_inject" && str_eq side "request"
      then apply_relay_inject rule f
      else (false, f)

  abbrev pub apply_if_kind : Option String → String → Dict Json → Flight sdk D → Applied
  apply_if_kind none side rule f = (false, f)
  apply_if_kind (some kind) side rule f = apply_kind kind side rule f

  unfoldable pub apply_rule : String → Dict Json → Flight sdk D → Applied
  apply_rule side rule f =
      if truthy (Dict.get rule "dry_run")
      then (true, report_dry_run socket sdk (text_at rule "id") side f)
      else apply_if_kind (text_at rule "kind") side rule f
