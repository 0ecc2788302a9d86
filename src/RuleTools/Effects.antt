-- ===== src/RuleTools/Effects.antt =====
-- What the rules of the tools do in the hook.
use reqable_mcp.Prelude.{ℕ, String, ◌≡◌, false, Option, none, some, str_eq, if◌then◌else◌}
use reqable_mcp.Prelude.Int.{ℤ}
use reqable_mcp.Prelude.Dict
use reqable_mcp.Json.{Json, str}
use reqable_mcp.Python.{Python}
use reqable_mcp.Rules.{to_addon_payload}
use reqable_mcp.Rules.Engine.{Engine, Spec}
use reqable_mcp.Rules.Adding.{made}
use reqable_mcp.Addon.{Sdk, Runtime, Socket, Flight, text}
use reqable_mcp.Addon.Body.{patch_json_body, patch_multipart_part}
use reqable_mcp.Addon.Apply.{apply_rule}
use reqable_mcp.RuleTools.{
  Host, Filters, Tool, tag_pattern, comment_pattern, inject_header, replace_body, patch_body_field,
  patch_multipart,
}

-- `HIGHLIGHT_` of the SDK for a color
abbrev pub number_of_color : String → Option ℕ
number_of_color color =
    if str_eq "red" color
    then some 1
    else if str_eq "yellow" color
    then some 2
    else if str_eq "green" color
    then some 3
    else if str_eq "blue" color
    then some 4
    else if str_eq "teal" color
    then some 5
    else if str_eq "strikethrough" color
    then some 6
    else none

module _ (sdk : Sdk) (rt : Runtime) {D : Type 0} (socket : Socket D) where
  -- What a tool asks for on a message: the color, the comment, the header, the new body, the value at the
  -- path of the body, the new text of the part.
  pub data Asks (f : Flight sdk D) : Tool → Flight sdk D → Type 0 where
    tags :
        (color : String) (n : ℕ) (lo hi : Option ℤ) (fl : Filters)
        → number_of_color color ≡ some n
        → Asks f
            (tag_pattern color lo hi fl)
            (record f { context = record f.context { highlight = n } })
    comments :
        (t : String) (lo hi : Option ℤ) (fl : Filters)
        → Asks f
            (comment_pattern t lo hi fl)
            (record f { context = record f.context { comment = some t } })
    injects :
        (name value side : String) (fl : Filters)
        → Asks f
            (inject_header name value side fl)
            (record f { msg = record f.msg { headers = sdk.set_header name value f.msg.headers } })
    rewrites :
        (s side : String) (fl : Filters)
        → Asks f (replace_body (str s) side fl) (record f { msg = record f.msg { body = text s } })
    patches :
        (path side : String) (value : Json) (fl : Filters)
        → Asks f (patch_body_field path value side fl) (record f {
          msg = record f.msg { body = (patch_json_body rt f.msg.body path value).1 };
        })
    edits :
        (name t side : String) (fl : Filters)
        → Asks f (patch_multipart name (some t) none side fl) (record f {
          msg = record f.msg { body = (patch_multipart_part sdk f.msg.body name (some t) none).1 };
        })

  module _ (py : Python) (host : Host) (uuid : String) (now later : ℕ) where
    -- What the rule that `add` makes of its arguments does to a message in the hook, on either side.
    abbrev Shown : Flight sdk D → Spec → Flight sdk D → Type 0
    Shown f a g =
        (on : String)
        → a.dry_run ≡ false
        → (apply_rule sdk rt socket on (to_addon_payload (made py a uuid now later)) f).1 ≡ g
