-- ===== src/Query.antt =====
-- tools/query.py: the command of `to_curl`, as the parts that it joins, and the comparison of two captures.
-- Header lists are lists of texts, as the code declares them.
pub mod Quoting
mod Tests
use reqable_mcp.Prelude.{
  String, Bool, true, false, not, ◌&&◌, ◌||◌, Option, none, some, List, [], ◌∷◌, ◌++◌, map, str_eq,
  if◌then◌else◌, filter, is_some,
}
use reqable_mcp.Prelude.Dict
use reqable_mcp.Prelude.Dict.{Dict}
use reqable_mcp.Json.{Json}
use reqable_mcp.FlatBuffers.{Bytes}
use reqable_mcp.Python.{Python}
use reqable_mcp.Values.{Text, at, starts_colon, before_colon, after_colon}
use reqable_mcp.WaitQueue.{Capture}

-- `_drop_internal_keys`
unfoldable pub drop_internal_keys : Capture → Capture
drop_internal_keys row = Dict.remove (Dict.remove (Dict.remove row "ob_id") "source") "raw_summary"

abbrev pub is_quote : String → Bool
is_quote s = str_eq s "'"

-- `s + t`
unfoldable pub append : String → String → String
append String.[] t = t
append (String.◌∷◌ c s) t = String.◌∷◌ c (append s t)

-- `s.replace("'", "'\\''")`
unfoldable pub escaped : String → String
unfolding append
escaped String.[] = String.[]
escaped (String.◌∷◌ c s) =
    let rest = escaped s in
    if is_quote (String.◌∷◌ c String.[]) then append "'\\''" rest else String.◌∷◌ c rest

-- `f"'{esc}'"`
unfoldable pub quoted : String → String
unfolding escaped append
quoted s = append "'" (append (escaped s) "'")

-- the `-H` parts
unfoldable pub header_parts : List String → List String
unfolding quoted
header_parts [] = []
header_parts (h ∷ hs) =
    let rest = header_parts hs in if starts_colon h then rest else append "-H " (quoted h) ∷ rest

-- the part of the body: `decode` is the decoding of UTF-8, and `none` what it refuses
unfoldable pub body_parts : (Bytes → Option String) → Option Bytes → List String
unfolding quoted
body_parts decode none = []
body_parts decode (some []) = []
body_parts decode (some (b ∷ bs)) = elim (decode (b ∷ bs)) [
  | none ↦ "# binary body omitted — fetch via get_request(uid)" ∷ []
  | some s ↦ append "--data-raw " (quoted s) ∷ []
]

-- the parts of `to_curl`, from the method, the URL, the headers and the body
unfoldable pub curl_parts :
    (Bytes → Option String) → String → String → List String → Option Bytes → List String
unfolding header_parts body_parts
curl_parts decode method url headers payload =
    append "curl --noproxy '*' -X " method ∷ []
    ++ header_parts headers
    ++ body_parts decode payload
    ++ quoted url ∷ []

-- `sep.join(parts)`
unfoldable pub join_with : String → List String → String
unfolding append
join_with sep [] = ""
join_with sep (p ∷ []) = p
join_with sep (p ∷ parts) = append p (append sep (join_with sep parts))

abbrev pub separator : Bool → String
separator true = " \\\n  "
separator false = " "

unfoldable pub to_curl :
    (Bytes → Option String) → String → String → List String → Option Bytes → Bool → String
unfolding curl_parts join_with
to_curl decode method url headers payload multiline =
    join_with (separator multiline) (curl_parts decode method url headers payload)

module _ (py : Python) (t : Text) where
  -- the loop of `_headers_dict`
  unfoldable pub headers_each : List String → Dict String → Dict String
  headers_each [] out = out
  headers_each (h ∷ hs) out = headers_each hs (
      if str_eq (before_colon h) ""
      then out
      else Dict.put out (py.lower (t.strip (before_colon h))) (t.strip (after_colon h)))

  unfoldable pub headers_dict : List String → Dict String
  unfolding headers_each
  headers_dict headers = headers_each headers []

-- the names of one dictionary that another has not
unfoldable pub only : Dict String → Dict String → List String
only a b = filter (λ k. not (is_some (Dict.get b k))) (Dict.keys a)
