-- ===== src/Replay/Tests.antt =====
-- Headers that are merged, and the theorem at a concrete input.
use reqable_mcp.Prelude.{String, ◌≡◌, refl, true, none, some, List, [], ◌∷◌, str_eq, if◌then◌else◌}
use reqable_mcp.Prelude.Dict
use reqable_mcp.Json.{null, arr, str, Items}
use reqable_mcp.Python.{Python}
use reqable_mcp.Values
use reqable_mcp.Values.{Text}
use reqable_mcp.Replay.{merge_headers, coerce_body, body, no_body, invalid, bracketed}

abbrev py : Python
py = record {
  lower = λ s. if str_eq s "Host" then "host" else if str_eq s "Accept" then "accept" else s;
  upper = λ s. s;
  compiles = λ p. true;
  search = λ p s. true;
  dumps = λ j. "";
  loads = λ s. none;
}

abbrev text : Text
text = record { format = λ j. ""; parse_int = λ s. none; strip = λ s. s }

abbrev captured : List String
captured = "Host:h" ∷ ":method:GET" ∷ "content-length:3" ∷ "cookie:c" ∷ "broken" ∷ []

merged :
    merge_headers py text captured (("Accept", "a") ∷ ("cookie", "") ∷ ("content-length", "9") ∷ [])
    ≡ ("Host", "h") ∷ ("Accept", "a") ∷ []
unfolding merge_headers Dict.remove Dict.put Values.split_header Dict.get
merged = refl

bodies :
    (coerce_body py (λ s. some (1 ∷ [])) null ≡ no_body)
    × (coerce_body py (λ s. some (1 ∷ [])) (str "a") ≡ body (1 ∷ []) none)
    × (coerce_body py (λ s. some (1 ∷ [])) (arr Items.nil) ≡ invalid)
unfolding coerce_body
bodies = (refl, refl, refl)

brackets : (bracketed "::1" ≡ "[::1]") × (bracketed "[::1]" ≡ "[::1]") × (bracketed "h" ≡ "h")
unfolding bracketed Values.has_colon Values.join
brackets = (refl, refl, refl)
