-- ===== src/Query/Tests.antt =====
-- Commands that are built, and the theorem at a concrete input.
use reqable_mcp.Prelude.{◌≡◌, refl, false, none, some, [], ◌∷◌}
use reqable_mcp.Values
use reqable_mcp.Query.{quoted, append, to_curl, curl_parts}
use reqable_mcp.Query.Quoting.{outside, read_word, space, read_word-quoted}

built :
    to_curl
      (λ bytes. some "it's")
      "POST"
      "http://h/"
      (":method: POST" ∷ "A: b" ∷ [])
      (some (1 ∷ []))
      false
    ≡ "curl --noproxy '*' -X POST -H 'A: b' --data-raw 'it'\\''s' 'http://h/'"
unfolding to_curl Values.starts_colon
built = refl

-- the method stands without quotes, and so it is not one word if it holds a blank
split_method :
    curl_parts (λ bytes. none) "GET /x; y" "u" [] none
    ≡ "curl --noproxy '*' -X GET /x; y" ∷ "'u'" ∷ []
unfolding curl_parts
split_method = refl

read_word-quoted_example :
    read_word outside (append (quoted "it's") (append " " "x")) ≡ some ("it's", append " " "x")
read_word-quoted_example = read_word-quoted "it's" (append " " "x") (space "x")
