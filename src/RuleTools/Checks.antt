-- ===== src/RuleTools/Checks.antt =====
-- tools/rules.py: the checks that the tools make themselves.
use Prim.Native.Char.{code}
use Prim.Native.String.{count}
use reqable_mcp.Prelude.{
  ℕ, ◌+◌, ◌*◌, ◌/◌, ◌%◌, String, Bool, true, false, not, ◌&&◌, ◌||◌, Option, none, some, List, [],
  ◌∷◌, ltb, ◌==◌, str_eq, if◌then◌else◌,
}
use reqable_mcp.Prelude.Int.{ℤ, pos, ltb_ℤ, leb_ℤ}
use reqable_mcp.Prelude.Result.{Result, ok, err, value_error, unicode_error, ◌>>=◌, ◌>>◌, raise_if}
use reqable_mcp.Prelude.Dict
use reqable_mcp.Prelude.Dict.{Dict}
use reqable_mcp.Json.{Json, int, str, obj, of_dict}
use reqable_mcp.Python.{Python}
use reqable_mcp.RuleTools.{Host, FileState, file}

abbrev pub body_max_bytes : ℕ
body_max_bytes = 64 * 1024

abbrev pub regex_input_max_bytes : ℕ
regex_input_max_bytes = 4 * 1024

-- `_VALID_COLORS`
abbrev pub valid_colors : List String
valid_colors = "red" ∷ "yellow" ∷ "green" ∷ "blue" ∷ "teal" ∷ "strikethrough" ∷ []

-- `_CATCHALL_PATTERNS`
abbrev pub catchall_patterns : List String
catchall_patterns = "" ∷ ".*" ∷ ".+" ∷ ".*?" ∷ ".+?" ∷ "^" ∷ "^.*" ∷ "^.+" ∷ "^.*$" ∷ "^.+$" ∷ []

abbrev pub is_in : String → List String → Bool
is_in k [] = false
is_in k (j ∷ js) = str_eq j k || is_in k js

abbrev colon : ℕ
colon = 58

abbrev dot : ℕ
dot = 46

-- `s.startswith(":")`
unfoldable pub is_pseudo : String → Bool
is_pseudo String.[] = false
is_pseudo (String.◌∷◌ c s) = code c == colon

-- `path.startswith(".")`, and `path.endswith(".") or ".." in path` from a character on
abbrev pub starts_with_dot : String → Bool
starts_with_dot String.[] = false
starts_with_dot (String.◌∷◌ c s) = code c == dot

unfoldable pub has_empty_part : String → Bool
has_empty_part String.[] = false
has_empty_part (String.◌∷◌ c String.[]) = code c == dot
has_empty_part (String.◌∷◌ c (String.◌∷◌ d s)) =
    let rest = has_empty_part (String.◌∷◌ d s) in
    if code c == dot && code d == dot then true else rest

-- `_validate_field_path`
unfoldable pub validate_field_path : String → Result (Unit {0})
unfolding has_empty_part
validate_field_path path = do
  raise_if (str_eq path "") value_error
  raise_if (ltb 256 (count path)) value_error
  raise_if (starts_with_dot path || has_empty_part path) value_error

-- `_is_specified`
abbrev pub is_specified : Option String → Bool
is_specified none = false
is_specified (some s) = not (str_eq s "")

abbrev pub is_catchall : Option String → Bool
is_catchall none = false
is_catchall (some p) = is_in p catchall_patterns

-- the size of a text, where it can be encoded and is within the cap; and with an error that is not
-- caught
unfoldable pub check_size : Option ℕ → Result (Unit {0})
check_size none = err value_error
check_size (some n) = raise_if (ltb body_max_bytes n) value_error

unfoldable pub uncaught : Option ℕ → Result ℕ
uncaught none = err unicode_error
uncaught (some n) = ok n

-- `_VALID_REGEX_FLAGS`, with the values of Python's `re`
abbrev pub valid_regex_flags : Dict ℕ
valid_regex_flags = ("i", 2) ∷ ("m", 8) ∷ ("s", 16) ∷ ("x", 64) ∷ []

-- `flags | flag`, for a flag that is one bit
abbrev pub set_bit : ℕ → ℕ → ℕ
set_bit flags flag = if (flags / flag) % 2 == 1 then flags else flags + flag

abbrev headers_empty : Dict String → Bool
headers_empty [] = true
headers_empty (h ∷ hs) = false

unfoldable pub bad_name : Dict String → Bool
unfolding is_pseudo
bad_name [] = false
bad_name ((name, v) ∷ d) = str_eq name "" || is_pseudo name || bad_name d

abbrev pub header_fields : Dict String → Dict Json
header_fields [] = []
header_fields ((name, v) ∷ d) = (name, str v) ∷ header_fields d

-- the part of `mock_response` on each of its arguments: what it adds to the payload
unfoldable pub mock_status : Option ℤ → Result (Dict Json)
mock_status none = ok []
mock_status (some n) =
    if leb_ℤ (pos 100) n && leb_ℤ n (pos 600) then ok (("status", int n) ∷ []) else err value_error

unfoldable pub mock_headers : Option (Dict String) → Result (Dict Json)
unfolding bad_name
mock_headers none = ok []
mock_headers (some d) =
    if headers_empty d
    then err value_error
    else if bad_name d
    then err value_error
    else ok (("headers", obj (of_dict (header_fields d))) ∷ [])

module _ (py : Python) (host : Host) where
  open host use {utf8_len, encoded, compiles_with, stat_file}

  -- `_coerce_body`
  unfoldable pub coerce_body : Json → Result (Unit {0})
  unfolding check_size
  coerce_body (str s) = check_size (utf8_len s)
  coerce_body (obj fs) = check_size (utf8_len (encoded (obj fs)))
  coerce_body _ = err value_error

  -- `_validate_patch_value`
  unfoldable pub validate_patch_value : Json → Result (Unit {0})
  unfolding check_size
  validate_patch_value v = check_size (utf8_len (encoded v))

  unfoldable pub mock_body : Option Json → Result (Dict Json)
  unfolding coerce_body
  mock_body none = ok []
  mock_body (some b) = do coerce_body b; ok (("body", b) ∷ [])

  -- the loop over the flags
  unfoldable pub flags_of : List String → ℕ → Result ℕ
  flags_of [] flags = ok flags
  flags_of (f ∷ fs) flags = elim (Dict.get valid_regex_flags (py.lower f)) [
    | none ↦ err value_error
    | some flag ↦ flags_of fs (set_bit flags flag)
  ]

  -- `_validate_regex_inputs`; `encode` is called outside a `try`
  unfoldable pub validate_regex_inputs : String → String → ℤ → List String → Result ℕ
  unfolding uncaught flags_of
  validate_regex_inputs pattern replacement count flags = do
    raise_if (str_eq pattern "") value_error
    n ← uncaught (utf8_len pattern)
    m ← uncaught (utf8_len replacement)
    raise_if (ltb regex_input_max_bytes (n + m)) value_error
    raise_if (ltb_ℤ count (pos 0)) value_error
    flags_int ← flags_of flags 0
    raise_if (not (compiles_with pattern flags_int)) value_error
    ok flags_int

  -- the file of `patch_multipart`
  unfoldable pub checked_file : FileState → Result (Dict Json)
  checked_file (file path size) =
      if ltb body_max_bytes size then err value_error else ok (("new_file_path", str path) ∷ [])
  checked_file _ = err value_error

  -- exactly one of the text and the file; `encode` is called outside a `try`
  unfoldable pub part_source : Option String → Option String → Result (Dict Json)
  unfolding uncaught checked_file
  part_source none none = err value_error
  part_source (some t) (some p) = err value_error
  part_source (some t) none = do
    n ← uncaught (utf8_len t)
    raise_if (ltb body_max_bytes n) value_error
    ok (("new_text", str t) ∷ [])
  part_source none (some p) = if str_eq p "" then err value_error else checked_file (stat_file p)
