-- ===== src/Values.antt =====
-- What the tools do with values that came from JSON: `d.get(k)`, `x or y`, `int(x)`, the parts of a
-- header line. What Python's texts give is a parameter: `str()` of a value, `int()` of a text, `strip`.
use Prim.Native.String.{◌++◌ as str_append}
use reqable_mcp.Prelude.{
  ℕ, zero, suc, ◌/◌, String, Bool, true, false, not, ◌||◌, Option, none, some, List, [], ◌∷◌,
  str_eq, if◌then◌else◌,
}
use reqable_mcp.Prelude.Int.{ℤ, pos, negsuc}
use reqable_mcp.Prelude.Result.{Result, ok, err, type_error, attribute_error}
use reqable_mcp.Prelude.Dict
use reqable_mcp.Prelude.Dict.{Dict}
use reqable_mcp.Json.{Json, null, bool, int, float, str, arr, obj, to_dict, to_list}
use reqable_mcp.WaitQueue.{truthy}

pub record Text : Type 0 where
  pub format : Json → String
  pub parse_int : String → Option ℤ
  pub strip : String → String

abbrev pub or_null : Option Json → Json
or_null none = null
or_null (some v) = v

-- `d.get(k)`: None where the key is missing or holds null
abbrev pub at : Dict Json → String → Json
at d k = or_null (Dict.get d k)

abbrev pub is_true : Json → Bool
is_true x = truthy (some x)

-- `x is None`
abbrev pub is_null : Json → Bool
is_null null = true
is_null _ = false

-- `x or y`
abbrev pub or_else : Json → Json → Json
or_else x y = if is_true x then x else y

-- a value whose `.get` is called
unfoldable pub as_dict : Json → Result (Dict Json)
as_dict (obj fs) = ok (to_dict fs)
as_dict _ = err attribute_error

-- `x or {}`, whose `.get` is called
unfoldable pub section : Json → Result (Dict Json)
unfolding as_dict
section x = if is_true x then as_dict x else ok []

abbrev characters : String → List Json
characters String.[] = []
characters (String.◌∷◌ c s) = str (String.◌∷◌ c String.[]) ∷ characters s

abbrev texts : List String → List Json
texts [] = []
texts (s ∷ ss) = str s ∷ texts ss

-- what a `for` loop runs over
unfoldable pub iterate : Json → Result (List Json)
iterate (arr vs) = ok (to_list vs)
iterate (str s) = ok (characters s)
iterate (obj fs) = ok (texts (Dict.keys (to_dict fs)))
iterate _ = err type_error

-- `int(x)`, where a `TypeError` or a `ValueError` is `none`
unfoldable pub to_int : Text → Json → Option ℤ
to_int t (bool b) = some (pos (if b then 1 else 0))
to_int t (int n) = some n
to_int t (float (pos n)) = some (pos (n / 1_000_000))
to_int t (float (negsuc n)) = elim (suc n / 1_000_000) [
  | zero ↦ some (pos zero)
  | suc m ↦ some (negsuc m)
]
to_int t (str s) = t.parse_int s
to_int t _ = none

abbrev is_colon : String → Bool
is_colon s = str_eq s ":"

-- `h.partition(":")`, without the separator
unfoldable pub before_colon : String → String
before_colon String.[] = String.[]
before_colon (String.◌∷◌ c s) =
    let rest = before_colon s in
    if is_colon (String.◌∷◌ c String.[]) then String.[] else String.◌∷◌ c rest

unfoldable pub after_colon : String → String
after_colon String.[] = String.[]
after_colon (String.◌∷◌ c s) =
    let rest = after_colon s in if is_colon (String.◌∷◌ c String.[]) then s else rest

-- `sep` of `h.partition(":")`, as a Boolean
unfoldable pub has_colon : String → Bool
has_colon String.[] = false
has_colon (String.◌∷◌ c s) =
    let rest = has_colon s in if is_colon (String.◌∷◌ c String.[]) then true else rest

-- `h.startswith(":")`
unfoldable pub starts_colon : String → Bool
starts_colon String.[] = false
starts_colon (String.◌∷◌ c s) = is_colon (String.◌∷◌ c String.[])

-- The name and the value of a header line that is no pseudo-header: empty lines, those that begin with
-- a colon and those without one have none.
unfoldable pub split_header : Text → String → Option (String × String)
unfolding has_colon starts_colon before_colon after_colon
split_header t line =
    if str_eq line "" || starts_colon line
    then none
    else if not (has_colon line)
    then none
    else some (t.strip (before_colon line), t.strip (after_colon line))

-- `s[:n]`
unfoldable pub prefix : ℕ → String → String
prefix zero s = String.[]
prefix (suc n) String.[] = String.[]
prefix (suc n) (String.◌∷◌ c s) = String.◌∷◌ c (prefix n s)

-- texts one after the other
unfoldable pub join : List String → String
join [] = ""
join (s ∷ ss) = str_append s (join ss)
