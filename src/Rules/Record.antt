-- ===== src/Rules/Record.antt =====
-- rules.py: `Rule.to_dict` and `Rule.from_dict`, the form of a rule in rules.json.
use reqable_mcp.Prelude.{
  ◌+◌, ◌-◌, ◌*◌, String, Bool, true, false, not, ◌||◌, Option, none, some, List, [], ◌∷◌,
  if◌then◌else◌,
}
use reqable_mcp.Prelude.Int.{ℤ, pos, negsuc}
use reqable_mcp.Prelude.Result.{Result, ok, err, value_error, type_error, ◌>>=◌, ◌>>◌}
use reqable_mcp.Prelude.Dict
use reqable_mcp.Prelude.Dict.{Dict}
use reqable_mcp.Json.{Json, Fields, null, bool, int, float, str, obj, to_dict}
use reqable_mcp.Python.{Python}
use reqable_mcp.Rules.{Rule, post_init}

abbrev pub of_text : Option String → Json
of_text none = null
of_text (some s) = str s

abbrev pub of_time : Option ℤ → Json
of_time none = null
of_time (some t) = float t

abbrev pub of_int : Option ℤ → Json
of_int none = null
of_int (some n) = int n

-- `asdict`, less the compiled pattern
unfoldable pub fields_of : Rule → Dict Json
fields_of r =
    ("id", str r.id)
    ∷ ("kind", str r.kind)
    ∷ ("side", str r.side)
    ∷ ("host", of_text r.host)
    ∷ ("path_pattern", of_text r.path_pattern)
    ∷ ("method", of_text r.method)
    ∷ ("payload", obj r.payload)
    ∷ ("created_ts", float r.created_ts)
    ∷ ("expires_ts", of_time r.expires_ts)
    ∷ ("hits", int r.hits)
    ∷ ("status_min", of_int r.status_min)
    ∷ ("status_max", of_int r.status_max)
    ∷ ("dry_run", bool r.dry_run)
    ∷ []

-- The types of the fields. A Python `bool` is an `int`.
unfoldable pub is_str : Json → Bool
is_str (str s) = true
is_str _ = false

unfoldable pub is_none : Json → Bool
is_none null = true
is_none _ = false

is_dict : Json → Bool
is_dict (obj fs) = true
is_dict _ = false

unfoldable pub is_int : Json → Bool
is_int (int n) = true
is_int (bool b) = true
is_int _ = false

unfoldable pub is_float : Json → Bool
is_float (float t) = true
is_float _ = false

is_bool : Json → Bool
is_bool (bool b) = true
is_bool _ = false

field_types : List (String × (Json → Bool))
unfolding is_str is_none is_dict is_int is_float is_bool
field_types =
    ("id", is_str)
    ∷ ("kind", is_str)
    ∷ ("side", is_str)
    ∷ ("host", λ v. is_str v || is_none v)
    ∷ ("path_pattern", λ v. is_str v || is_none v)
    ∷ ("method", λ v. is_str v || is_none v)
    ∷ ("payload", is_dict)
    ∷ ("created_ts", λ v. is_int v || is_float v)
    ∷ ("expires_ts", λ v. is_int v || is_float v || is_none v)
    ∷ ("hits", is_int)
    ∷ ("dry_run", is_bool)
    ∷ ("status_min", λ v. is_int v || is_none v)
    ∷ ("status_max", λ v. is_int v || is_none v)
    ∷ []

wrong_type : Option Json → (Json → Bool) → Bool
wrong_type none test = false
wrong_type (some v) test = not (test v)

check_fields : List (String × (Json → Bool)) → Dict Json → Result (Unit {0})
unfolding wrong_type
check_fields [] d = ok tt
check_fields ((k, test) ∷ rest) d =
    let later = check_fields rest d in
    if wrong_type (Dict.get d k) test then err value_error else later

-- The value of a field that has been checked. A numeric `true` is 1, and an int is whole seconds.
abbrev text_of : Json → String
text_of (str s) = s
text_of _ = ""

abbrev pub opt_text_of : Json → Option String
opt_text_of (str s) = some s
opt_text_of _ = none

abbrev fields_in : Json → Fields
fields_in (obj fs) = fs
fields_in _ = Fields.end

abbrev flag_of : Json → Bool
flag_of (bool b) = b
flag_of _ = false

abbrev pub int_of : Json → Option ℤ
int_of (int n) = some n
int_of (bool b) = some (pos (if b then 1 else 0))
int_of _ = none

abbrev seconds : ℤ → ℤ
seconds (pos n) = pos (n * 1_000_000)
seconds (negsuc n) = negsuc ((n + 1) * 1_000_000 - 1)

abbrev pub time_of : Json → Option ℤ
time_of (float t) = some t
time_of (int n) = some (seconds n)
time_of (bool b) = some (pos (if b then 1_000_000 else 0))
time_of _ = none

abbrev or_zero : Option ℤ → ℤ
or_zero none = pos 0
or_zero (some n) = n

-- an argument of the constructor that has no default
required : Dict Json → String → Result Json
required d k = elim (Dict.get d k) [ none ↦ err type_error | some v ↦ ok v ]

-- one that has
default : Dict Json → String → Json → Json
default d k v = elim (Dict.get d k) [ none ↦ v | some w ↦ w ]

module _ (py : Python) where
  construct : Dict Json → Result Rule
  unfolding required default
  construct d = do
    id ← required d "id"
    kind ← required d "kind"
    side ← required d "side"
    host ← required d "host"
    path_pattern ← required d "path_pattern"
    method ← required d "method"
    payload ← required d "payload"
    created_ts ← required d "created_ts"
    expires_ts ← required d "expires_ts"
    post_init py (record {
      id = text_of id;
      kind = text_of kind;
      side = text_of side;
      host = opt_text_of host;
      path_pattern = opt_text_of path_pattern;
      method = opt_text_of method;
      payload = fields_in payload;
      created_ts = or_zero (time_of created_ts);
      expires_ts = time_of expires_ts;
      hits = or_zero (int_of (default d "hits" (int (pos 0))));
      status_min = int_of (default d "status_min" null);
      status_max = int_of (default d "status_max" null);
      dry_run = flag_of (default d "dry_run" (bool false));
    })

  unfoldable pub from_dict : Json → Result Rule
  unfolding construct check_fields field_types
  from_dict (obj fs) = do check_fields field_types (to_dict fs); construct (to_dict fs)
  from_dict _ = err value_error
