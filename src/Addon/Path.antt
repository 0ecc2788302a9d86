-- ===== src/Addon/Path.antt =====
-- hook/template/addons.py: dotted paths into a JSON document, as `_extract_from_json_body` and
-- `_patch_json_body` walk them.
use Prim.Native.Char.{code}
use reqable_mcp.Prelude.{
  ℕ, zero, suc, String, Bool, true, false, Option, none, some, List, [], ◌∷◌, length, get_elem?,
  ltb, ◌==◌, if◌then◌else◌,
}
use reqable_mcp.Prelude.Int.{ℤ, pos}
use reqable_mcp.Prelude.Dict
use reqable_mcp.Json.{Json, Items, Fields, null, arr, obj, to_dict, of_dict, to_list, of_list}
use reqable_mcp.Addon.{Runtime}

abbrev dot : ℕ
dot = 46

-- `path.split(".")`
unfoldable pub split_dots : String → List String
split_dots String.[] = "" ∷ []
split_dots (String.◌∷◌ c s) =
    let rest = split_dots s in
    if code c == dot then "" ∷ rest else elim rest [ [] ↦ [] | w ∷ ws ↦ String.◌∷◌ c w ∷ ws ]

-- `xs[i] = v`
unfoldable pub set_at {ℓ} : {A : Type ℓ} → List A → ℕ → A → List A
set_at [] i v = []
set_at (x ∷ xs) zero v = v ∷ xs
set_at (x ∷ xs) (suc i) v = x ∷ set_at xs i v

-- a value that is not `None`
abbrev pub non_null : Option Json → Option Json
non_null none = none
non_null (some null) = none
non_null (some v) = some v

-- a value of a list or a dictionary after an assignment
abbrev pub set_field : Fields → String → Json → Fields
set_field fs k v = of_dict (Dict.put (to_dict fs) k v)

abbrev pub set_item : Items → ℕ → Json → Items
set_item xs i v = of_list (set_at (to_list xs) i v)

-- an index within a list
abbrev pub in_range : Option ℤ → ℕ → Option ℕ
in_range (some (pos i)) n = if ltb i n then some i else none
in_range _ n = none

module _ (rt : Runtime) where
  open rt use {int_of, is_digits}

  -- `int(part)`, if it is within the list
  abbrev pub index : Items → String → Option ℕ
  index xs part = in_range (int_of part) (length (to_list xs))

  abbrev pub item : Items → Option ℕ → Option Json
  item xs none = none
  item xs (some i) = get_elem? (to_list xs) i

  -- one round of the walk of `_extract_from_json_body`
  unfoldable pub descend : Json → String → Option Json
  descend (obj fs) part = non_null (Dict.get (to_dict fs) part)
  descend (arr xs) part = non_null (item xs (index xs part))
  descend _ part = none

  unfoldable pub walk : List String → Json → Option Json
  walk [] cursor = some cursor
  walk (part ∷ rest) cursor = elim (descend cursor part) [ none ↦ none | some c ↦ walk rest c ]

  -- the node that is made for a missing key
  abbrev pub fresh : String → Json
  fresh next_part = if is_digits next_part then arr Items.nil else obj Fields.end

  abbrev pub child : Option Json → String → Json
  child (some (obj fs)) next_part = obj fs
  child (some (arr xs)) next_part = arr xs
  child _ next_part = fresh next_part

  -- one round of the walk of `_patch_json_body`: the node that is gone on with
  unfoldable pub enter : Json → String → String → Option Json
  enter (obj fs) part next_part = some (child (Dict.get (to_dict fs) part) next_part)
  enter (arr xs) part next_part = item xs (index xs part)
  enter _ part next_part = none

  abbrev pub put_item : Items → Option ℕ → Json → Json
  put_item xs none v = arr xs
  put_item xs (some i) v = arr (set_item xs i v)

  -- The cursor with the node in its place. The code changes the node where it stands.
  unfoldable pub put_back : Json → String → Json → Json
  put_back (obj fs) part v = obj (set_field fs part v)
  put_back (arr xs) part v = put_item xs (index xs part) v
  put_back c part v = c

  abbrev pub set_index : Items → Option ℕ → Json → Bool × Json
  set_index xs none v = (false, arr xs)
  set_index xs (some i) v = (true, arr (set_item xs i v))

  -- the assignment at the last part
  unfoldable pub set_leaf : Json → String → Json → Bool × Json
  set_leaf (obj fs) leaf v = (true, obj (set_field fs leaf v))
  set_leaf (arr xs) leaf v = set_index xs (index xs leaf) v
  set_leaf c leaf v = (false, c)

  unfoldable pub patch : List String → Json → Json → Bool × Json
  patch [] cursor v = (false, cursor)
  patch (leaf ∷ []) cursor v = set_leaf cursor leaf v
  patch (part ∷ next_part ∷ rest) cursor v = elim (enter cursor part next_part) [
    | none ↦ (false, cursor)
    | some c ↦ let (done, c') = patch (next_part ∷ rest) c v in (done, put_back cursor part c')
  ]
