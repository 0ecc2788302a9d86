-- ===== src/Schema.antt =====
-- sources/objectbox_meta.py: the schema of the database, decoded from its metadata. What is not there is
-- `none`, and an exception that the code does not catch is an error. The decoding of text, which
-- replaces what is no UTF-8, is a parameter.
pub mod Properties
pub mod Shape
mod Tests
use Prim.Native.Char.{code}
use reqable_mcp.Prelude.{
  ℕ, zero, suc, ◌+◌, ◌-◌, ◌*◌, ◌/◌, ◌%◌, String, Bool, true, false, not, ◌&&◌, ◌||◌, Option, none,
  some, List, [], ◌∷◌, length, take, ltb, leb, ◌==◌, str_eq, if◌then◌else◌,
}
use reqable_mcp.Prelude.Int.{ℤ, pos, negsuc}
use reqable_mcp.Prelude.Result.{Result, ok, err, Error, value_error, index_error, ◌>>=◌}
use reqable_mcp.Prelude.Dict
use reqable_mcp.Prelude.Dict.{Dict}
use reqable_mcp.FlatBuffers.{
  Bytes, Table, field_at, u16, u32, deref_uoffset, root_table_offset, parse_table,
  read_string_field, looks_like_table,
}

pub record Property : Type 0 where
  pub pid : ℕ
  pub vt_index : ℤ
  pub name : String
  pub type_code : ℕ

pub record Entity : Type 0 where
  pub eid : ℕ
  pub name : String
  pub properties : List Property

abbrev all_zero : Bytes → Bool
all_zero [] = true
all_zero (b ∷ bs) = b == 0 && all_zero bs

-- `_is_meta_key`
abbrev pub is_meta_key : Bytes → Bool
is_meta_key key = length key == 8 && all_zero (take 7 key)

-- an `except` clause for one class
abbrev pub catches : Error → Error → Bool
catches value_error value_error = true
catches index_error index_error = true
catches _ _ = false

abbrev pub except {ℓ} : {A : Type ℓ} → Error → A → Result A → Result A
except x default (ok a) = ok a
except x default (err y) = if catches x y then ok default else err y

-- `try: x = ...; except ...: return None`
unfoldable pub or_none {ℓ κ} :
    {A : Type ℓ} {B : Type κ} → Error → Result A → (A → Result (Option B)) → Result (Option B)
or_none x (ok a) rest = rest a
or_none x (err y) rest = if catches x y then ok none else err y

-- `all(0x20 <= ord(c) < 0x7F or c in "_-" for c in name)`
abbrev pub printable : String → Bool
printable String.[] = true
printable (String.◌∷◌ c s) =
    ((leb 0x20 (code c) && ltb (code c) 0x7f)
      || str_eq (String.◌∷◌ c String.[]) "_"
      || str_eq (String.◌∷◌ c String.[]) "-")
    && printable s

-- `s.endswith(end)`
unfoldable pub ends_with : String → String → Bool
ends_with String.[] end = str_eq "" end
ends_with (String.◌∷◌ c s) end =
    let rest = ends_with s end in if str_eq (String.◌∷◌ c s) end then true else rest

-- a number of a field, or 0 where the field is missing
abbrev pub or_zero : (ℕ → Result ℕ) → Option ℕ → Result ℕ
or_zero read none = ok 0
or_zero read (some off) = read off

-- the index that the offset in a user's table stands for
unfoldable pub slot_of : ℕ → ℤ
slot_of byte_off =
    if leb 4 byte_off && byte_off % 2 == 0 then pos ((byte_off - 4) / 2) else negsuc 0

abbrev pub index_or_none : Bytes → Option ℕ → Result ℤ
index_or_none buf none = ok (negsuc 0)
index_or_none buf (some off) = do byte_off ← u16 buf off; ok (slot_of byte_off)

module _ (decode : Bytes → String) (buf : Bytes) where
  -- the slots of a property whose name passed the test
  unfoldable pub property_of : Table → String → Result (Option Property)
  property_of t name = do
    pid ← or_zero (u32 buf) (field_at 1 t.fields)
    packed ← or_zero (u32 buf) (field_at 7 t.fields)
    index ← index_or_none buf (field_at 8 t.fields)
    ok (some (record { pid = pid; vt_index = index; name = name; type_code = packed % 65536 }))

  unfoldable pub named_property : Table → String → Result (Option Property)
  named_property t name =
      if str_eq name "" || not (printable name) then ok none else property_of t name

  unfoldable pub property_at : Table → Option ℕ → Result (Option Property)
  unfolding or_none named_property
  property_at t none = ok none
  property_at t (some off) =
      or_none index_error (read_string_field decode buf off) (named_property t)

  -- `_parse_property`
  unfoldable pub parse_property : ℕ → Result (Option Property)
  unfolding or_none property_at
  parse_property off =
      or_none value_error (parse_table buf off) (λ t. property_at t (field_at 6 t.fields))

  abbrev pub entity_name : Option ℕ → Result String
  entity_name none = ok ""
  entity_name (some off) =
      except index_error ""
        (do n ← read_string_field decode buf off; ok (if ends_with n "Entity" then n else ""))

  -- the loop over the items of a vector: their tables, or `none` where one does not look like a table
  unfoldable pub sub_offsets : ℕ → ℕ → Result (Option (List ℕ))
  sub_offsets item zero = ok (some [])
  sub_offsets item (suc left) = if ltb (length buf) (item + 4) then ok none else do
    rel ← u32 buf item
    if not (looks_like_table buf (item + rel)) then ok none else (do
      rest ← sub_offsets (item + 4) left
      ok (elim rest [ none ↦ none | some offs ↦ some ((item + rel) ∷ offs) ]))

  abbrev pub cons_some : Option Property → List Property → List Property
  cons_some none ps = ps
  cons_some (some p) ps = p ∷ ps

  -- the loop over the tables
  unfoldable pub parse_each : List ℕ → Result (List Property)
  parse_each [] = ok []
  parse_each (off ∷ offs) = do p ← parse_property off; ps ← parse_each offs; ok (cons_some p ps)

  abbrev pub parse_some : Option (List ℕ) → Result (Option (List Property))
  parse_some none = ok none
  parse_some (some offs) = do ps ← parse_each offs; ok (some ps)

  -- one round of the loop over the fields, in the `try`; `none` is a `continue`
  unfoldable pub candidate : ℕ → Result (Option (List Property))
  unfolding parse_each sub_offsets
  candidate off = do
    target ← deref_uoffset buf off
    if ltb (length buf) (target + 4) then ok none else (do
      n ← u32 buf target
      if n == 0 || ltb 200 n
          then ok none
          else (do offs ← sub_offsets (target + 4) n; parse_some offs))

  abbrev pub better : List Property → Option (List Property) → List Property
  better best none = best
  better best (some ps) = if ltb (length best) (length ps) then ps else best

  unfoldable pub best_props : List (ℕ × ℕ) → List Property → Result (List Property)
  unfolding candidate
  best_props [] best = ok best
  best_props ((slot, off) ∷ fields) best = do
    found ← except value_error none (except index_error none (candidate off))
    best_props fields (better best found)

  -- the entity of a table that has a name
  unfoldable pub entity_of : Table → String → Result (Option Entity)
  unfolding best_props
  entity_of t name = if str_eq name "" then ok none else (do
    props ← best_props t.fields []
    eid ← except index_error 0 (or_zero (u32 buf) (field_at 1 t.fields))
    ok (some (record { eid = eid; name = name; properties = props })))

  -- `_parse_entity`
  unfoldable pub parse_entity : Result (Option Entity)
  unfolding or_none entity_of
  parse_entity =
      or_none value_error (root_table_offset buf >>= parse_table buf)
        (λ t. do name ← entity_name (field_at 3 t.fields); entity_of t name)

-- one round of the loop over the entries: `out[ent.name] = ent`
abbrev pub add_entity : Option Entity → Dict Entity → Dict Entity
add_entity none d = d
add_entity (some e) d = Dict.put d e.name e

-- `load_schema`, on the entries from the first metadata key on
unfoldable pub load_schema :
    (Bytes → String) → List (Bytes × Bytes) → Dict Entity → Result (Dict Entity)
unfolding parse_entity
load_schema decode [] out = ok out
load_schema decode ((key, val) ∷ entries) out =
    if not (is_meta_key key)
    then ok out
    else (do ent ← parse_entity decode val; load_schema decode entries (add_entity ent out))
