-- ===== src/Schema/Tests.antt =====
-- A schema of one entity, and the theorem for it.
use reqable_mcp.Prelude.{String, ◌≡◌, refl, List, [], ◌∷◌, All}
use reqable_mcp.Prelude.Int.{negsuc}
use reqable_mcp.Prelude.Result.{ok}
use reqable_mcp.Prelude.Dict
use reqable_mcp.Prelude.Dict.{Dict}
use reqable_mcp.FlatBuffers.{
  Bytes, root_table_offset, u32, word, parse_table, i32, value, at_vtable, parse_vtable, u16,
  read_fields, field_at, read_string_field, deref_uoffset, read_string, read_bytes,
  looks_like_table, false_on_error, looks_at_vtable, signed,
}
use reqable_mcp.Schema.{
  Entity, ends_with, best_props, candidate, entity_of, named_property, or_none, parse_each,
  parse_entity, parse_property, property_at, property_of, slot_of, sub_offsets, load_schema,
}
use reqable_mcp.Schema.Shape.{IsEntry, load_schema-IsEntry}

-- every text is decoded as this
abbrev decode : Bytes → String
decode bs = "Entity"

-- the offset of the entity's table, its vtable, the table, its name, the vector of its properties, and
-- the vtable, the table and the name of the one property
abbrev blob : Bytes
blob =
    20 ∷ 0 ∷ 0 ∷ 0 ∷ 14 ∷ 0 ∷ 12 ∷ 0 ∷ 0 ∷ 0 ∷ 0 ∷ 0 ∷ 0 ∷ 0 ∷ 4 ∷ 0 ∷ 8 ∷ 0 ∷ 0 ∷ 0 ∷ 16 ∷ 0 ∷ 0
    ∷ 0 ∷ 8 ∷ 0 ∷ 0 ∷ 0 ∷ 12 ∷ 0 ∷ 0 ∷ 0 ∷ 1 ∷ 0 ∷ 0 ∷ 0 ∷ 65 ∷ 0 ∷ 0 ∷ 0 ∷ 1 ∷ 0 ∷ 0 ∷ 0 ∷ 24 ∷ 0
    ∷ 0 ∷ 0 ∷ 18 ∷ 0 ∷ 8 ∷ 0 ∷ 0 ∷ 0 ∷ 0 ∷ 0 ∷ 0 ∷ 0 ∷ 0 ∷ 0 ∷ 0 ∷ 0 ∷ 0 ∷ 0 ∷ 4 ∷ 0 ∷ 0 ∷ 0 ∷ 20
    ∷ 0 ∷ 0 ∷ 0 ∷ 4 ∷ 0 ∷ 0 ∷ 0 ∷ 1 ∷ 0 ∷ 0 ∷ 0 ∷ 65 ∷ []

abbrev entries : List (Bytes × Bytes)
entries = (0 ∷ 0 ∷ 0 ∷ 0 ∷ 0 ∷ 0 ∷ 0 ∷ 11 ∷ [], blob) ∷ (1 ∷ [], []) ∷ []

abbrev schema : Dict Entity
schema =
    (
      "Entity",
      record {
        eid = 0;
        name = "Entity";
        properties = record { pid = 0; vt_index = negsuc 0; name = "Entity"; type_code = 0 } ∷ [];
      },
    )
    ∷ []

loaded : load_schema decode entries [] ≡ ok schema
unfolding Dict.put ends_with best_props candidate entity_of named_property or_none parse_each
    parse_entity parse_property property_at property_of slot_of sub_offsets load_schema
    root_table_offset u32 word parse_table i32 value at_vtable parse_vtable u16 read_fields field_at
    read_string_field deref_uoffset read_string read_bytes looks_like_table false_on_error
    looks_at_vtable signed
loaded = refl

load_schema-IsEntry_example : All IsEntry schema
load_schema-IsEntry_example = load_schema-IsEntry decode entries schema loaded
