-- ===== src/FlatBuffers/Tests.antt =====
-- Reads of small buffers, and the theorems at concrete inputs.
use reqable_mcp.Prelude.{◌≤◌, ◌≡◌, ◌↔◌, refl, true, [], ◌∷◌}
use reqable_mcp.Prelude.Result.{ok, err, value_error, struct_error, index_error}
use reqable_mcp.FlatBuffers.{
  Bytes, Table, word, u16, i32, parse_table, looks_like_table, read_vector_of_offsets, read_uint,
  u8, u32, parse_vtable, at_vtable, value, read_fields, deref_uoffset, word,
}
use reqable_mcp.FlatBuffers.Parsing.{looks_like_table_iff}

-- a vtable of two slots at 0, of which the first holds 4, and its table at 8
abbrev small : Bytes
small = 8 ∷ 0 ∷ 8 ∷ 0 ∷ 4 ∷ 0 ∷ 0 ∷ 0 ∷ 8 ∷ 0 ∷ 0 ∷ 0 ∷ 7 ∷ 0 ∷ 0 ∷ 0 ∷ []

abbrev table : Table
table = record {
  table_off = 8;
  vtable_off = 0;
  vtable_size = 8;
  table_size = 8;
  fields = (0, 12) ∷ [];
}

parse_small : parse_table small 8 ≡ ok table
unfolding parse_table at_vtable parse_vtable i32 u32 u16 word value read_fields
parse_small = refl

parse_errors : (parse_table small 13 ≡ err struct_error) × (parse_table small 12 ≡ err value_error)
unfolding parse_table at_vtable parse_vtable i32 u32 u16 word value read_fields
parse_errors = (refl, refl)

offsets :
    read_vector_of_offsets (4 ∷ 0 ∷ 0 ∷ 0 ∷ 1 ∷ 0 ∷ 0 ∷ 0 ∷ 3 ∷ 0 ∷ 0 ∷ 0 ∷ []) 0 ≡ ok (11 ∷ [])
unfolding read_vector_of_offsets deref_uoffset u32 word value
offsets = refl

uints :
    (read_uint small 2 1 ≡ ok 8)
    × (read_uint small 16 1 ≡ err index_error)
    × (read_uint small 0 3 ≡ err value_error)
unfolding read_uint u8
uints = (refl, refl, refl)

looks_like_table_iff_example :
    (looks_like_table small 8 ≡ true)
    ↔ ((t : Table) × (parse_table small 8 ≡ ok t) × (t.vtable_size ≤ 1024))
looks_like_table_iff_example = looks_like_table_iff small 8
