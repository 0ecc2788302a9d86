-- ===== src/FlatBuffers.antt =====
-- sources/flatbuffers_reader.py: reads of the FlatBuffers wire format. A buffer is a list of bytes, and
-- an offset is a natural number: the code reads at no negative one. A `struct.unpack_from` that would
-- pass the end of the buffer raises `struct.error`, which is no `ValueError`.
pub mod Words
pub mod Tables
pub mod Parsing
pub mod Vectors
mod Tests
use reqable_mcp.Prelude.{
  ℕ, zero, suc, ◌+◌, ◌-◌, ◌*◌, ◌/◌, ◌^◌, String, Bool, true, false, not, ◌||◌, Option, none, some,
  List, [], ◌∷◌, length, take, drop, get_elem?, ltb, leb, ◌==◌, if◌then◌else◌,
}
use reqable_mcp.Prelude.Int.{ℤ, pos, negsuc, pos_part, neg_part, sub_ℕ}
use reqable_mcp.Prelude.Result.{
  Result, ok, err, value_error, struct_error, index_error, ◌>>=◌, ◌>>◌, raise_if,
}

abbrev pub Bytes : Type 0
Bytes = List ℕ

-- the number that bytes stand for, the lowest first
unfoldable pub value : Bytes → ℕ
value [] = 0
value (b ∷ bs) = b + 256 * value bs

-- an unsigned integer of `n` bytes
unfoldable pub word : ℕ → Bytes → ℕ → Result ℕ
word n buf off =
    if leb (off + n) (length buf) then ok (value (take n (drop off buf))) else err struct_error

unfoldable pub u8 : Bytes → ℕ → Result ℕ
u8 buf off = elim (get_elem? buf off) [ none ↦ err index_error | some b ↦ ok b ]

unfoldable pub u16 : Bytes → ℕ → Result ℕ
u16 = word 2

unfoldable pub u32 : Bytes → ℕ → Result ℕ
u32 = word 4

unfoldable pub u64 : Bytes → ℕ → Result ℕ
u64 = word 8

-- the signed integer with a bit pattern of `bits` bits
unfoldable pub signed : ℕ → ℕ → ℤ
signed bits v = if ltb v (2 ^ (bits - 1)) then pos v else negsuc (2 ^ bits - v - 1)

unfoldable pub i32 : Bytes → ℕ → Result ℤ
unfolding signed
i32 buf off = do v ← u32 buf off; ok (signed 32 v)

unfoldable pub i64 : Bytes → ℕ → Result ℤ
unfolding signed
i64 buf off = do v ← u64 buf off; ok (signed 64 v)

unfoldable pub deref_uoffset : Bytes → ℕ → Result ℕ
deref_uoffset buf off = do rel ← u32 buf off; ok (off + rel)

unfoldable pub root_table_offset : Bytes → Result ℕ
root_table_offset buf = u32 buf 0

-- the fields that are present, by slot, in ascending order
pub record Table : Type 0 where
  pub table_off : ℕ
  pub vtable_off : ℕ
  pub vtable_size : ℕ
  pub table_size : ℕ
  pub fields : List (ℕ × ℕ)

-- `fid in fields` and `fields[fid]`
unfoldable pub field_at : ℕ → List (ℕ × ℕ) → Option ℕ
field_at fid [] = none
field_at fid ((i, off) ∷ fs) = if i == fid then some off else field_at fid fs

add_field : ℕ → ℕ → ℕ → List (ℕ × ℕ) → List (ℕ × ℕ)
add_field fid table_off rel fs = if rel == 0 then fs else (fid, table_off + rel) ∷ fs

-- the loop over the slots, `left` of them from `fid` on
unfoldable pub read_fields : Bytes → ℕ → ℕ → ℕ → ℕ → Result (List (ℕ × ℕ))
unfolding add_field
read_fields buf table_off vt fid zero = ok []
read_fields buf table_off vt fid (suc left) = do
  rel ← u16 buf (vt + 4 + fid * 2)
  fs ← read_fields buf table_off vt (suc fid) left
  ok (add_field fid table_off rel fs)

-- `parse_table` from the vtable's offset on
unfoldable pub parse_vtable : Bytes → ℕ → ℕ → Result Table
parse_vtable buf table_off vt = if ltb (length buf) (vt + 4) then err value_error else do
  vt_size ← u16 buf vt
  tbl_size ← u16 buf (vt + 2)
  raise_if (ltb vt_size 4 || ltb (length buf) (vt + vt_size)) value_error
  fields ← read_fields buf table_off vt 0 ((vt_size - 4) / 2)
  ok (record {
    table_off = table_off;
    vtable_off = vt;
    vtable_size = vt_size;
    table_size = tbl_size;
    fields = fields;
  })

-- `table_off - diff`
abbrev pub vtable_of : ℕ → ℤ → ℤ
vtable_of table_off diff = sub_ℕ (table_off + neg_part diff) (pos_part diff)

unfoldable pub at_vtable : Bytes → ℕ → ℤ → Result Table
at_vtable buf table_off (pos vt) = parse_vtable buf table_off vt
at_vtable buf table_off (negsuc n) = err value_error

unfoldable pub parse_table : Bytes → ℕ → Result Table
parse_table buf table_off = do
  diff ← i32 buf table_off
  at_vtable buf table_off (vtable_of table_off diff)

-- `buf[off + 4 : off + 4 + n]`, which may be shorter than `n`
unfoldable pub read_bytes : Bytes → ℕ → Result Bytes
read_bytes buf off = do n ← u32 buf off; ok (take n (drop (off + 4) buf))

unfoldable pub read_bytes_field : Bytes → ℕ → Result Bytes
read_bytes_field buf off = do target ← deref_uoffset buf off; read_bytes buf target

-- `bytes.decode("utf-8", errors="replace")` is a parameter
unfoldable pub read_string : (Bytes → String) → Bytes → ℕ → Result String
read_string decode buf off = do bytes ← read_bytes buf off; ok (decode bytes)

unfoldable pub read_string_field : (Bytes → String) → Bytes → ℕ → Result String
read_string_field decode buf off = do target ← deref_uoffset buf off; read_string decode buf target

-- the loop over the items, `left` of them from the offset `item` on
unfoldable pub read_offsets : Bytes → ℕ → ℕ → Result (List ℕ)
read_offsets buf item zero = ok []
read_offsets buf item (suc left) = do
  off ← deref_uoffset buf item
  rest ← read_offsets buf (item + 4) left
  ok (off ∷ rest)

unfoldable pub read_vector_of_offsets : Bytes → ℕ → Result (List ℕ)
unfolding read_offsets
read_vector_of_offsets buf off = do
  target ← deref_uoffset buf off
  n ← u32 buf target
  read_offsets buf (target + 4) n

unfoldable pub read_uint : Bytes → ℕ → ℕ → Result ℕ
read_uint buf off size =
    if size == 1
    then u8 buf off
    else if size == 2
    then u16 buf off
    else if size == 4
    then u32 buf off
    else if size == 8
    then u64 buf off
    else err value_error

-- `except struct.error: return False`; nothing else is raised inside
unfoldable pub false_on_error : Result Bool → Bool
false_on_error (ok b) = b
false_on_error (err e) = false

unfoldable pub looks_at_vtable : Bytes → ℤ → Result Bool
looks_at_vtable buf (negsuc n) = ok false
looks_at_vtable buf (pos vt) = if ltb (length buf) (vt + 4) then ok false else do
  vt_size ← u16 buf vt
  ok (if ltb vt_size 4 || ltb 1024 vt_size then false else leb (vt + vt_size) (length buf))

unfoldable pub looks_like_table : Bytes → ℕ → Bool
looks_like_table buf off =
    if ltb (length buf) (off + 4)
    then false
    else false_on_error (do diff ← i32 buf off; looks_at_vtable buf (vtable_of off diff))
