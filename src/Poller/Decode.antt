-- ===== src/Poller/Decode.antt =====
-- sources/lmdb_source.py: the decoding of a value, and the read of one capture by its id.
use reqable_mcp.Prelude.{
  ℕ, zero, suc, ◌/◌, ◌%◌, ◌^◌, String, Bool, true, false, ◌&&◌, Option, none, some, [], ◌∷◌, ◌++◌,
  length, take, str_eq, ltb, leb, ◌==◌, if◌then◌else◌,
}
use reqable_mcp.Prelude.Int.{ℤ, pos, negsuc}
use reqable_mcp.Prelude.Result.{Result, ok, err, overflow_error, ◌>>=◌}
use reqable_mcp.Json.{Json}
use reqable_mcp.Python.{Python}
use reqable_mcp.FlatBuffers.{
  Bytes, Table, field_at, u64, root_table_offset, parse_table, read_bytes_field, read_string_field,
}
use reqable_mcp.Values.{Text}
use reqable_mcp.WaitQueue.{Capture}
use reqable_mcp.Poller.{Codec, Columns, project_record}

-- CAPTURE_KEY_PREFIX
abbrev pub capture_key_prefix : Bytes
capture_key_prefix = 0x18 ∷ 0 ∷ 0 ∷ 0x2c ∷ []

abbrev bytes_eq : Bytes → Bytes → Bool
bytes_eq [] [] = true
bytes_eq (x ∷ xs) (y ∷ ys) = x == y && bytes_eq xs ys
bytes_eq _ _ = false

-- the field of a table with a vtable index
abbrev pub field_of : ℤ → Table → Option ℕ
field_of (pos i) t = field_at i t.fields
field_of (negsuc n) t = none

-- `k.startswith(CAPTURE_KEY_PREFIX)`
unfoldable pub is_capture_key : Bytes → Bool
is_capture_key key = bytes_eq (take 4 key) capture_key_prefix

-- what the parts of the program that a source uses give
pub record Setting : Type 0 where
  pub py : Python
  pub text : Text
  pub codec : Codec
  pub columns : Columns
  pub affinity : String → Json → Json

-- what a value holds: the ObjectBox id, the name, the timestamp and the JSON
abbrev pub Parts : Type 0
Parts = ℕ × String × ℕ × Json

abbrev pub or_zero : (ℕ → Result ℕ) → Option ℕ → Result ℕ
or_zero read none = ok 0
or_zero read (some off) = read off

abbrev pub or_empty : (ℕ → Result String) → Option ℕ → Result String
or_empty read none = ok ""
or_empty read (some off) = read off

abbrev pub field_of? : Option ℤ → Table → Option ℕ
field_of? none t = none
field_of? (some i) t = field_of i t

-- the keys that `fetch_record` tries
unfoldable pub big_endian : ℕ → ℕ → Bytes
big_endian zero n = []
big_endian (suc w) n = big_endian w (n / 256) ++ n % 256 ∷ []

-- `n.to_bytes(w, "big")`
unfoldable pub to_bytes : ℕ → ℕ → Result Bytes
unfolding big_endian
to_bytes n w = if leb (256 ^ w) n then err overflow_error else ok (big_endian w n)

abbrev pub first_of : Option Bytes → Option Bytes → Option Bytes
first_of none v = v
first_of (some v) w = some v

abbrev pub none_on_error : Result (Option Json) → Option Json
none_on_error (err x) = none
none_on_error (ok j) = j

module _ (e : Setting) where
  open e use {py, text, codec, columns}

  -- `json.loads(gzip.decompress(base64.b64decode(blob)))`
  unfoldable pub unpack : Bytes → Result Json
  unpack blob = do raw ← codec.b64decode blob; plain ← codec.decompress raw; codec.loads plain

  -- the body of the `try` once the table has the id and the data
  unfoldable pub read_parts : Bytes → Table → Option ℕ → Option ℕ → Result (Option Parts)
  unfolding unpack
  read_parts value t (some id_off) (some data_off) = do
    ob_id ← u64 value id_off
    uid ← or_empty (read_string_field codec.decode value) (field_of columns.vt_uid t)
    if str_eq uid "" then ok none else (do
      ts_us ← or_zero (u64 value) (field_of? columns.vt_timestamp t)
      blob ← read_bytes_field value data_off
      if length blob == 0
          then ok none
          else (do json ← unpack blob; ok (some (ob_id, uid, ts_us, json))))
  read_parts value t _ _ = ok none

  unfoldable pub parts_of : Bytes → Result (Option Parts)
  unfolding read_parts
  parts_of value = do
    root ← root_table_offset value
    t ← parse_table value root
    read_parts value t (field_of columns.vt_id t) (field_of columns.vt_dbdata t)

  -- the record of the parts, with its `rec["ob_id"]`
  unfoldable pub projected : Parts → Result (ℕ × Capture)
  projected (ob_id, uid, ts_us, json) = do
    rec ← project_record py text ob_id uid ts_us json
    ok (ob_id, rec)

  abbrev pub project_some : Option Parts → Result (Option (ℕ × Capture))
  project_some none = ok none
  project_some (some parts) = do rec ← projected parts; ok (some rec)

  abbrev pub counted : Result (Option Parts) → ℕ × Result (Option (ℕ × Capture))
  counted (err x) = (1, ok none)
  counted (ok parts) = (0, project_some parts)

  -- `_decode`, with the number of failures that it counts; an exception of the projection is let through
  unfoldable pub decode_value : Bytes → ℕ × Result (Option (ℕ × Capture))
  unfolding parts_of projected
  decode_value value = counted (parts_of value)

  -- the value's JSON, or `none` where anything raises
  unfoldable pub json_of : Bytes → Result (Option Json)
  unfolding unpack
  json_of value = do
    root ← root_table_offset value
    t ← parse_table value root
    elim (field_of columns.vt_dbdata t) [
      | none ↦ ok none
      | some off ↦ do
        blob ← read_bytes_field value off
        if length blob == 0 then ok none else (do json ← unpack blob; ok (some json))
    ]

  abbrev pub fetched : Option Bytes → Option Json
  fetched none = none
  fetched (some value) = if ltb (length value) 32 then none else none_on_error (json_of value)

  -- `fetch_record`, where `lookup` is the `get` of the transaction
  unfoldable pub fetch_record : (Bytes → Option Bytes) → ℕ → Result (Option Json)
  unfolding to_bytes json_of
  fetch_record lookup ob_id = do
    short ← to_bytes ob_id 4
    long ← to_bytes ob_id 8
    ok (
        fetched
          (first_of (lookup (capture_key_prefix ++ short)) (lookup (capture_key_prefix ++ long))))
