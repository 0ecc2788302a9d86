-- ===== src/Poller/Tests.antt =====
-- Scans of small databases, and the theorems at concrete inputs.
use reqable_mcp.Prelude.{
  Option, some, arith, ℕ, String, ◌<◌, ◌^◌, ◌≡◌, refl, true, none, List, [], ◌∷◌, ◌++◌, filter, All,
}
use reqable_mcp.Prelude.Int.{pos}
use reqable_mcp.Prelude.Result.{Result, ok, err, attribute_error, overflow_error}
use reqable_mcp.Prelude.Dict
use reqable_mcp.Json.{Json, arr, obj, Items, Fields}
use reqable_mcp.FlatBuffers.{Bytes}
use reqable_mcp.Values.{Text}
use reqable_mcp.Database
use reqable_mcp.Database.{empty, get_sync_cursor, columns, bind_all, upsert_capture}
use reqable_mcp.FlatBuffers
use reqable_mcp.Poller.Decode
use reqable_mcp.Poller.Scan
use reqable_mcp.Poller
use reqable_mcp.Values
use reqable_mcp.WaitQueue.{Capture, FilterSpec, truthy}
use reqable_mcp.WaitQueue.Waiters
use reqable_mcp.WaitQueue.Calls
use reqable_mcp.WaitQueue.Delivery.{first_match}
use reqable_mcp.Poller.{Codec, project_record}
use reqable_mcp.Poller.Shape.{project_record-IsRow}
use reqable_mcp.Poller.Decode.{Setting, fetch_record, decode_value}
use reqable_mcp.Poller.Scan.{LmdbSource, scan_once, captures_of}
use reqable_mcp.Poller.Loop.{Reading, start, run}
use reqable_mcp.Poller.Exact.{newer, values_in, decode_all, IsStored, IsSynced, scan_once-IsStored}
use reqable_mcp.Poller.Raising.{scan_once-stuck}
use reqable_mcp.Poller.Fresh.{id_of}
use reqable_mcp.Poller.Runs.{run-never_again}
use reqable_mcp.Poller.Waiting.{notifications, scan_once-wait_end}
use reqable_mcp.Poller.Fetching.{number_of, fetch_record-decoded}

-- the value of a capture with an ObjectBox id of one byte: the root, the vtable and the table, the name
-- and the data
abbrev record_bytes : ℕ → Bytes
record_bytes ob_id =
    (16 ∷ 0 ∷ 0 ∷ 0 ∷ 10 ∷ 0 ∷ 20 ∷ 0 ∷ 4 ∷ 0 ∷ 12 ∷ 0 ∷ 16 ∷ 0 ∷ 0 ∷ 0 ∷ [])
    ++ (12 ∷ 0 ∷ 0 ∷ 0 ∷ ob_id ∷ 0 ∷ 0 ∷ 0 ∷ 0 ∷ 0 ∷ 0 ∷ 0 ∷ 8 ∷ 0 ∷ 0 ∷ 0 ∷ 9 ∷ 0 ∷ 0 ∷ 0 ∷ [])
    ++ (1 ∷ 0 ∷ 0 ∷ 0 ∷ 117 ∷ 1 ∷ 0 ∷ 0 ∷ 0 ∷ 9 ∷ [])

-- decoders that return their input, and the same JSON for every text
abbrev setting : Json → Setting
setting json = record {
  py = record {
    lower = λ s. s;
    upper = λ s. s;
    compiles = λ p. true;
    search = λ p s. true;
    dumps = λ j. "";
    loads = λ s. none;
  };
  text = record { format = λ j. ""; parse_int = λ s. none; strip = λ s. s };
  codec = record {
    b64decode = ok;
    decompress = ok;
    loads = λ bytes. ok json;
    decode = λ bytes. "u";
  };
  columns = record { vt_id = pos 0; vt_uid = pos 1; vt_timestamp = none; vt_dbdata = pos 2 };
  affinity = λ k v. v;
}

abbrev good : Setting
good = setting (obj Fields.end)

-- the JSON is a list
abbrev bad : Setting
bad = setting (arr Items.nil)

abbrev key : ℕ → Bytes
key n = 0x18 ∷ 0 ∷ 0 ∷ 0x2c ∷ 0 ∷ 0 ∷ 0 ∷ n ∷ []

abbrev entries : List (Bytes × Bytes)
entries = (key 3, record_bytes 3) ∷ (key 4, 0 ∷ []) ∷ (key 7, record_bytes 7) ∷ (0x19 ∷ [], []) ∷ []

abbrev source : LmdbSource
source = record {
  stats = record {
    polls = 0;
    new_records = 0;
    decode_failures = 0;
    last_seen_ob_id = 0;
    last_poll_ts_ms = 0;
  };
  db = empty;
}

scanned_two : (scan_once good entries 1 source).0 ≡ ok 2
unfolding scan_once Scan.max_ob Scan.save Scan.walk FlatBuffers.root_table_offset FlatBuffers.u32
    FlatBuffers.word FlatBuffers.parse_table FlatBuffers.i32 FlatBuffers.value FlatBuffers.at_vtable
    FlatBuffers.parse_vtable FlatBuffers.u16 FlatBuffers.read_fields FlatBuffers.field_at
    FlatBuffers.u64 FlatBuffers.read_string_field FlatBuffers.deref_uoffset FlatBuffers.read_string
    FlatBuffers.read_bytes FlatBuffers.read_bytes_field FlatBuffers.signed Database.bind
    Database.bind_all Database.clash Database.replaces Database.row_of Database.set_sync_cursor
    Database.upsert_capture Database.upsert_each Database.get_sync_cursor Decode.is_capture_key
    Decode.decode_value Decode.parts_of Decode.projected Decode.read_parts Decode.unpack
    Poller.cut_160 Poller.find_header Poller.find_in Poller.millis Poller.port_of
    Poller.project_record Poller.project_sections Poller.rtt_of Poller.sections Poller.to_millis
    Values.after_colon Values.as_dict Values.iterate Values.join Values.prefix Values.section
    Values.to_int Dict.get Dict.put truthy
scanned_two = refl

not_projected : (decode_all bad (values_in entries)).1 ≡ err attribute_error
unfolding decode_all FlatBuffers.root_table_offset FlatBuffers.u32 FlatBuffers.word
    FlatBuffers.parse_table FlatBuffers.i32 FlatBuffers.value FlatBuffers.at_vtable
    FlatBuffers.parse_vtable FlatBuffers.u16 FlatBuffers.read_fields FlatBuffers.field_at
    FlatBuffers.u64 FlatBuffers.read_string_field FlatBuffers.deref_uoffset FlatBuffers.read_string
    FlatBuffers.read_bytes FlatBuffers.read_bytes_field FlatBuffers.signed Decode.is_capture_key
    Decode.decode_value Decode.parts_of Decode.projected Decode.read_parts Decode.unpack
    Poller.cut_160 Poller.find_header Poller.find_in Poller.millis Poller.port_of
    Poller.project_record Poller.project_sections Poller.rtt_of Poller.sections Poller.to_millis
    Values.after_colon Values.as_dict Values.iterate Values.join Values.prefix Values.section
    Values.to_int Dict.get Dict.put truthy
not_projected = refl

abbrev first_scan : Result ℕ × LmdbSource × List Capture
first_scan = scan_once good entries 1 source

scan_once-IsStored_example :
    (recs : List (ℕ × Capture)) × ((decode_all good (values_in entries)).1 ≡ ok recs)
    × IsStored good (filter (newer 0) recs) source first_scan.1 2 first_scan.2
    × (IsSynced source → IsSynced first_scan.1)
scan_once-IsStored_example =
    scan_once-IsStored good entries 1 source first_scan.1 2 first_scan.2
      (λ i. (scanned_two i, first_scan.1, first_scan.2))

bad_scan_raises : (scan_once bad entries 1 source).0 ≡ err attribute_error
bad_scan_raises = (scan_once-stuck bad entries attribute_error not_projected 1 source).0

scan_once-stuck_example :
    ((scan_once bad entries 1 source).0 ≡ err attribute_error)
    × ((scan_once bad entries 1 source).1.db ≡ source.db)
    × ((scan_once bad entries 1 source).2 ≡ [])
scan_once-stuck_example = scan_once-stuck bad entries attribute_error not_projected 1 source

abbrev any : FilterSpec
any = record { host = none; method = none; path_pattern = none; app = none; status = none }

scan_once-wait_end_example :
    (recs : List (ℕ × Capture)) × ((decode_all good (values_in entries)).1 ≡ ok recs)
    × ((Waiters.wait_end "w"
          (Calls.run good.py (notifications first_scan.2) (Waiters.add any "w" 1 Waiters.empty))).0
        ≡ first_match good.py any (captures_of (filter (newer 0) recs)))
scan_once-wait_end_example =
    scan_once-wait_end good entries 1 source 2 scanned_two any "w" 1 Waiters.empty

abbrev reading : ℕ → Reading
reading n = record { txnid = ok n; txnid_again = ok n; entries = entries; now = n }

run-never_again_example :
    let poller = start source in
    let (p', earlier) = run good (reading 1 ∷ []) poller in
    let (_, later) = run good (reading 2 ∷ reading 2 ∷ []) (start p'.source) in
    All (λ c. All (λ d. id_of c < id_of d) later) earlier
run-never_again_example =
    run-never_again good (reading 1 ∷ []) (reading 2 ∷ reading 2 ∷ []) (start source)
      (unfold start get_sync_cursor Dict.get in refl)

-- an id of five bytes
too_large : fetch_record good (λ k. none) (2 ^ 32) ≡ err overflow_error
unfolding fetch_record Decode.to_bytes
too_large = refl

abbrev found_one : ℕ × Capture
found_one = elim (decode_value good (record_bytes 3)).1 [
  | ok (some found) ↦ found
  | ok none ↦ (0, [])
  | err x ↦ (0, [])
]

decoded_one : (decode_value good (record_bytes 3)).1 ≡ ok (some found_one)
unfolding FlatBuffers.root_table_offset FlatBuffers.u32 FlatBuffers.word FlatBuffers.parse_table
    FlatBuffers.i32 FlatBuffers.value FlatBuffers.at_vtable FlatBuffers.parse_vtable FlatBuffers.u16
    FlatBuffers.read_fields FlatBuffers.field_at FlatBuffers.u64 FlatBuffers.read_string_field
    FlatBuffers.deref_uoffset FlatBuffers.read_string FlatBuffers.read_bytes
    FlatBuffers.read_bytes_field FlatBuffers.signed Decode.is_capture_key Decode.decode_value
    Decode.parts_of Decode.projected Decode.read_parts Decode.unpack Poller.cut_160
    Poller.find_header Poller.find_in Poller.millis Poller.port_of Poller.project_record
    Poller.project_sections Poller.rtt_of Poller.sections Poller.to_millis Values.after_colon
    Values.as_dict Values.iterate Values.join Values.prefix Values.section Values.to_int Dict.get
    Dict.put truthy
decoded_one = refl

abbrev stored_one : Bytes → Option Bytes
stored_one k = some (record_bytes 3)

fetch_record-decoded_example :
    (uid : String) × (ts : ℕ) × (json : Json) × (fetch_record good stored_one (number_of 0 0 0 3)
      ≡ ok (some json))
    × (project_record good.py good.text found_one.0 uid ts json ≡ ok found_one.1)
fetch_record-decoded_example =
    fetch_record-decoded good (record_bytes 3) stored_one 0 0 0 3 found_one (omega arith)
      (omega arith) (omega arith) (omega arith) refl (omega arith) decoded_one

abbrev empty_record : Capture
empty_record = elim (project_record good.py good.text 3 "u" 9000 (obj Fields.end)) [
  | ok rec ↦ rec
  | err e ↦ []
]

projected_empty : project_record good.py good.text 3 "u" 9000 (obj Fields.end) ≡ ok empty_record
unfolding project_record Values.as_dict Values.section truthy Dict.get Values.iterate
projected_empty = refl

project_record-IsRow_example :
    (Dict.keys empty_record ≡ columns)
    × ((affinity : String → Json → Json) (db : Database.Database)
        → bind_all columns empty_record ≡ ok tt
        → (db' : Database.Database) × (upsert_capture affinity empty_record db ≡ ok db'))
project_record-IsRow_example =
    project_record-IsRow good.py good.text 3 "u" 9000 (obj Fields.end) empty_record projected_empty
