-- ===== src/Bodies.antt =====
-- sources/body_source.py: the body files of a capture. The directory is a parameter: what reading a file of a
-- name gives; and so is gzip, which returns or raises.
pub mod Reading
mod Tests
use reqable_mcp.Prelude.{
  ℕ, String, Bool, true, false, not, ◌&&◌, ◌||◌, Option, none, some, List, [], ◌∷◌, take, ◌==◌,
  is_some, if◌then◌else◌,
}
use reqable_mcp.Prelude.Int.{ℤ}
use reqable_mcp.Prelude.Result.{Result, ok, err, Error, os_error, ◌>>=◌}
use reqable_mcp.Prelude.Dict
use reqable_mcp.Prelude.Dict.{Dict}
use reqable_mcp.Json.{Json, int}
use reqable_mcp.FlatBuffers.{Bytes}
use reqable_mcp.Values.{Text, at, is_null, as_dict, section, to_int, join}

pub record BodyLookup : Type 0 where
  pub conn_timestamp : ℤ
  pub conn_id : ℤ
  pub session_id : ℤ

pub data BodyKind : Type 0 where
  req res : BodyKind

abbrev pub suffix : BodyKind → Bool → String
suffix req prefer_decoded = "req_raw-body.reqable"
suffix res true = "res-extract-body.reqable"
suffix res false = "res-raw-body.reqable"

-- `filename`
unfoldable pub filename : Text → BodyLookup → BodyKind → Bool → String
filename t l kind prefer_decoded = join (
    t.format (int l.conn_timestamp)
    ∷ "-"
    ∷ t.format (int l.conn_id)
    ∷ "-"
    ∷ t.format (int l.session_id)
    ∷ "-"
    ∷ suffix kind prefer_decoded
    ∷ [])

-- `_read`: a file that is missing or cannot be read is None
unfoldable pub read_file : (String → Result Bytes) → String → Option Bytes
read_file open_file name = elim (open_file name) [ err x ↦ none | ok bytes ↦ some bytes ]

-- `raw[:2] == b"\x1f\x8b"`
abbrev pub is_gzip : Bytes → Bool
is_gzip (a ∷ b ∷ rest) = a == 0x1f && b == 0x8b
is_gzip _ = false

-- `except OSError: return raw`
abbrev pub or_raw : Bytes → Result Bytes → Result (Option Bytes)
or_raw raw (ok bytes) = ok (some bytes)
or_raw raw (err os_error) = ok (some raw)
or_raw raw (err x) = err x

module _ (t : Text) (open_file : String → Result Bytes) (decompress : Bytes → Result Bytes) where
  unfoldable pub get_request_body : BodyLookup → Option Bytes
  unfolding filename read_file
  get_request_body l = read_file open_file (filename t l req true)

  unfoldable pub get_response_raw : BodyLookup → Option Bytes
  unfolding filename read_file
  get_response_raw l = read_file open_file (filename t l res false)

  -- the bytes on the wire, decompressed if they look like gzip
  abbrev pub unzipped : Option Bytes → Result (Option Bytes)
  unzipped none = ok none
  unzipped (some raw) = if is_gzip raw then or_raw raw (decompress raw) else ok (some raw)

  abbrev pub first_body : Option Bytes → Result (Option Bytes) → Result (Option Bytes)
  first_body (some bytes) rest = ok (some bytes)
  first_body none rest = rest

  unfoldable pub get_response_body : BodyLookup → Bool → Result (Option Bytes)
  unfolding filename read_file
  get_response_body l prefer_decoded =
      let raw = unzipped (read_file open_file (filename t l res false)) in
      if prefer_decoded then first_body (read_file open_file (filename t l res true)) raw else raw

abbrev pub lookup_of : Option ℤ → Option ℤ → Option ℤ → Option BodyLookup
lookup_of (some ct) (some ci) (some sid) =
    some (record { conn_timestamp = ct; conn_id = ci; session_id = sid })
lookup_of _ _ _ = none

-- `lookup_from_record`
unfoldable pub lookup_from_record : Text → Json → Result (Option BodyLookup)
lookup_from_record t value = do
  d ← as_dict value
  sess ← section (at d "session")
  conn ← section (at sess "connection")
  let ct = at conn "timestamp"
  let ci = at conn "id"
  let sid = at sess "id"
  ok (
      if is_null ct || is_null ci || is_null sid
      then none
      else lookup_of (to_int t ct) (to_int t ci) (to_int t sid))
