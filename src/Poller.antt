-- ===== src/Poller.antt =====
-- sources/lmdb_source.py: the rows that the captures of Reqable's database become. The base64, gzip and
-- JSON decoders and the decoding of text are parameters, which return or raise.
pub mod Decode
pub mod Scan
pub mod Loop
pub mod Cursor
pub mod Exact
pub mod Raising
pub mod Shape
pub mod Fresh
pub mod Runs
pub mod Waiting
pub mod Fetching
pub mod Backoff
mod Tests
use text.Mathlib.Text.{starts_with}
use reqable_mcp.Prelude.{
  ℕ, ◌+◌, ◌-◌, ◌*◌, ◌/◌, ◌^◌, String, Bool, true, false, not, ◌&&◌, ◌||◌, Option, none, some, List,
  [], ◌∷◌, take, str_eq, ltb, leb, is_some, if◌then◌else◌,
}
use reqable_mcp.Prelude.Int.{ℤ, pos, negsuc, pos_part, neg_part, sub_ℕ, leb_ℤ}
use reqable_mcp.Prelude.Result.{
  Result, ok, err, type_error, attribute_error, runtime_error, ◌>>=◌, ◌>>◌, raise_if,
}
use reqable_mcp.Prelude.Dict
use reqable_mcp.Prelude.Dict.{Dict}
use reqable_mcp.Json.{Json, null, bool, int, str, arr, to_list, of_list}
use reqable_mcp.Python.{Python}
use reqable_mcp.FlatBuffers.{Bytes}
use reqable_mcp.Schema.{Property, Entity}
use reqable_mcp.Values.{
  Text, at, is_true, is_null, or_else, as_dict, section, iterate, to_int, after_colon, prefix, join,
}
use reqable_mcp.WaitQueue.{Capture}

pub record Codec : Type 0 where
  pub b64decode : Bytes → Result Bytes
  pub decompress : Bytes → Result Bytes
  pub loads : Bytes → Result Json
  pub decode : Bytes → String

-- the fields of the vtable that are read
pub record Columns : Type 0 where
  pub vt_id : ℤ
  pub vt_uid : ℤ
  pub vt_timestamp : Option ℤ
  pub vt_dbdata : ℤ

-- `{p.name: p.vt_index for p in ent.properties}`
unfoldable pub indices : List Property → Dict ℤ → Dict ℤ
indices [] d = d
indices (p ∷ ps) d = indices ps (Dict.put d p.name p.vt_index)

required : Option ℤ → Result ℤ
required none = err runtime_error
required (some i) = ok i

-- the constructor of `LmdbSource`
unfoldable pub columns_of : Dict Entity → Result Columns
unfolding indices required
columns_of schema = elim (Dict.get schema "CaptureRecordHistoryEntity") [
  | none ↦ err runtime_error
  | some ent ↦
      let vti = indices ent.properties [] in
      do
        vt_id ← required (Dict.get vti "id")
        vt_uid ← required (Dict.get vti "uid")
        vt_dbdata ← required (Dict.get vti "dbData")
        ok (record {
          vt_id = vt_id;
          vt_uid = vt_uid;
          vt_timestamp = Dict.get vti "timestamp";
          vt_dbdata = vt_dbdata;
        })
]

-- the lines of the loop of `_find_header`
unfoldable pub find_in : Python → Text → String → List Json → Result Json
find_in py t needle [] = ok null
find_in py t needle (str h ∷ hs) =
    let rest = find_in py t needle hs in
    if starts_with (py.lower h) needle
    then ok (or_else (str (t.strip (after_colon h))) null)
    else rest
find_in py t needle (h ∷ hs) = err attribute_error

-- `_find_header`
unfoldable pub find_header : Python → Text → Json → String → Result Json
unfolding find_in
find_header py t headers name = do
  hs ← iterate headers
  find_in py t (py.lower (join (name ∷ ":" ∷ []))) hs

-- the port: an int, or None
unfoldable pub port_of : Text → Json → Json
port_of t null = null
port_of t (str s) =
    if str_eq s "" then null else elim (t.parse_int s) [ none ↦ null | some n ↦ int n ]
port_of t raw = elim (to_int t raw) [ none ↦ null | some n ↦ int n ]

-- the milliseconds from one time in microseconds to a later one
unfoldable pub millis : Option ℤ → Option ℤ → Json
millis (some end_us) (some start_us) =
    if leb_ℤ start_us end_us
    then int
        (pos ((pos_part end_us + neg_part start_us - (pos_part start_us + neg_part end_us)) / 1000))
    else null
millis _ _ = null

unfoldable pub rtt_of : Text → Json → Json → Json
unfolding millis
rtt_of t start end_ts =
    if is_true start && is_true end_ts then millis (to_int t end_ts) (to_int t start) else null

-- `url[:160]`, where a dictionary and a number raise
unfoldable pub cut_160 : Json → Result Json
cut_160 (str s) = ok (str (prefix 160 s))
cut_160 (arr vs) = ok (arr (of_list (take 160 (to_list vs))))
cut_160 _ = err type_error

-- a value above 10^15 is taken for microseconds
unfoldable pub to_millis : ℕ → ℕ
to_millis ts_us = if ltb (10 ^ 15) ts_us then ts_us / 1000 else ts_us

-- `int(bool(x))`
abbrev pub flag : Json → Json
flag x = int (pos (if is_true x then 1 else 0))

-- the sections of a capture's JSON
pub record Sections : Type 0 where
  pub top : Dict Json
  pub conn : Dict Json
  pub req : Dict Json
  pub res : Dict Json
  pub rline : Dict Json
  pub sline : Dict Json

unfoldable pub sections : Json → Result Sections
sections value = do
  top ← as_dict value
  sess ← section (at top "session")
  req ← section (at sess "request")
  res ← section (at sess "response")
  conn ← section (at sess "connection")
  rline ← section (at req "requestLine")
  sline ← section (at res "statusLine")
  ok (record { top = top; conn = conn; req = req; res = res; rline = rline; sline = sline })

module _ (py : Python) (t : Text) (s : Sections) where
  open s use {top, conn, req, res, rline, sline}

  abbrev scheme : String
  scheme = if is_true (at conn "security") then "https" else "http"

  abbrev host : Json
  host = or_else (at conn "originHost") (str "")

  abbrev path : Json
  path = or_else (at rline "path") (str "")

  abbrev pub url : Json
  url =
      if is_true host
      then str (join (scheme ∷ "://" ∷ t.format host ∷ t.format path ∷ []))
      else path

  abbrev method : Json
  method = at rline "method"

  abbrev status : Json
  status = at sline "code"

  -- `x or []`
  abbrev pub headers_in : Dict Json → Json
  headers_in d = or_else (at d "headers") (arr (of_list []))

  -- the dictionary that is returned
  abbrev row : ℕ → String → ℕ → Json → Json → Json → Dict Json → Capture
  row ob_id uid ts_us req_mime res_mime short app =
      ("uid", str uid)
      ∷ ("ob_id", int (pos ob_id))
      ∷ ("ts", int (pos (to_millis ts_us)))
      ∷ ("scheme", if is_true host then str scheme else null)
      ∷ ("host", or_else host null)
      ∷ ("port", port_of t (at conn "originPort"))
      ∷ ("url", or_else url null)
      ∷ ("path", or_else path null)
      ∷ ("method", method)
      ∷ ("status", status)
      ∷ ("protocol", or_else (at rline "protocol") (at sline "protocol"))
      ∷ ("req_mime", req_mime)
      ∷ ("res_mime", res_mime)
      ∷ ("app_name", at app "name")
      ∷ ("app_id", at app "id")
      ∷ ("app_path", at app "path")
      ∷ ("req_body_size", at req "bodySize")
      ∷ ("res_body_size", at res "bodySize")
      ∷ ("rtt_ms", rtt_of t (at req "startTimestamp") (at res "endTimestamp"))
      ∷ ("comment", or_else (or_else (at top "comment") null) null)
      ∷ ("ssl_bypassed", flag (at top "sslBypassed"))
      ∷ ("has_error", flag (at top "error"))
      ∷ ("source", str "lmdb")
      ∷ (
        "raw_summary",
        str (
            join (
              t.format (or_else method (str "?"))
              ∷ " "
              ∷ t.format short
              ∷ " -> "
              ∷ t.format (if is_null status then str "?" else status)
              ∷ [])),
      )
      ∷ []

  -- `_project_record` once it has the sections
  unfoldable pub project_sections : ℕ → String → ℕ → Result Capture
  unfolding find_header port_of rtt_of cut_160 to_millis
  project_sections ob_id uid ts_us = do
    req_mime ← find_header py t (headers_in req) "content-type"
    res_mime ← find_header py t (headers_in res) "content-type"
    short ← cut_160 url
    app ← section (at top "appInfo")
    ok (row ob_id uid ts_us req_mime res_mime short app)

-- `_project_record`
unfoldable pub project_record : Python → Text → ℕ → String → ℕ → Json → Result Capture
unfolding sections project_sections
project_record py t ob_id uid ts_us value = do
  s ← sections value
  project_sections py t s ob_id uid ts_us
