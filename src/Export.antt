-- ===== src/Export.antt =====
-- tools/export.py: the decoding of bodies. The decompressors are parameters, which return or raise; `none` is
-- a codec that is not installed. Header lists are lists of texts, as the code declares them.
pub mod Chains
mod Tests
use Prim.Native.String.{◌++◌ as str_append}
use reqable_mcp.Prelude.{
  ℕ, String, Bool, true, false, not, ◌&&◌, ◌||◌, Option, none, some, List, [], ◌∷◌, ◌++◌, reverse,
  length, str_eq, ◌==◌, is_some, if◌then◌else◌,
}
use reqable_mcp.Prelude.Result.{Result, ok, err, Error, os_error, zlib_error, ◌>>=◌}
use reqable_mcp.FlatBuffers.{Bytes}
use reqable_mcp.Values.{Text, split_header}

pub record Codecs : Type 0 where
  pub gzip : Bytes → Result Bytes
  pub zlib : Bytes → Result Bytes
  pub raw_deflate : Bytes → Result Bytes
  pub brotli : Option (Bytes → Result Bytes)
  pub zstd : Option (Bytes → Result Bytes)
  pub lower : String → String
  pub decode_utf8 : Bytes → Option String
  pub base64 : Bytes → String

-- `(bytes, None)` or `(None, error)`
pub data Step : Type 0 where
  undone : Bytes → Step
  refused : Step

-- `try: return decompress(data), None; except OSError: return None, ...`
abbrev pub on_os_error : Result Bytes → Result Step
on_os_error (ok bytes) = ok (undone bytes)
on_os_error (err os_error) = ok refused
on_os_error (err x) = err x

abbrev pub on_zlib_error : Result Step → Result Bytes → Result Step
on_zlib_error other (ok bytes) = ok (undone bytes)
on_zlib_error other (err zlib_error) = other
on_zlib_error other (err x) = err x

-- `except Exception`, for a codec that may be missing
abbrev pub optional : Option (Bytes → Result Bytes) → Bytes → Step
optional none bytes = refused
optional (some f) bytes = elim (f bytes) [ err x ↦ refused | ok out ↦ undone out ]

-- what `_walk_content_encoding` returns: the bytes, the chain, and whether there is an error
pub record Walked : Type 0 where
  pub out : Bytes
  pub applied : List String
  pub failed : Bool

abbrev is_comma : String → Bool
is_comma s = str_eq s ","

abbrev onto_first : String → List String → List String
onto_first c [] = c ∷ []
onto_first c (s ∷ ss) = str_append c s ∷ ss

-- `s.split(",")`
unfoldable pub split_commas : String → List String
split_commas String.[] = "" ∷ []
split_commas (String.◌∷◌ c s) =
    let rest = split_commas s in
    if is_comma (String.◌∷◌ c String.[])
    then "" ∷ rest
    else onto_first (String.◌∷◌ c String.[]) rest

module _ (t : Text) (c : Codecs) where
  -- `_decode_one`
  unfoldable pub decode_one : Bytes → String → Result Step
  decode_one bytes name =
      let codec = c.lower (t.strip name) in
      if str_eq codec "identity" || str_eq codec ""
      then ok (undone bytes)
      else if str_eq codec "gzip" || str_eq codec "x-gzip"
      then on_os_error (c.gzip bytes)
      else if str_eq codec "deflate"
      then on_zlib_error (on_zlib_error (ok refused) (c.raw_deflate bytes)) (c.zlib bytes)
      else if str_eq codec "br"
      then ok (optional c.brotli bytes)
      else if str_eq codec "zstd"
      then ok (optional c.zstd bytes)
      else ok refused

  -- `[c.strip() for c in content_encoding.split(",") if c.strip()]`
  unfoldable pub stripped : List String → List String
  stripped [] = []
  stripped (s ∷ ss) =
      let rest = stripped ss in if str_eq (t.strip s) "" then rest else t.strip s ∷ rest

  unfoldable pub codecs_of : String → List String
  unfolding split_commas stripped
  codecs_of content_encoding = stripped (split_commas content_encoding)

  -- the loop over the codecs, in the order in which they are undone
  unfoldable pub undo_each : List String → Bytes → List String → Result Walked
  undo_each [] out applied = ok (record { out = out; applied = applied; failed = false })
  undo_each (codec ∷ codecs) out applied = do
    step ← decode_one out codec
    elim step [
      | refused ↦ ok (record { out = out; applied = applied; failed = true })
      | undone next ↦ undo_each codecs next (applied ++ codec ∷ [])
    ]

  abbrev unchanged : Bytes → Walked
  unchanged raw = record { out = raw; applied = []; failed = false }

  -- `_walk_content_encoding`
  unfoldable pub walk_content_encoding : Bytes → Option String → Result Walked
  unfolding codecs_of undo_each
  walk_content_encoding raw none = ok (unchanged raw)
  walk_content_encoding raw (some content_encoding) =
      if str_eq content_encoding "" || length raw == 0
      then ok (unchanged raw)
      else undo_each (reverse (codecs_of content_encoding)) raw []

  -- the value of the first header line with a name
  unfoldable pub header_value : String → List String → Option String
  header_value name [] = none
  header_value name (h ∷ hs) =
      let rest = header_value name hs in
      elim (split_header t h) [
        | none ↦ rest
        | some (n, v) ↦ if str_eq (c.lower n) name then some v else rest
      ]

  -- `_content_encoding_from`
  unfoldable pub content_encoding_from : List String → Option String
  unfolding header_value
  content_encoding_from headers = header_value "content-encoding" headers

  -- `_decode_text`
  unfoldable pub decode_text : Bytes → String × String
  decode_text payload =
      if length payload == 0 then ("", "empty") else elim (c.decode_utf8 payload) [
        | some s ↦ (s, "utf-8")
        | none ↦ (c.base64 payload, "base64")
      ]

  pub record Decoded : Type 0 where
    pub decoded : String
    pub decoded_encoding : String
    pub original_size : ℕ
    pub decoded_size : ℕ
    pub encoding_chain : List String
    pub has_error : Bool

  -- `decode_body`, once the raw body and the header are there; `none` is the answer that there is no body
  unfoldable pub decode_body : Option Bytes → Option String → Result (Option Decoded)
  unfolding walk_content_encoding decode_text
  decode_body none ce = ok none
  decode_body (some raw) ce = do
    w ← walk_content_encoding raw ce
    ok (
        some (record {
          decoded = (decode_text w.out).0;
          decoded_encoding = (decode_text w.out).1;
          original_size = length raw;
          decoded_size = length w.out;
          encoding_chain = w.applied;
          has_error = w.failed;
        }))
