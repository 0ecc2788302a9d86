-- ===== src/Export/Tests.antt =====
-- Chains of codecs, and the theorem at a concrete input.
use reqable_mcp.Prelude.{String, ◌≡◌, refl, false, none, some, [], ◌∷◌, reverse}
use reqable_mcp.Prelude.Result.{Result, ok, err, os_error, eof_error, zlib_error}
use reqable_mcp.FlatBuffers.{Bytes}
use reqable_mcp.Values
use reqable_mcp.Values.{Text}
use reqable_mcp.Export.{
  Codecs, decode_one, codecs_of, walk_content_encoding, content_encoding_from, undone, refused,
}
use reqable_mcp.Export.Chains.{encode_all, walk_content_encoding-encode_all}

abbrev text : Text
text = record { format = λ j. ""; parse_int = λ s. none; strip = λ s. s }

-- a codec that puts a byte before the others, and raises where it is missing
abbrev tail : Bytes → Result Bytes
tail [] = err os_error
tail (b ∷ bs) = ok bs

abbrev codecs : Codecs
codecs = record {
  gzip = tail;
  zlib = λ bytes. err zlib_error;
  raw_deflate = tail;
  brotli = none;
  zstd = some (λ bytes. err eof_error);
  lower = λ s. s;
  decode_utf8 = λ bytes. none;
  base64 = λ bytes. "";
}

steps :
    (decode_one text codecs (1 ∷ 2 ∷ []) "gzip" ≡ ok (undone (2 ∷ [])))
    × (decode_one text codecs [] "gzip" ≡ ok refused)
    × (decode_one text codecs (1 ∷ []) "deflate" ≡ ok (undone []))
    × (decode_one text codecs (1 ∷ []) "br" ≡ ok refused)
    × (decode_one text (record codecs { gzip = λ bytes. err eof_error }) (1 ∷ []) "gzip"
        ≡ err eof_error)
unfolding decode_one
steps = (refl, refl, refl, refl, refl)

split_two : codecs_of text codecs "gzip,,deflate" ≡ "gzip" ∷ "deflate" ∷ []
unfolding codecs_of
split_two = refl

found :
    content_encoding_from text codecs (":status:200" ∷ "x" ∷ "content-encoding:gzip" ∷ [])
    ≡ some "gzip"
unfolding content_encoding_from Values.split_header
found = refl

abbrev put_one : String → Bytes → Bytes
put_one codec bytes = 1 ∷ bytes

walk_content_encoding-encode_all_example :
    walk_content_encoding text codecs
      (encode_all put_one (codecs_of text codecs "gzip,deflate") (5 ∷ []))
      (some "gzip,deflate")
    ≡ ok (record {
      out = 5 ∷ [];
      applied = reverse (codecs_of text codecs "gzip,deflate");
      failed = false;
    })
unfolding codecs_of encode_all decode_one
walk_content_encoding-encode_all_example =
    walk_content_encoding-encode_all text codecs put_one "gzip,deflate" (5 ∷ [])
      (λ bytes. refl, (λ bytes. refl, tt)) refl
