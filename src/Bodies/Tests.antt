-- ===== src/Bodies/Tests.antt =====
-- Bodies that are read, and the theorem at a concrete input.
use reqable_mcp.Prelude.{
  String, ◌≡◌, ◌↔◌, refl, true, false, ◌&&◌, none, some, [], ◌∷◌, is_some, str_eq, if◌then◌else◌,
}
use reqable_mcp.Prelude.Int.{pos}
use reqable_mcp.Prelude.Result.{Result, ok, err, os_error, eof_error}
use reqable_mcp.Json.{int, obj, Fields}
use reqable_mcp.FlatBuffers.{Bytes}
use reqable_mcp.Values
use reqable_mcp.Values.{Text}
use reqable_mcp.WaitQueue.{truthy}
use reqable_mcp.Prelude.Dict
use reqable_mcp.Bodies.{
  BodyLookup, res, filename, read_file, get_request_body, get_response_raw, get_response_body,
  lookup_from_record,
}
use reqable_mcp.Bodies.Reading.{IsBroken, get_response_body-err_iff}

abbrev text : Text
text = record { format = λ j. "1"; parse_int = λ s. none; strip = λ s. s }

abbrev lookup : BodyLookup
lookup = record { conn_timestamp = pos 1; conn_id = pos 1; session_id = pos 1 }

abbrev files : String → Result Bytes
files name =
    if str_eq name "1-1-1-res-raw-body.reqable" then ok (0x1f ∷ 0x8b ∷ []) else err os_error

raised : get_response_body text files (λ raw. err eof_error) lookup true ≡ err eof_error
unfolding get_response_body Values.join
raised = refl

kept_raw :
    (get_response_body text files (λ raw. err os_error) lookup true ≡ ok (some (0x1f ∷ 0x8b ∷ [])))
    × (get_request_body text files (λ raw. ok raw) lookup ≡ none)
unfolding get_response_body get_request_body Values.join
kept_raw = (refl, refl)

get_response_body-err_iff_example :
    (get_response_body text files (λ raw. err eof_error) lookup true ≡ err eof_error) ↔ (
      (true && is_some (read_file files (filename text lookup res true)) ≡ false)
      × IsBroken text files
          (λ raw. err eof_error)
          (get_response_raw text files (λ raw. err eof_error) lookup)
          eof_error)
get_response_body-err_iff_example =
    get_response_body-err_iff text files (λ raw. err eof_error) lookup true eof_error

looked_up :
    lookup_from_record text (
      obj (
        Fields.field "session"
          (obj (
            Fields.field "id" (int (pos 1)) (
              Fields.field "connection"
                (obj (
                  Fields.field "id"
                    (int (pos 1))
                    (Fields.field "timestamp" (int (pos 1)) Fields.end)))
                Fields.end)))
          Fields.end))
    ≡ ok (some lookup)
unfolding lookup_from_record Values.as_dict Values.section Values.to_int truthy Dict.get
looked_up = refl
