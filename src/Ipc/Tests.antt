-- ===== src/Ipc/Tests.antt =====
-- Runs of the protocol, and the theorems at concrete inputs, with a reader that takes any bytes but
-- those that begin with 255 for one request.
use reqable_mcp.Prelude.{
  ℕ, ◌+◌, ◌==◌, String, ◌≡◌, refl, some, List, [], ◌∷◌, ◌++◌, All, arith, if◌then◌else◌,
}
use reqable_mcp.Prelude.Int.{pos}
use reqable_mcp.Prelude.Result.{Result, ok, err, unicode_error}
use reqable_mcp.Prelude.Dict
use reqable_mcp.Json.{Fields, int, str, obj}
use reqable_mcp.WaitQueue.{is_number}
use reqable_mcp.Ipc.{
  Bytes, Request, Loaded, loaded, not_json, not_utf8, newline, request_of, decode_message,
}
use reqable_mcp.Ipc.Server.{closed, Counters, response, read_line, handle_one}
use reqable_mcp.Ipc.Framing.{IsChunk, read_line-frame}

abbrev fields : Fields
fields = Fields.field "v" (int (pos 1)) (Fields.field "op" (str "get_rules") Fields.end)

abbrev loads : Bytes → Loaded
loads [] = not_json
loads (b ∷ bs) = if b == 255 then not_utf8 else loaded (obj fields)

abbrev wanted : Request
wanted = record { op = "get_rules"; args = [] }

abbrev zero_counters : Counters
zero_counters = record { invalid_total = 0; error_total = 0 }

abbrev handler : Request → ℕ → Result String × ℕ
handler req s = (ok req.op, s + 1)

abbrev chunks : List Bytes
chunks = (1 ∷ 2 ∷ []) ∷ (3 ∷ []) ∷ (4 ∷ newline ∷ []) ∷ []

answered : (handle_one loads handler chunks closed zero_counters 0).0 ≡ ok (response "get_rules")
unfolding handle_one decode_message read_line Dict.get is_number
answered = refl

are_chunks : All IsChunk chunks
are_chunks =
    ((omega arith, omega arith), ((omega arith, omega arith), ((omega arith, omega arith), tt)))

read_chunks : read_line chunks closed ≡ some (1 ∷ 2 ∷ 3 ∷ 4 ∷ newline ∷ [])
unfolding read_line
read_chunks = refl

read_line-frame_example :
    (read_line chunks closed ≡ some ((1 ∷ 2 ∷ 3 ∷ 4 ∷ []) ++ newline ∷ []))
    × (decode_message loads ((1 ∷ 2 ∷ 3 ∷ 4 ∷ []) ++ newline ∷ [])
        ≡ request_of (loads (1 ∷ 2 ∷ 3 ∷ 4 ∷ [])))
read_line-frame_example =
    read_line-frame loads chunks (1 ∷ 2 ∷ 3 ∷ 4 ∷ []) closed are_chunks refl refl (omega arith)
      (omega arith)

abbrev bad : List Bytes
bad = (255 ∷ newline ∷ []) ∷ []

bad_raises : (handle_one loads handler bad closed zero_counters 0).0 ≡ err unicode_error
unfolding handle_one decode_message read_line
bad_raises = refl
