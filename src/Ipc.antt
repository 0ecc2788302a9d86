-- ===== src/Ipc.antt =====
-- ipc/protocol.py: the frames of the addon's requests. A frame is a list of bytes. `json.loads` of bytes
-- is a parameter: it gives a value, raises `JSONDecodeError`, or raises `UnicodeDecodeError` on bytes
-- that are no UTF-8, which is no `JSONDecodeError`.
pub mod Server
pub mod Framing
pub mod Answers
pub mod Connections
mod Tests
use reqable_mcp.Prelude.{
  ℕ, ◌*◌, String, Bool, true, false, not, Option, none, some, List, [], ◌∷◌, length, ltb, ◌==◌,
  str_eq, if◌then◌else◌,
}
use reqable_mcp.Prelude.Int.{pos}
use reqable_mcp.Prelude.Result.{
  Result, ok, err, invalid_message, unicode_error, ◌>>=◌, ◌>>◌, raise_if,
}
use reqable_mcp.Prelude.Dict
use reqable_mcp.Prelude.Dict.{Dict}
use reqable_mcp.Json.{Json, Fields, str, obj, to_dict}
use reqable_mcp.WaitQueue.{is_number, truthy}

abbrev pub Bytes : Type 0
Bytes = List ℕ

abbrev pub max_message_bytes : ℕ
max_message_bytes = 256 * 1024

abbrev pub newline : ℕ
newline = 10

pub record Request : Type 0 where
  pub op : String
  pub args : Dict Json

pub data Loaded : Type 0 where
  loaded : Json → Loaded
  not_json : Loaded
  not_utf8 : Loaded

-- `line[:-1]` if the line ends in a newline
unfoldable pub strip : Bytes → Bytes
strip [] = []
strip (b ∷ []) = if b == newline then [] else b ∷ []
strip (b ∷ c ∷ bs) = b ∷ strip (c ∷ bs)

abbrev pub is_empty : Bytes → Bool
is_empty [] = true
is_empty (b ∷ bs) = false

-- `obj.get("op")`, which has to be a text that is not empty
unfoldable pub op_of : Option Json → Result String
op_of (some (str op)) = if str_eq op "" then err invalid_message else ok op
op_of _ = err invalid_message

-- `obj.get("args") or {}`, which has to be an object
unfoldable pub args_of : Option Json → Result (Dict Json)
args_of none = ok []
args_of (some (obj fs)) = ok (to_dict fs)
args_of (some v) = if truthy (some v) then err invalid_message else ok []

unfoldable pub request_of : Loaded → Result Request
unfolding op_of args_of
request_of not_json = err invalid_message
request_of not_utf8 = err unicode_error
request_of (loaded (obj fs)) = do
  raise_if (not (is_number (Dict.get (to_dict fs) "v") (pos 1))) invalid_message
  op ← op_of (Dict.get (to_dict fs) "op")
  args ← args_of (Dict.get (to_dict fs) "args")
  ok (record { op = op; args = args })
request_of (loaded _) = err invalid_message

module _ (loads : Bytes → Loaded) where
  unfoldable pub decode_message : Bytes → Result Request
  unfolding strip request_of
  decode_message line = do
    raise_if (ltb max_message_bytes (length line)) invalid_message
    raise_if (is_empty (strip line)) invalid_message
    request_of (loads (strip line))
