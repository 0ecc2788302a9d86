-- ===== src/Ipc/Server.antt =====
-- ipc/server.py: `_read_line` and `_handle_one` of `IpcServer`. The handler is a function on its own
-- state, and what a connection receives is a list: the chunks that `recv` returns, and the end.
use reqable_mcp.Prelude.{
  ℕ, ◌+◌, Bool, false, ◌||◌, Option, none, some, List, [], ◌∷◌, ◌++◌, length, ltb, ◌==◌,
  if◌then◌else◌,
}
use reqable_mcp.Prelude.Result.{Result, ok, err, invalid_message}
use reqable_mcp.Ipc.{Bytes, Request, Loaded, newline, max_message_bytes, decode_message}

-- how the chunks end: the peer closed the connection, or `recv` raised
pub data End : Type 0 where
  closed failed : End

-- `b"\n" in chunk`
abbrev pub has_newline : Bytes → Bool
has_newline [] = false
has_newline (b ∷ bs) = b == newline || has_newline bs

abbrev pub if_any : Bytes → Option Bytes
if_any [] = none
if_any (b ∷ bs) = some (b ∷ bs)

-- the loop of `_read_line`; an empty chunk is the end of the stream
unfoldable pub read_more : Bytes → List Bytes → End → Option Bytes
read_more buf [] closed = if_any buf
read_more buf [] failed = none
read_more buf ([] ∷ chunks) end = if_any buf
read_more buf ((b ∷ bs) ∷ chunks) end =
    let all = buf ++ b ∷ bs in
    let rest = read_more all chunks end in
    if has_newline (b ∷ bs)
    then some all
    else if ltb max_message_bytes (length all)
    then some all
    else rest

unfoldable pub read_line : List Bytes → End → Option Bytes
unfolding read_more
read_line chunks end = read_more [] chunks end

-- the counters that a connection changes
pub record Counters : Type 0 where
  pub invalid_total : ℕ
  pub error_total : ℕ

-- what is sent to the peer
pub data Sent (R : Type 0) : Type 0 where
  nothing : Sent R
  protocol_error : Sent R
  handler_error : Sent R
  response : R → Sent R

-- One connection: what is sent, or an exception that ends its thread.
module _ {S : Type 0} {R : Type 0} (loads : Bytes → Loaded)
    (handler : Request → S → Result R × S) where
  abbrev Outcome : Type 0
  Outcome = Result (Sent R) × Counters × S

  unfoldable pub answer : Result R × S → Counters → Outcome
  answer (ok r, s) n = (ok (response r), n, s)
  answer (err e, s) n = (ok handler_error, record n { error_total = n.error_total + 1 }, s)

  -- only `InvalidMessage` is caught
  unfoldable pub serve : Result Request → Counters → S → Outcome
  unfolding answer
  serve (ok req) n s = answer (handler req s) n
  serve (err invalid_message) n s =
      (ok protocol_error, record n { invalid_total = n.invalid_total + 1 }, s)
  serve (err e) n s = (err e, n, s)

  unfoldable pub handle_line : Option Bytes → Counters → S → Outcome
  unfolding serve
  handle_line none n s = (ok nothing, n, s)
  handle_line (some line) n s = serve (decode_message loads line) n s

  unfoldable pub handle_one : List Bytes → End → Counters → S → Outcome
  unfolding handle_line
  handle_one chunks end n s = handle_line (read_line chunks end) n s
