-- ===== src/Ipc/Connections.antt =====
-- One connection from its first byte to its end.
use reqable_mcp.Prelude.{
  ◌+◌, ◌≡◌, ◌≢◌, ◌↔◌, refl, sym, ap, ◌∙◌, Bool, true, false, Option, none, some, List, arith, inl,
  inr, if◌then◌else◌,
}
use reqable_mcp.Prelude.Result.{Result, ok, err, Error, invalid_message, unicode_error}
use reqable_mcp.Ipc.{Bytes, Loaded, Request, request_of, decode_message}
use reqable_mcp.Ipc.Server.{
  End, Counters, Sent, protocol_error, handler_error, read_line, answer, serve, handle_line,
  handle_one,
}
use reqable_mcp.Ipc.Answers.{IsUnreadable, guarded, decode-error}

-- whether a protocol error, or a handler's error, was sent
abbrev pub was_invalid : {R : Type 0} → Result (Sent R) → Bool
was_invalid (ok protocol_error) = true
was_invalid _ = false

abbrev pub was_error : {R : Type 0} → Result (Sent R) → Bool
was_error (ok handler_error) = true
was_error _ = false

module _ {S : Type 0} {R : Type 0} (loads : Bytes → Loaded) (handler : Request → S → Result R × S)
    (n : Counters) (s : S) where
  answer-ne-err : (r : Result R × S) (e : Error) → (answer loads handler r n).0 ≢ err e
  unfolding answer
  answer-ne-err (ok r, s') e h = absurd (cc)
  answer-ne-err (err x, s') e h = absurd (cc)

  serve-error :
      (r : Result Request) (e : Error)
      → (serve loads handler r n s).0 ≡ err e
      → (r ≡ err e) × (e ≢ invalid_message)
  unfolding serve
  serve-error (ok req) e h = absurd (answer-ne-err (handler req s) e h)
  serve-error (err invalid_message) e h = absurd (cc)
  serve-error (err x) e h = (cc, λ q. absurd (cc))

  handle_line-error :
      (o : Option Bytes) (e : Error)
      → (handle_line loads handler o n s).0 ≡ err e
      → (line : Bytes) × (o ≡ some line) × IsUnreadable loads line × (e ≡ unicode_error)
  unfolding handle_line
  handle_line-error none e h = absurd (cc)
  handle_line-error (some line) e h =
      let (failed, other) = serve-error (decode_message loads line) e h in
      elim (decode-error loads line e failed) [
        | inl invalid ↦ absurd (other invalid)
        | inr (unreadable, same) ↦ (line, refl, unreadable, same)
      ]

  unreadable-error :
      (line : Bytes)
      → IsUnreadable loads line
      → (handle_line loads handler (some line) n s).0 ≡ err unicode_error
  unfolding handle_line serve request_of
  unreadable-error line u =
      ap (λ r. (serve loads handler r n s).0)
        (guarded loads line u.short u.some_bytes ∙ ap request_of u.not_text)

  -- An exception ends the thread of a connection, with nothing sent, exactly when a line was read that
  -- is within the cap and not empty but is not UTF-8; every other connection is served to its end, an
  -- exception of the handler included.
  pub raises_iff :
      (chunks : List Bytes) (end : End) (e : Error)
      → ((handle_one loads handler chunks end n s).0 ≡ err e) ↔ (
          (line : Bytes) × (read_line chunks end ≡ some line)
          × IsUnreadable loads line
          × (e ≡ unicode_error))
  unfolding handle_one
  raises_iff chunks end e = (
    handle_line-error (read_line chunks end) e,
    λ (line, read, u, same).
        ap (λ o. (handle_line loads handler o n s).0) read
        ∙ unreadable-error line u
        ∙ ap err (sym same),
  )

  -- what a connection adds to the counters
  abbrev Counted : Result (Sent R) × Counters × S → Type 0
  Counted o =
      (o.1.invalid_total ≡ n.invalid_total + (if was_invalid o.0 then 1 else 0))
      × (o.1.error_total ≡ n.error_total + (if was_error o.0 then 1 else 0))

  answer-Counted : (r : Result R × S) → Counted (answer loads handler r n)
  unfolding answer
  answer-Counted (ok r, s') = (omega arith, omega arith)
  answer-Counted (err x, s') = (omega arith, omega arith)

  serve-Counted : (r : Result Request) → Counted (serve loads handler r n s)
  unfolding serve
  serve-Counted (ok req) = answer-Counted (handler req s)
  serve-Counted (err invalid_message) = (omega arith, omega arith)
  serve-Counted (err x) = (omega arith, omega arith)

  handle_line-Counted : (o : Option Bytes) → Counted (handle_line loads handler o n s)
  unfolding handle_line
  handle_line-Counted none = (omega arith, omega arith)
  handle_line-Counted (some line) = serve-Counted (decode_message loads line)

  -- The counters tell what was sent: one more invalid frame for each protocol error, and one more error
  -- for each exception of the handler.
  pub counts_sent :
      (chunks : List Bytes) (end : End)
      → let o = handle_one loads handler chunks end n s in
        (o.1.invalid_total ≡ n.invalid_total + (if was_invalid o.0 then 1 else 0))
        × (o.1.error_total ≡ n.error_total + (if was_error o.0 then 1 else 0))
  unfolding handle_one
  counts_sent chunks end = handle_line-Counted (read_line chunks end)
