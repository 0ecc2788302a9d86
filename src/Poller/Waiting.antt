-- ===== src/Poller/Waiting.antt =====
-- daemon.py: `_notify_waiters`, the callback of the source, and what the waits on captures get.
use reqable_mcp.Prelude.{ℕ, String, ◌≡◌, refl, ap, ◌∙◌, List, [], ◌∷◌, filter}
use reqable_mcp.Prelude.Result.{ok}
use reqable_mcp.FlatBuffers.{Bytes}
use reqable_mcp.WaitQueue.{Capture, FilterSpec}
use reqable_mcp.WaitQueue.Waiters
use reqable_mcp.WaitQueue.Waiters.{WaitQueue}
use reqable_mcp.WaitQueue.Calls
use reqable_mcp.WaitQueue.Calls.{Call}
use reqable_mcp.WaitQueue.Delivery.{notified, first_match, Spared, wait_end-first_match}
use reqable_mcp.Poller.Decode.{Setting}
use reqable_mcp.Poller.Scan.{LmdbSource, captures_of, scan_once}
use reqable_mcp.Poller.Exact.{newer, values_in, decode_all, scan_once-IsStored}

-- the calls that the callback makes
abbrev pub notifications : List Capture → List Call
notifications [] = []
notifications (c ∷ cs) = Call.notify c ∷ notifications cs

notified-notifications : (cs : List Capture) → notified (notifications cs) ≡ cs
unfolding notified
notified-notifications [] = refl
notified-notifications (c ∷ cs) = ap (◌∷◌ c) (notified-notifications cs)

notifications-Spared :
    (id : String) (created : ℕ) (cs : List Capture) → Spared id created (notifications cs)
notifications-Spared id created [] = tt
notifications-Spared id created (c ∷ cs) = (refl, notifications-Spared id created cs)

module _ (e : Setting) where
  -- A wait that is registered before a scan that returns gets, of the captures in the database that are
  -- newer than the cursor and decode, the first in the order of the keys that its filter passes, unless the
  -- filter raises on one before it; so if there is one, the wait returns it.
  pub scan_once-wait_end :
      (entries : List (Bytes × Bytes)) (now : ℕ) (src : LmdbSource) (n : ℕ)
      → (scan_once e entries now src).0 ≡ ok n
      → (spec : FilterSpec) (id : String) (created : ℕ) (q : WaitQueue)
      → (recs : List (ℕ × Capture)) × ((decode_all e (values_in entries)).1 ≡ ok recs)
        × ((Waiters.wait_end id (
              Calls.run e.py
                (notifications (scan_once e entries now src).2)
                (Waiters.add spec id created q))).0
            ≡ first_match e.py spec (captures_of (filter (newer src.stats.last_seen_ob_id) recs)))
  scan_once-wait_end entries now src n returned spec id created q =
      let s = scan_once e entries now src in
      let (recs, decoded, stored, _) =
        scan_once-IsStored e entries now src s.1 n s.2 (λ i. (returned i, s.1, s.2)) in
      (
        recs,
        decoded,
        (wait_end-first_match e.py id spec created (notifications s.2) q
              (notifications-Spared id created s.2)).0
            ∙ ap (first_match e.py spec) (notified-notifications s.2 ∙ stored.callback),
      )
