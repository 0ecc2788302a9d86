-- ===== src/Poller/Loop.antt =====
-- sources/lmdb_source.py: `start` and the loop `_run` of the poller's thread.
use reqable_mcp.Prelude.{
  ℕ, suc, Bool, true, not, Option, none, some, List, [], ◌∷◌, ◌++◌, get_elem?, ltb, ◌==◌, min,
  if◌then◌else◌,
}
use reqable_mcp.Prelude.Result.{Result, ok, err}
use reqable_mcp.FlatBuffers.{Bytes}
use reqable_mcp.WaitQueue.{Capture}
use reqable_mcp.Database.{get_sync_cursor}
use reqable_mcp.Poller.Decode.{Setting}
use reqable_mcp.Poller.Scan.{LmdbSource, Scanned, scan_once}

-- What one round of the loop reads: `env.info()["last_txnid"]`, the same once more if the round raises, the
-- entries if they are walked, and the clock.
pub record Reading : Type 0 where
  pub txnid : Result ℕ
  pub txnid_again : Result ℕ
  pub entries : List (Bytes × Bytes)
  pub now : ℕ

pub record Poller : Type 0 where
  pub source : LmdbSource
  pub idle_streak : ℕ
  pub last_txnid : Option ℕ

-- `start`: the counters go on, and the cursor is the one that the cache holds
unfoldable pub start : LmdbSource → Poller
start src = record {
  source = record src {
    stats = record src.stats { last_seen_ob_id = get_sync_cursor "lmdb" src.db };
  };
  idle_streak = 0;
  last_txnid = none;
}

abbrev pub idle_backoff_ms : List ℕ
idle_backoff_ms = 250 ∷ 250 ∷ 250 ∷ 1000 ∷ 1000 ∷ 2000 ∷ []

abbrev pub or_2000 : Option ℕ → ℕ
or_2000 none = 2000
or_2000 (some ms) = ms

-- `_IDLE_BACKOFF_MS[min(idle_streak, len(_IDLE_BACKOFF_MS) - 1)]`, where the index is in range
unfoldable pub backoff_ms : ℕ → ℕ
backoff_ms idle_streak = or_2000 (get_elem? idle_backoff_ms (min idle_streak 5))

-- `txnid != last_txnid`
abbrev pub moved : ℕ → Option ℕ → Bool
moved cur none = true
moved cur (some seen) = not (cur == seen)

-- a round that raised
abbrev pub failed : Result ℕ → Poller → Poller
failed (err x) p = record p { idle_streak = suc p.idle_streak }
failed (ok seen) p = record p { idle_streak = suc p.idle_streak; last_txnid = some seen }

-- a round that scanned
abbrev pub after_scan : ℕ → Reading → Scanned → Poller → Poller × List Capture
after_scan cur r (err x, src, recs) p = (failed r.txnid_again (record p { source = src }), recs)
after_scan cur r (ok n, src, recs) p = (
  record {
    source = src;
    idle_streak = if ltb 0 n then 0 else suc p.idle_streak;
    last_txnid = some cur;
  },
  recs,
)

module _ (e : Setting) where
  -- the `try` of a round
  unfoldable pub attempt : Reading → Result ℕ → Poller → Poller × List Capture
  attempt r (err x) p = (failed r.txnid_again p, [])
  attempt r (ok cur) p =
      if moved cur p.last_txnid
      then after_scan cur r (scan_once e r.entries r.now p.source) p
      else (record p { idle_streak = suc p.idle_streak }, [])

  -- a round of the loop: the state after it, and the captures that the callback got
  unfoldable pub poll : Reading → Poller → Poller × List Capture
  unfolding attempt
  poll r p =
      let (p', recs) = attempt r r.txnid p in
      (
        record p' {
          source = record p'.source {
            stats = record p'.source.stats {
              polls = suc p'.source.stats.polls;
              last_poll_ts_ms = r.now;
            };
          };
        },
        recs,
      )

  unfoldable pub run : List Reading → Poller → Poller × List Capture
  unfolding poll
  run [] p = (p, [])
  run (r ∷ rs) p = let (p', recs) = poll r p in let (p'', later) = run rs p' in (p'', recs ++ later)
