-- ===== src/Poller/Scan.antt =====
-- sources/lmdb_source.py: the scan of the captures, the read of one, and the loop that polls. LMDB is a
-- parameter: the entries from the first key that is not before the prefix on, and the value of a key.
use reqable_mcp.Prelude.{
  ℕ, ◌+◌, not, Option, none, some, List, [], ◌∷◌, length, ltb, leb, if◌then◌else◌,
}
use reqable_mcp.Prelude.Result.{Result, ok, err, ◌>>=◌}
use reqable_mcp.FlatBuffers.{Bytes}
use reqable_mcp.WaitQueue.{Capture}
use reqable_mcp.Database.{Database, upsert_each, set_sync_cursor}
use reqable_mcp.Poller.Decode.{Setting, is_capture_key, decode_value}

pub record LmdbSourceStats : Type 0 where
  pub polls : ℕ
  pub new_records : ℕ
  pub decode_failures : ℕ
  pub last_seen_ob_id : ℕ
  pub last_poll_ts_ms : ℕ

pub record LmdbSource : Type 0 where
  pub stats : LmdbSourceStats
  pub db : Database

-- the record that is newer than the cursor, before those of the rest
abbrev pub keep_new : ℕ → Option (ℕ × Capture) → List (ℕ × Capture) → List (ℕ × Capture)
keep_new cursor none rest = rest
keep_new cursor (some (ob_id, rec)) rest = if leb ob_id cursor then rest else (ob_id, rec) ∷ rest

-- one round of the loop: an exception ends it, with the failures that were counted before
abbrev pub visited :
    ℕ
    → ℕ × Result (Option (ℕ × Capture))
    → ℕ × Result (List (ℕ × Capture))
    → ℕ × Result (List (ℕ × Capture))
visited cursor (n, err x) rest = (n, err x)
visited cursor (n, ok found) (m, rest) = (n + m, do recs ← rest; ok (keep_new cursor found recs))

-- `max_ob` after the loop
unfoldable pub max_ob : ℕ → List (ℕ × Capture) → ℕ
max_ob m [] = m
max_ob m ((ob_id, rec) ∷ recs) = max_ob (if ltb m ob_id then ob_id else m) recs

abbrev pub captures_of : List (ℕ × Capture) → List Capture
captures_of [] = []
captures_of ((ob_id, rec) ∷ recs) = rec ∷ captures_of recs

-- what a scan gives: its result, the source after it, and the captures that the callback got, in order
abbrev pub Scanned : Type 0
Scanned = Result ℕ × LmdbSource × List Capture

abbrev pub committed : List (ℕ × Capture) → ℕ → LmdbSource → Result Database → Scanned
committed recs max src (err x) = (err x, src, [])
committed recs max src (ok db) = (
  ok (length recs),
  record {
    stats = record src.stats {
      new_records = src.stats.new_records + length recs;
      last_seen_ob_id = max;
    };
    db = db;
  },
  captures_of recs,
)

abbrev pub add_failures : ℕ → LmdbSource → LmdbSource
add_failures n src = record src {
  stats = record src.stats { decode_failures = src.stats.decode_failures + n };
}

module _ (e : Setting) where
  open e use {affinity}

  -- the loop over the entries: the failures counted, and the new records
  unfoldable pub walk : ℕ → List (Bytes × Bytes) → ℕ × Result (List (ℕ × Capture))
  unfolding decode_value
  walk cursor [] = (0, ok [])
  walk cursor ((key, value) ∷ entries) =
      let rest = walk cursor entries in
      if not (is_capture_key key)
      then (0, ok [])
      else if ltb (length value) 32
      then rest
      else visited cursor (decode_value e value) rest

  -- the transaction
  unfoldable pub save : List (ℕ × Capture) → ℕ → ℕ → Database → Result Database
  save recs max now db = do
    db' ← upsert_each affinity (captures_of recs) db
    set_sync_cursor "lmdb" max now now db'

  abbrev pub store_new : ℕ → LmdbSource → Result (List (ℕ × Capture)) → Scanned
  store_new now src (err x) = (err x, src, [])
  store_new now src (ok []) = (ok 0, src, [])
  store_new now src (ok (rec ∷ recs)) =
      let max = max_ob src.stats.last_seen_ob_id (rec ∷ recs) in
      committed (rec ∷ recs) max src (save (rec ∷ recs) max now src.db)

  -- `_scan_once_unsafe`, with one reading of the clock
  unfoldable pub scan_once : List (Bytes × Bytes) → ℕ → LmdbSource → Scanned
  unfolding walk max_ob save
  scan_once entries now src =
      let (failures, found) = walk src.stats.last_seen_ob_id entries in
      store_new now (add_failures failures src) found
