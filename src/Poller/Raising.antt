-- ===== src/Poller/Raising.antt =====
-- What a scan that raises leaves as it was.
use reqable_mcp.Prelude.{ℕ, ◌≡◌, refl, sym, ap, List, [], ◌∷◌}
use reqable_mcp.Prelude.Result.{Result, ok, err, Error}
use reqable_mcp.FlatBuffers.{Bytes}
use reqable_mcp.WaitQueue.{Capture}
use reqable_mcp.Database.{Database}
use reqable_mcp.Poller.Decode.{Setting}
use reqable_mcp.Poller.Scan.{
  LmdbSource, walk, max_ob, save, committed, store_new, scan_once, add_failures,
}
use reqable_mcp.Poller.Exact.{values_in, decode_all, walk-decode_all}

module _ (e : Setting) where
  committed-err :
      (recs : List (ℕ × Capture)) (max : ℕ) (src src' : LmdbSource) (r : Result Database)
      (x : Error) (handed : List Capture)
      → committed recs max src r ≡ (err x, src', handed)
      → (src' ≡ src) × (handed ≡ [])
  committed-err recs max src src' (err y) x handed h =
      (sym (ap (λ t. t.1) h), sym (ap (λ t. t.2) h))
  committed-err recs max src src' (ok db) x handed h = absurd (cc)

  store_new-err :
      (found : Result (List (ℕ × Capture))) (now : ℕ) (src src' : LmdbSource) (x : Error)
      (handed : List Capture)
      → store_new e now src found ≡ (err x, src', handed)
      → (src' ≡ src) × (handed ≡ [])
  store_new-err (err y) now src src' x handed h = (sym (ap (λ t. t.1) h), sym (ap (λ t. t.2) h))
  store_new-err (ok []) now src src' x handed h = absurd (cc)
  store_new-err (ok (rec ∷ recs)) now src src' x handed h =
      let max = max_ob src.stats.last_seen_ob_id (rec ∷ recs) in
      committed-err (rec ∷ recs) max src src' (save e (rec ∷ recs) max now src.db) x handed h

  -- A scan that raises leaves the cache, the cursor and the number of new records as they were, and hands
  -- nothing on.
  pub scan_once-raised :
      (entries : List (Bytes × Bytes)) (now : ℕ) (src src' : LmdbSource) (x : Error)
      (handed : List Capture)
      → scan_once e entries now src ≡ (err x, src', handed)
      → (src'.db ≡ src.db)
        × (src'.stats.last_seen_ob_id ≡ src.stats.last_seen_ob_id)
        × (src'.stats.new_records ≡ src.stats.new_records)
        × (handed ≡ [])
  unfolding scan_once
  scan_once-raised entries now src src' x handed h =
      let (failures, found) = walk e src.stats.last_seen_ob_id entries in
      let (same, nothing) = store_new-err found now (add_failures failures src) src' x handed h in
      (
        ap (λ s. s.db) same,
        ap (λ s. s.stats.last_seen_ob_id) same,
        ap (λ s. s.stats.new_records) same,
        nothing,
      )

  -- A value whose projection raises stops every scan that comes to it: whatever the cursor and the clock,
  -- the scan raises, and so it stores and hands on nothing, the records before and after it included.
  pub scan_once-stuck :
      (entries : List (Bytes × Bytes)) (x : Error)
      → (decode_all e (values_in entries)).1 ≡ err x
      → (now : ℕ) (src : LmdbSource)
      → ((scan_once e entries now src).0 ≡ err x)
        × ((scan_once e entries now src).1.db ≡ src.db)
        × ((scan_once e entries now src).2 ≡ [])
  unfolding scan_once
  scan_once-stuck entries x h now src =
      rw (walk-decode_all e src.stats.last_seen_ob_id entries) (rw h (refl, refl, refl))
