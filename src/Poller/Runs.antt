-- ===== src/Poller/Runs.antt =====
-- Stretches of polling, with restarts between them.
use reqable_mcp.Prelude.{
  ℕ, ◌≤◌, ◌<◌, ◌≡◌, refl, sym, ap, ◌∙◌, List, [], ◌∷◌, ◌++◌, arith, Bool-cases, inl, inr, All,
  All-map, All-append,
}
use reqable_mcp.Prelude.Result.{Result, ok, err, Result-cases, OnOk-elim}
use reqable_mcp.FlatBuffers.{Bytes}
use reqable_mcp.WaitQueue.{Capture}
use reqable_mcp.Database.{get_sync_cursor}
use reqable_mcp.Poller.Decode.{Setting}
use reqable_mcp.Poller.Scan.{LmdbSource, Scanned, scan_once}
use reqable_mcp.Poller.Loop.{Poller, Reading, start, failed, moved, after_scan, attempt, poll, run}
use reqable_mcp.Poller.Exact.{values_in, IsSynced, scan_once-IsStored}
use reqable_mcp.Poller.Raising.{scan_once-raised}
use reqable_mcp.Poller.Fresh.{
  id_of, HasId, Within, Within-raise, Within-lower, fresh-Within, decode_all-HasId,
}

-- From one source to a later one, with what is handed on in between: the cursor never falls, the ids are
-- between the two cursors, and the cache keeps the cursor.
pub record Advances (src src' : LmdbSource) (handed : List Capture) : Type 0 where
  pub forward : src.stats.last_seen_ob_id ≤ src'.stats.last_seen_ob_id
  pub within : Within src.stats.last_seen_ob_id src'.stats.last_seen_ob_id handed
  pub synced : IsSynced src → IsSynced src'

Advances-still : (src : LmdbSource) → Advances src src []
Advances-still src = record { forward = omega arith; within = tt; synced = λ h. h }

Advances-then :
    (a b c : LmdbSource) (xs ys : List Capture)
    → Advances a b xs
    → Advances b c ys
    → Advances a c (xs ++ ys)
Advances-then a b c xs ys h k = record {
  forward = omega (arith, h.forward, k.forward);
  within =
      All-append _ xs ys
        (Within-raise a.stats.last_seen_ob_id b.stats.last_seen_ob_id c.stats.last_seen_ob_id xs
          k.forward h.within)
        (Within-lower b.stats.last_seen_ob_id a.stats.last_seen_ob_id c.stats.last_seen_ob_id ys
          h.forward k.within);
  synced = λ s. k.synced (h.synced s);
}

module _ (e : Setting) where
  scan_once-Advances :
      (entries : List (Bytes × Bytes)) (now : ℕ) (src : LmdbSource)
      → Advances src (scan_once e entries now src).1 (scan_once e entries now src).2
  scan_once-Advances entries now src =
      let scanned = scan_once e entries now src in
      elim (Result-cases scanned.0) [
        | inl (n, returned) ↦
            let (recs, decoded, stored, kept) =
              scan_once-IsStored e entries now src scanned.1 n scanned.2
                (λ i. (returned i, scanned.1, scanned.2)) in
            let low = src.stats.last_seen_ob_id in
            record {
              forward = stored.cursor.forward;
              within = rw stored.callback (
                  fresh-Within low scanned.1.stats.last_seen_ob_id recs
                    (OnOk-elim (All HasId) _ recs (decode_all-HasId e (values_in entries)) decoded)
                    stored.cursor.bounds);
              synced = kept;
            }
        | inr (x, raised) ↦
            let (db, cursor, _, nothing) =
              scan_once-raised e entries now src scanned.1 x scanned.2
                (λ i. (raised i, scanned.1, scanned.2)) in
            record {
              forward = omega (arith, cursor);
              within = rw nothing tt;
              synced = λ h. ap (get_sync_cursor "lmdb") db ∙ h ∙ sym cursor;
            }
      ]

  failed-source : (r : Result ℕ) (p : Poller) → (failed r p).source ≡ p.source
  failed-source (err x) p = refl
  failed-source (ok n) p = refl

  after_scan-Advances :
      (cur : ℕ) (r : Reading) (s : Scanned) (p : Poller)
      → Advances p.source s.1 s.2
      → Advances p.source (after_scan cur r s p).0.source (after_scan cur r s p).1
  after_scan-Advances cur r (ok n, src, recs) p h = h
  after_scan-Advances cur r (err x, src, recs) p h =
      rw (failed-source r.txnid_again (record p { source = src })) h

  attempt-Advances :
      (r : Reading) (txnid : Result ℕ) (p : Poller)
      → Advances p.source (attempt e r txnid p).0.source (attempt e r txnid p).1
  unfolding attempt
  attempt-Advances r (err x) p = rw (failed-source r.txnid_again p) (Advances-still p.source)
  attempt-Advances r (ok cur) p = elim (Bool-cases (moved cur p.last_txnid)) [
    | inl yes_moved ↦ rw yes_moved (
        after_scan-Advances cur r (scan_once e r.entries r.now p.source) p
          (scan_once-Advances r.entries r.now p.source))
    | inr still ↦ rw still (Advances-still p.source)
  ]

  poll-Advances :
      (r : Reading) (p : Poller) → Advances p.source (poll e r p).0.source (poll e r p).1
  unfolding poll
  poll-Advances r p =
      let h = attempt-Advances r r.txnid p in
      record { forward = h.forward; within = h.within; synced = h.synced }

  -- However long the poller runs, its cursor never falls, every capture that it hands on is newer than the
  -- cursor before and not newer than the cursor after, and the cache keeps the cursor that is in use.
  pub run-Advances :
      (rs : List Reading) (p : Poller) → Advances p.source (run e rs p).0.source (run e rs p).1
  unfolding run
  run-Advances [] p = Advances-still p.source
  run-Advances (r ∷ rs) p =
      let (p', recs) = poll e r p in
      let (p'', later) = run e rs p' in
      Advances-then p.source p'.source p''.source recs later (poll-Advances r p)
        (run-Advances rs p')

  -- No capture is handed on twice: every capture of one stretch of polling has a smaller ObjectBox id than
  -- every capture of a later stretch, also when the program was started again in between, if the cache
  -- held the cursor in use before the first.
  pub run-never_again :
      (rs rs' : List Reading) (p : Poller)
      → IsSynced p.source
      → let (p', earlier) = run e rs p in
        let (_, later) = run e rs' (start p'.source) in
        All (λ c. All (λ d. id_of c < id_of d) later) earlier
  unfolding start
  run-never_again rs rs' p synced =
      let (p', earlier) = run e rs p in
      let (p'', later) = run e rs' (start p'.source) in
      let first = run-Advances rs p in
      let second = run-Advances rs' (start p'.source) in
      let resumed : get_sync_cursor "lmdb" p'.source.db ≡ p'.source.stats.last_seen_ob_id =
        first.synced synced in
      All-map (λ c (_, b). All-map (λ d (a, _). omega (arith, resumed)) later second.within) earlier
        first.within
