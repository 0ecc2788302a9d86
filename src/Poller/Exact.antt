-- ===== src/Poller/Exact.antt =====
-- What a scan stores and hands on.
use reqable_mcp.Prelude.{
  ℕ, ◌+◌, ◌^◌, eq_iff, ◌≡◌, refl, sym, ap, ◌∙◌, Bool, not, Option, none, some, List, [], ◌∷◌,
  filter, length, arith, if◌then◌else◌, Bool-cases, inl, inr, ltb, leb,
}
use reqable_mcp.Prelude.Result.{
  Result, ok, err, overflow_error, >>=-eq-ok, raise_if-eq-ok, ok-inj, ◌>>=◌,
}
use reqable_mcp.Prelude.Dict.Laws.{get-put}
use reqable_mcp.FlatBuffers.{Bytes}
use reqable_mcp.WaitQueue.{Capture}
use reqable_mcp.Database.{Database, upsert_each, set_sync_cursor, get_sync_cursor}
use reqable_mcp.Poller.Decode.{Setting, is_capture_key, decode_value}
use reqable_mcp.Poller.Cursor.{IsGreatest, max_ob-IsGreatest}
use reqable_mcp.Poller.Scan.{
  LmdbSource, visited, walk, max_ob, captures_of, save, committed, store_new, scan_once,
  add_failures,
}

-- the values of the capture keys from the first entry on, those of 32 bytes and more
abbrev pub values_in : List (Bytes × Bytes) → List Bytes
values_in [] = []
values_in ((key, value) ∷ entries) =
    let rest = values_in entries in
    if not (is_capture_key key) then [] else if ltb (length value) 32 then rest else value ∷ rest

abbrev pub gather :
    ℕ × Result (Option (ℕ × Capture))
    → ℕ × Result (List (ℕ × Capture))
    → ℕ × Result (List (ℕ × Capture))
gather (n, err x) rest = (n, err x)
gather (n, ok none) (m, rest) = (n + m, rest)
gather (n, ok (some rec)) (m, rest) = (n + m, do recs ← rest; ok (rec ∷ recs))

-- all the records of values, whatever the cursor, and how many values were not decoded
unfoldable pub decode_all : Setting → List Bytes → ℕ × Result (List (ℕ × Capture))
decode_all e [] = (0, ok [])
decode_all e (value ∷ values) = gather (decode_value e value) (decode_all e values)

abbrev pub newer : ℕ → ℕ × Capture → Bool
newer cursor (ob_id, rec) = ltb cursor ob_id

-- the records of a result that are newer than the cursor
abbrev pub newest : ℕ → Result (List (ℕ × Capture)) → Result (List (ℕ × Capture))
newest cursor (err x) = err x
newest cursor (ok recs) = ok (filter (newer cursor) recs)

visited-gather :
    (cursor : ℕ) (d : ℕ × Result (Option (ℕ × Capture))) (rest : ℕ × Result (List (ℕ × Capture)))
    → visited cursor d (rest.0, newest cursor rest.1)
      ≡ ((gather d rest).0, newest cursor (gather d rest).1)
visited-gather cursor (n, err x) rest = refl
visited-gather cursor (n, ok none) (m, err x) = refl
visited-gather cursor (n, ok none) (m, ok recs) = refl
visited-gather cursor (n, ok (some rec)) (m, err x) = refl
visited-gather cursor (n, ok (some (ob_id, rec))) (m, ok recs) = ground arith

-- the cursor that the cache holds is the one in use
abbrev pub IsSynced : LmdbSource → Type 0
IsSynced src = get_sync_cursor "lmdb" src.db ≡ src.stats.last_seen_ob_id

module _ (e : Setting) where
  pub walk-decode_all :
      (cursor : ℕ) (entries : List (Bytes × Bytes))
      → walk e cursor entries
        ≡ ((decode_all e (values_in entries)).0, newest cursor (decode_all e (values_in entries)).1)
  unfolding walk decode_all
  walk-decode_all cursor [] = refl
  walk-decode_all cursor ((key, value) ∷ entries) = elim (Bool-cases (is_capture_key key)) [
    | inl k ↦ elim (Bool-cases (ltb (length value) 32)) [
      | inl short ↦ rw k (rw short (walk-decode_all cursor entries))
      | inr long ↦ rw k (
          rw long (
            ap (visited cursor (decode_value e value)) (walk-decode_all cursor entries)
            ∙ visited-gather cursor (decode_value e value) (decode_all e (values_in entries))))
    ]
    | inr k ↦ rw k refl
  ]

  -- What a scan that returned `n` did with the new records of the values: the callback got them all in the
  -- order of the keys, the table of captures is the old one with each of them written, and the cursor is
  -- the greatest of its old value and the ids of the new records.
  pub record IsStored (fresh : List (ℕ × Capture)) (src src' : LmdbSource) (n : ℕ)
      (handed : List Capture) : Type 0 where
    pub count : n ≡ length fresh
    pub callback : handed ≡ captures_of fresh
    pub rows :
        (db : Database) × (upsert_each e.affinity (captures_of fresh) src.db ≡ ok db)
        × (src'.db.captures ≡ db.captures)
    pub cursor : IsGreatest src.stats.last_seen_ob_id fresh src'.stats.last_seen_ob_id

  save-ok :
      (recs : List (ℕ × Capture)) (max now : ℕ) (db db' : Database)
      → save e recs max now db ≡ ok db'
      → ((db₁ : Database) × (upsert_each e.affinity (captures_of recs) db ≡ ok db₁)
          × (db'.captures ≡ db₁.captures))
        × (get_sync_cursor "lmdb" db' ≡ max)
  unfolding save set_sync_cursor get_sync_cursor
  save-ok recs max now db db' h =
      let (db₁, h₁, h₂) = >>=-eq-ok (upsert_each e.affinity (captures_of recs) db) _ h in
      let (_, h₃) = raise_if-eq-ok (leb (2 ^ 63) max) overflow_error _ h₂ in
      let made = sym (ok-inj _ db' h₃) in
      (
        (db₁, h₁, ap (λ d. d.captures) made),
        rw made (
            ground (
              arith,
              get-put db₁.sync_state "lmdb"
                  (record { last_ob_id = max; last_ts = now; last_run_ts = now }) "lmdb",
              eq_iff "lmdb" "lmdb",
            )),
      )

  committed-ok :
      (recs : List (ℕ × Capture)) (max now : ℕ) (src src' : LmdbSource) (n : ℕ)
      (handed : List Capture)
      → max ≡ max_ob src.stats.last_seen_ob_id recs
      → committed recs max src (save e recs max now src.db) ≡ (ok n, src', handed)
      → IsStored recs src src' n handed
        × (get_sync_cursor "lmdb" src'.db ≡ src'.stats.last_seen_ob_id)
  committed-ok recs max now src src' n handed m h = by_result (save e recs max now src.db) refl h
    where
      by_result :
          (r : Result Database)
          → save e recs max now src.db ≡ r
          → committed recs max src r ≡ (ok n, src', handed)
          → IsStored recs src src' n handed
            × (get_sync_cursor "lmdb" src'.db ≡ src'.stats.last_seen_ob_id)
      by_result (err x) s h = absurd (cc)
      by_result (ok db) s h =
          let (stored, kept) = save-ok recs max now src.db db s in
          let moved = sym (ap (λ t. t.1) h) in
          (
            record {
              count = sym (ok-inj _ n (ap (λ t. t.0) h));
              callback = sym (ap (λ t. t.2) h);
              rows = rw moved stored;
              cursor = rw moved (rw m (max_ob-IsGreatest src.stats.last_seen_ob_id recs));
            },
            rw moved kept,
          )

  store_new-ok :
      (fresh : List (ℕ × Capture)) (now : ℕ) (src src' : LmdbSource) (n : ℕ) (handed : List Capture)
      → store_new e now src (ok fresh) ≡ (ok n, src', handed)
      → IsStored fresh src src' n handed × (IsSynced src → IsSynced src')
  unfolding upsert_each max_ob
  store_new-ok [] now src src' n handed h =
      let same : src' ≡ src = sym (ap (λ t. t.1) h) in
      (
        record {
          count = sym (ok-inj 0 n (ap (λ t. t.0) h));
          callback = sym (ap (λ t. t.2) h);
          rows = (src.db, refl, rw same refl);
          cursor = rw same (max_ob-IsGreatest src.stats.last_seen_ob_id []);
        },
        λ synced. rw same synced,
      )
  store_new-ok (rec ∷ recs) now src src' n handed h =
      let (stored, synced) =
        committed-ok (rec ∷ recs) (max_ob src.stats.last_seen_ob_id (rec ∷ recs)) now src src' n
          handed refl h in
      (stored, λ _. synced)

  -- A scan that returns has decoded every value of the capture keys, or counted it as a failure, and has
  -- stored and handed on exactly the records that are newer than the cursor, in the order of the keys; and
  -- the new cursor is the greatest of the old one and the ids of those records.
  pub scan_once-IsStored :
      (entries : List (Bytes × Bytes)) (now : ℕ) (src src' : LmdbSource) (n : ℕ)
      (handed : List Capture)
      → scan_once e entries now src ≡ (ok n, src', handed)
      → (recs : List (ℕ × Capture)) × ((decode_all e (values_in entries)).1 ≡ ok recs)
        × IsStored (filter (newer src.stats.last_seen_ob_id) recs) src src' n handed
        × (IsSynced src → IsSynced src')
  unfolding scan_once
  scan_once-IsStored entries now src src' n handed h =
      by_result (decode_all e (values_in entries)).1 refl (
        sym (
          ap (λ w. store_new e now (add_failures w.0 src) w.1)
            (walk-decode_all src.stats.last_seen_ob_id entries))
        ∙ h)
    where
      failures : ℕ
      failures = (decode_all e (values_in entries)).0

      by_result :
          (r : Result (List (ℕ × Capture)))
          → (decode_all e (values_in entries)).1 ≡ r
          → store_new e now (add_failures failures src) (newest src.stats.last_seen_ob_id r)
            ≡ (ok n, src', handed)
          → (recs : List (ℕ × Capture)) × ((decode_all e (values_in entries)).1 ≡ ok recs)
            × IsStored (filter (newer src.stats.last_seen_ob_id) recs) src src' n handed
            × (IsSynced src → IsSynced src')
      by_result (err x) d h = absurd (cc)
      by_result (ok recs) d h =
          let (stored, synced) =
            store_new-ok (filter (newer src.stats.last_seen_ob_id) recs) now
              (add_failures failures src) src' n handed h in
          (
            recs,
            d,
            record {
              count = stored.count;
              callback = stored.callback;
              rows = stored.rows;
              cursor = stored.cursor;
            },
            synced,
          )
