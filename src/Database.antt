-- ===== src/Database.antt =====
-- db.py: the cache of captures. A row is the dictionary of its columns. What SQLite makes of a value that it
-- stores in a column (the column's affinity) is a parameter; a row that a transaction wrote is dropped when
-- its connection is closed before the commit.
pub mod Rows
mod Tests
use reqable_mcp.Prelude.{
  ℕ, ◌-◌, ◌*◌, ◌^◌, String, Bool, true, false, not, ◌&&◌, ◌||◌, Option, none, some, List, [], ◌∷◌,
  ◌++◌, take, filter, str_eq, ltb, leb, if◌then◌else◌,
}
use reqable_mcp.Prelude.Int.{ℤ, pos, negsuc, sub_ℕ, leb_ℤ}
use reqable_mcp.Prelude.Result.{
  Result, ok, err, database_error, overflow_error, ◌>>=◌, ◌>>◌, raise_if,
}
use reqable_mcp.Prelude.Dict
use reqable_mcp.Prelude.Dict.{Dict}
use reqable_mcp.Json.{Json, null, bool, int, float, str, arr, obj}
use reqable_mcp.Values.{at, is_null}
use reqable_mcp.WaitQueue.{Capture}

-- the columns that `upsert_capture` names
abbrev pub columns : List String
columns =
    "uid" ∷ "ob_id" ∷ "ts" ∷ "scheme" ∷ "host" ∷ "port" ∷ "url" ∷ "path" ∷ "method" ∷ "status"
    ∷ "protocol" ∷ "req_mime" ∷ "res_mime" ∷ "app_name" ∷ "app_id" ∷ "app_path" ∷ "req_body_size"
    ∷ "res_body_size" ∷ "rtt_ms" ∷ "comment" ∷ "ssl_bypassed" ∷ "has_error" ∷ "source"
    ∷ "raw_summary" ∷ []

pub record Cursor : Type 0 where
  pub last_ob_id : ℕ
  pub last_ts : ℕ
  pub last_run_ts : ℕ

-- the tables `captures` and `sync_state`
pub record Database : Type 0 where
  pub captures : List Capture
  pub sync_state : Dict Cursor

-- `init_schema`, on a new file
abbrev pub empty : Database
empty = record { captures = []; sync_state = [] }

-- Whether SQLite takes a value as a parameter: an integer must fit 64 bits, and a list or a dictionary
-- is refused.
unfoldable pub bind : Json → Result (Unit {0})
bind (int (pos n)) = raise_if (leb (2 ^ 63) n) overflow_error
bind (int (negsuc n)) = raise_if (leb (2 ^ 63) n) overflow_error
bind (arr vs) = err database_error
bind (obj fs) = err database_error
bind _ = ok tt

unfoldable pub bind_all : List String → Capture → Result (Unit {0})
unfolding bind
bind_all [] rec = ok tt
bind_all (k ∷ ks) rec = bind (at rec k) >> bind_all ks rec

-- two values of a column that is unique; two nulls differ
unfoldable pub clash : Json → Json → Bool
clash (str s) (str t) = str_eq s t
clash (int (pos m)) (int (pos n)) = leb m n && leb n m
clash _ _ = false

-- the rows that a new one replaces, by the columns `uid` and `ob_id`
unfoldable pub replaces : Capture → Capture → Bool
unfolding clash
replaces new old = clash (at new "uid") (at old "uid") || clash (at new "ob_id") (at old "ob_id")

-- a null in the column `source` is replaced by the default
abbrev pub or_default : String → Json → Json
or_default k v = if str_eq k "source" && is_null v then str "lmdb" else v

module _ (affinity : String → Json → Json) where
  -- the row of a record
  unfoldable pub row_of : List String → Capture → Capture
  row_of [] rec = []
  row_of (k ∷ ks) rec = (k, affinity k (or_default k (at rec k))) ∷ row_of ks rec

  -- `upsert_capture`: `INSERT OR REPLACE`, where `ts` must not be null
  unfoldable pub upsert_capture : Capture → Database → Result Database
  unfolding bind_all row_of replaces
  upsert_capture rec db = do
    bind_all columns rec
    raise_if (is_null (at rec "ts")) database_error
    let row = row_of columns rec
    ok (record db { captures = filter (λ old. not (replaces row old)) db.captures ++ row ∷ [] })

  -- the loop of a bulk upsert
  unfoldable pub upsert_each : List Capture → Database → Result Database
  unfolding upsert_capture
  upsert_each [] db = ok db
  upsert_each (rec ∷ recs) db = upsert_capture rec db >>= upsert_each recs

-- `get_capture`
unfoldable pub find_row : String → List Capture → Option Capture
unfolding clash
find_row uid [] = none
find_row uid (row ∷ rows) =
    let rest = find_row uid rows in if clash (str uid) (at row "uid") then some row else rest

unfoldable pub get_capture : String → Database → Option Capture
unfolding find_row
get_capture uid db = find_row uid db.captures

unfoldable pub get_sync_cursor : String → Database → ℕ
get_sync_cursor source db = elim (Dict.get db.sync_state source) [
  | none ↦ 0
  | some c ↦ c.last_ob_id
]

unfoldable pub set_sync_cursor : String → ℕ → ℕ → ℕ → Database → Result Database
set_sync_cursor source last_ob_id last_ts now db =
    raise_if (leb (2 ^ 63) last_ob_id) overflow_error
    >> ok (record db {
      sync_state =
          Dict.put db.sync_state source
            (record { last_ob_id = last_ob_id; last_ts = last_ts; last_run_ts = now });
    })
