-- ===== src/Database/Rows.antt =====
-- The table of captures: what is written is found again.
use reqable_mcp.Prelude.{
  String, ◌≡◌, refl, sym, ap, ◌∙◌, true, false, not, none, some, List, [], ◌∷◌, ◌++◌, filter,
  eq_iff, arith, if◌then◌else◌,
}
use reqable_mcp.Prelude.Result.{ok, database_error, >>-eq-ok, raise_if-eq-ok, ok-inj}
use reqable_mcp.Prelude.Dict
use reqable_mcp.Json.{Json, str}
use reqable_mcp.Values.{at, is_null}
use reqable_mcp.WaitQueue.{Capture}
use reqable_mcp.Database.{
  Database, columns, clash, replaces, row_of, bind_all, upsert_capture, find_row, get_capture,
}

-- The row is the one that was asked for.
find_row-append :
    (uid : String) (rows : List Capture) (row : Capture)
    → find_row uid (rows ++ row ∷ []) ≡ elim (find_row uid rows) [
      | none ↦ if clash (str uid) (at row "uid") then some row else none
      | some r ↦ some r
    ]
unfolding find_row
find_row-append uid [] row = ground arith
find_row-append uid (r ∷ rows) row = ground (arith, find_row-append uid rows row)

clash_trans :
    (uid : String) (a b : Json)
    → clash (str uid) a ≡ true
    → clash (str uid) b ≡ true
    → clash a b ≡ true
unfolding clash
clash_trans uid (str s) (str t) h k = ground (arith, eq_iff uid s, eq_iff uid t, eq_iff s t)
clash_trans uid (str s) b h k = ground arith
clash_trans uid a b h k = ground arith

-- no row of the name is left once a new one with the name came
find_row-replaced :
    (uid : String) (row : Capture) (rows : List Capture)
    → clash (str uid) (at row "uid") ≡ true
    → find_row uid (filter (λ old. not (replaces row old)) rows) ≡ none
unfolding find_row replaces
find_row-replaced uid row [] h = refl
find_row-replaced uid row (r ∷ rows) h =
    ground (arith, find_row-replaced uid row rows h, clash_trans uid (at row "uid") (at r "uid") h)

-- Rows that do not clash with the new one stay.
find_row-kept :
    (uid : String) (row old : Capture) (rows : List Capture)
    → find_row uid rows ≡ some old
    → replaces row old ≡ false
    → find_row uid (filter (λ o. not (replaces row o)) rows) ≡ some old
unfolding find_row
find_row-kept uid row old [] h k = h
find_row-kept uid row old (r ∷ rows) h k = ground (arith, find_row-kept uid row old rows)

-- what a write that succeeded did
upsert_capture-ok :
    (affinity : String → Json → Json) (rec : Capture) (db db' : Database)
    → upsert_capture affinity rec db ≡ ok db'
    → db'.captures
      ≡ filter (λ old. not (replaces (row_of affinity columns rec) old)) db.captures
        ++ row_of affinity columns rec ∷ []
unfolding upsert_capture
upsert_capture-ok affinity rec db db' h =
    let (_, h₁) = >>-eq-ok (bind_all columns rec) _ h in
    let (_, h₂) = raise_if-eq-ok (is_null (at rec "ts")) database_error _ h₁ in
    ap (λ d. d.captures) (sym (ok-inj _ db' h₂))

-- A capture that was written is read back by its name, as the row that SQLite makes of it, where SQLite
-- stores a text in the column of names as it is; a row with another name and another ObjectBox id
-- is still read as it was.
pub get_capture-upsert_capture :
    (affinity : String → Json → Json) (uid : String) (rec : Capture) (db db' : Database)
    → at rec "uid" ≡ str uid
    → affinity "uid" (str uid) ≡ str uid
    → upsert_capture affinity rec db ≡ ok db'
    → (get_capture uid db' ≡ some (row_of affinity columns rec))
      × ((other : String) (old : Capture)
          → get_capture other db ≡ some old
          → replaces (row_of affinity columns rec) old ≡ false
          → get_capture other db' ≡ some old)
unfolding get_capture row_of clash Dict.get
get_capture-upsert_capture affinity uid rec db db' named kept h =
    let row = row_of affinity columns rec in
    let e = upsert_capture-ok affinity rec db db' h in
    let same : clash (str uid) (at row "uid") ≡ true = ground (arith, eq_iff uid uid) in
    let rest = filter (λ old. not (replaces row old)) db.captures in
    (
      rw e (
          find_row-append uid rest row ∙ rw (find_row-replaced uid row db.captures same) (rw same)),
      λ other old there apart. rw e (
          find_row-append other rest row
          ∙ rw (find_row-kept other row old db.captures there apart)),
    )
