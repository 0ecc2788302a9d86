-- ===== src/Poller/Shape.antt =====
-- The record that the poller makes of a capture, and the cache that stores it.
use reqable_mcp.Prelude.{ℕ, String, ◌≡◌, refl, false, not, [], ◌∷◌, ◌++◌, filter}
use reqable_mcp.Prelude.Result.{ok, OnOk, OnOk-bind, OnOk-elim}
use reqable_mcp.Prelude.Dict
use reqable_mcp.Json.{Json}
use reqable_mcp.Python.{Python}
use reqable_mcp.Values.{Text, at, section, is_null}
use reqable_mcp.WaitQueue.{Capture}
use reqable_mcp.Database.{Database, columns, bind_all, upsert_capture, row_of, replaces}
use reqable_mcp.Poller.{
  Sections, sections, headers_in, url, find_header, cut_160, project_sections, project_record,
}

-- A record with the columns of the cache, in their order, whose timestamp is there.
abbrev pub IsRow : Capture → Type 0
IsRow rec = (Dict.keys rec ≡ columns) × (is_null (at rec "ts") ≡ false)

project_sections-IsRow :
    (py : Python) (t : Text) (s : Sections) (ob_id : ℕ) (uid : String) (ts : ℕ)
    → OnOk IsRow (project_sections py t s ob_id uid ts)
unfolding project_sections Dict.get
project_sections-IsRow py t s ob_id uid ts =
    OnOk-bind IsRow (find_header py t (headers_in py t s s.req) "content-type") _ (λ req_mime.
      OnOk-bind IsRow (find_header py t (headers_in py t s s.res) "content-type") _ (λ res_mime.
        OnOk-bind IsRow (cut_160 (url py t s)) _
          (λ short. OnOk-bind IsRow (section (at s.top "appInfo")) _ (λ app. (refl, refl)))))

upsert_capture-ok :
    (affinity : String → Json → Json) (rec : Capture) (db : Database)
    → is_null (at rec "ts") ≡ false
    → bind_all columns rec ≡ ok tt
    → (db' : Database) × (upsert_capture affinity rec db ≡ ok db')
unfolding upsert_capture
upsert_capture-ok affinity rec db present bound =
    let row = row_of affinity columns rec in
    let db' = record db {
      captures = filter (λ old. not (replaces row old)) db.captures ++ row ∷ [];
    } in
    (db', rw bound (rw present refl))

-- Whatever JSON a capture has, a record that is made of it has exactly the columns of the cache, in their
-- order; and the cache stores it, whatever it holds, if SQLite takes each of the values.
pub project_record-IsRow :
    (py : Python) (t : Text) (ob_id : ℕ) (uid : String) (ts : ℕ) (value : Json) (rec : Capture)
    → project_record py t ob_id uid ts value ≡ ok rec
    → (Dict.keys rec ≡ columns)
      × ((affinity : String → Json → Json) (db : Database)
          → bind_all columns rec ≡ ok tt
          → (db' : Database) × (upsert_capture affinity rec db ≡ ok db'))
unfolding project_record
project_record-IsRow py t ob_id uid ts value rec h =
    let (keys, present) =
      OnOk-elim IsRow (project_record py t ob_id uid ts value) rec
        (OnOk-bind IsRow (sections value) _ (λ s. project_sections-IsRow py t s ob_id uid ts)) h in
    (keys, λ affinity db bound. upsert_capture-ok affinity rec db present bound)
