-- ===== src/Database/Tests.antt =====
-- Writes to the cache, and the theorems at concrete inputs.
use reqable_mcp.Prelude.{ℕ, ◌^◌, String, ◌≡◌, refl, false, some, [], ◌∷◌}
use reqable_mcp.Prelude.Int.{pos}
use reqable_mcp.Prelude.Result.{ok, err, overflow_error, database_error}
use reqable_mcp.Prelude.Dict
use reqable_mcp.Json.{Json, int, str, arr, Items}
use reqable_mcp.WaitQueue.{Capture}
use reqable_mcp.Database.{
  Database, empty, columns, bind, bind_all, clash, replaces, row_of, upsert_capture, upsert_each,
  get_capture,
}
use reqable_mcp.Database.Rows.{get_capture-upsert_capture}

abbrev capture : String → ℕ → Capture
capture uid ob_id = ("uid", str uid) ∷ ("ob_id", int (pos ob_id)) ∷ ("ts", int (pos 5)) ∷ []

-- columns that store values as they are
abbrev plain : String → Json → Json
plain k v = v

abbrev one_row : Database
one_row = record empty { captures = row_of plain columns (capture "a" 1) ∷ [] }

stored_one : upsert_capture plain (capture "a" 1) empty ≡ ok one_row
unfolding upsert_capture bind_all bind row_of replaces clash Dict.get
stored_one = refl

replaced_twice : upsert_each plain (capture "b" 1 ∷ capture "a" 1 ∷ []) empty ≡ ok one_row
unfolding upsert_each upsert_capture bind_all bind row_of replaces clash Dict.get
replaced_twice = refl

refused :
    (upsert_capture plain (capture "a" (2 ^ 63)) empty ≡ err overflow_error)
    × (upsert_capture plain (("method", arr Items.nil) ∷ capture "a" 1) empty ≡ err database_error)
    × (upsert_capture plain [] empty ≡ err database_error)
unfolding upsert_capture bind_all bind row_of replaces clash Dict.get
refused = (refl, refl, refl)

get_capture-upsert_capture_example :
    (get_capture "a" one_row ≡ some (row_of plain columns (capture "a" 1)))
    × ((other : String) (old : Capture)
        → get_capture other empty ≡ some old
        → replaces (row_of plain columns (capture "a" 1)) old ≡ false
        → get_capture other one_row ≡ some old)
get_capture-upsert_capture_example =
    get_capture-upsert_capture plain "a" (capture "a" 1) empty one_row (unfold Dict.get in refl)
      refl stored_one
