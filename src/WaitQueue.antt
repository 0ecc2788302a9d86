-- ===== src/WaitQueue.antt =====
-- wait_queue.py: the filters `FilterSpec` and the registry `WaitQueue`. A waiter outlives its place in
-- the registry, since the thread that waits keeps it, so the waiters stand apart from the ids that are
-- registered. Each method is one step under the lock but `wait`, which is two: it looks its waiter
-- up, other calls may come while it blocks, and then it takes the waiter out and reads it.
pub mod Waiters
pub mod Calls
pub mod Projection
pub mod Reaping
pub mod Delivery
mod Tests
use reqable_mcp.Prelude.{
  ℕ, ◌+◌, ◌-◌, ◌*◌, String, Bool, true, false, not, ◌&&◌, ◌||◌, Option, none, some, List, [], ◌∷◌,
  ◌++◌, length, ltb, ◌==◌, str_eq, is_some, if◌then◌else◌,
}
use reqable_mcp.Prelude.Int.{ℤ, pos, pos_part, neg_part}
use reqable_mcp.Prelude.Result.{Result, ok, err, value_error, type_error, ◌>>=◌}
use reqable_mcp.Prelude.Dict
use reqable_mcp.Prelude.Dict.{Dict}
use reqable_mcp.Json.{Json, null, bool, int, float, str, arr, obj, Items, Fields}
use reqable_mcp.Python.{Python}

abbrev pub Capture : Type 0
Capture = Dict Json

pub record FilterSpec : Type 0 where
  pub host : Option String
  pub method : Option String
  pub path_pattern : Option String
  pub app : Option String
  pub status : Option ℤ

-- `a == b` on integers
abbrev int_eq : ℤ → ℤ → Bool
int_eq a b = pos_part a + neg_part b == pos_part b + neg_part a

-- `v == s` for a text s
unfoldable pub is_text : Option Json → String → Bool
is_text (some (str t)) s = str_eq t s
is_text _ s = false

-- `v == n` for an int n, where a bool and a float that stand for it are equal to it too
unfoldable pub is_number : Option Json → ℤ → Bool
is_number (some (int m)) n = int_eq m n
is_number (some (bool b)) n = int_eq (pos (if b then 1 else 0)) n
is_number (some (float t)) n =
    pos_part t + 1_000_000 * neg_part n == 1_000_000 * pos_part n + neg_part t
is_number _ n = false

-- whether a value counts as true
unfoldable pub truthy : Option Json → Bool
truthy none = false
truthy (some null) = false
truthy (some (bool b)) = b
truthy (some (int n)) = not (int_eq n (pos 0))
truthy (some (float t)) = not (int_eq t (pos 0))
truthy (some (str s)) = not (str_eq s "")
truthy (some (arr Items.nil)) = false
truthy (some (arr _)) = true
truthy (some (obj Fields.end)) = false
truthy (some (obj _)) = true

-- `capture.get("url") or capture.get("path") or ""`
unfoldable pub url_of : Capture → Option Json
unfolding truthy
url_of c =
    let url = Dict.get c "url" in
    let path = Dict.get c "path" in
    if truthy url then url else if truthy path then path else some (str "")

-- a filter that is absent, or a test of its value
abbrev pub admits {ℓ} : {A : Type ℓ} → Option A → (A → Bool) → Bool
admits none test = true
admits (some a) test = test a

module _ (py : Python) where
  open py use {upper, compiles, search}

  -- the constructor with `__post_init__`
  unfoldable pub filter_spec : FilterSpec → Result FilterSpec
  filter_spec s =
      if admits s.path_pattern compiles
      then ok (record s { method = elim s.method [ none ↦ none | some m ↦ some (upper m) ] })
      else err value_error

  -- `re.search` on a value, which raises on one that is no text
  unfoldable pub search_in : String → Option Json → Result Bool
  search_in p (some (str url)) = ok (search p url)
  search_in p _ = err type_error

  unfoldable pub matches_path : Option String → Capture → Result Bool
  unfolding search_in url_of
  matches_path none c = ok true
  matches_path (some p) c = search_in p (url_of c)

  unfoldable pub matches : FilterSpec → Capture → Result Bool
  unfolding is_text is_number matches_path
  matches s c =
      if not (admits s.host (is_text (Dict.get c "host")))
      then ok false
      else if not (admits s.method (is_text (Dict.get c "method")))
      then ok false
      else if not (admits s.app (is_text (Dict.get c "app_name")))
      then ok false
      else if not (admits s.status (is_number (Dict.get c "status")))
      then ok false
      else matches_path s.path_pattern c
