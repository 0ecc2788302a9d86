-- ===== src/Relay.antt =====
-- relay.py: the store of relayed tokens, `RelayStore`. A time is a number of microseconds, and each
-- reading of `time.time()` is an argument `now` of the method that makes it.
pub mod View
pub mod Runs
pub mod Bounds
mod Tests
use Prim.Native.String.{len}
use reqable_mcp.Prelude.{
  ℕ, ◌+◌, ◌*◌, String, Bool, not, ◌&&◌, ◌||◌, Option, none, some, List, [], length, ltb, leb,
  str_eq, is_some, if◌then◌else◌,
}
use reqable_mcp.Prelude.Int.{ℤ, pos, pos_part, ltb_ℤ, leb_ℤ}
use reqable_mcp.Prelude.Result.{Result, ok, err, value_error, type_error}
use reqable_mcp.Prelude.Dict
use reqable_mcp.Prelude.Dict.{Dict}
use reqable_mcp.Json.{Json, str}

abbrev pub second : ℕ
second = 1_000_000

abbrev pub max_relay_ttl_seconds : ℕ
max_relay_ttl_seconds = 3600

abbrev pub max_relay_value_bytes : ℕ
max_relay_value_bytes = 8 * 1024

abbrev pub max_relay_entries : ℕ
max_relay_entries = 256

pub record RelayEntry : Type 0 where
  pub value : String
  pub expires_ts : ℕ

pub record RelayStore : Type 0 where
  pub values : Dict RelayEntry

abbrev pub empty : RelayStore
empty = record { values = [] }

-- `now >= v.expires_ts`
abbrev pub is_expired : ℕ → RelayEntry → Bool
is_expired now e = leb e.expires_ts now

-- `now < v.expires_ts`
abbrev pub is_active : ℕ → RelayEntry → Bool
is_active now e = ltb now e.expires_ts

-- the part of `set` under the lock
store_entry : String → String → ℕ → ℕ → RelayStore → Result (Unit {0}) × RelayStore
store_entry name value ttl now s =
    if not (Dict.contains s.values name) && leb max_relay_entries (length s.values)
    then (err value_error, s)
    else (
      ok tt,
      record s {
        values = Dict.put s.values name (record { value = value; expires_ts = now + ttl * second });
      },
    )

set_text : String → String → ℤ → ℕ → RelayStore → Result (Unit {0}) × RelayStore
unfolding store_entry
set_text name value ttl_seconds now s =
    if ltb max_relay_value_bytes (len value)
    then (err value_error, s)
    else if leb_ℤ ttl_seconds (pos 0) || ltb_ℤ (pos max_relay_ttl_seconds) ttl_seconds
    then (err value_error, s)
    else store_entry name value (pos_part ttl_seconds) now s

set_value : String → Json → ℤ → ℕ → RelayStore → Result (Unit {0}) × RelayStore
unfolding set_text
set_value name (str value) ttl_seconds now s = set_text name value ttl_seconds now s
set_value name _ ttl_seconds now s = (err type_error, s)

unfoldable pub set : String → Json → ℤ → ℕ → RelayStore → Result (Unit {0}) × RelayStore
unfolding set_value
set name value ttl_seconds now s =
    if str_eq name "" then (err value_error, s) else set_value name value ttl_seconds now s

get_entry : String → Option RelayEntry → ℕ → RelayStore → Option String × RelayStore
get_entry name none now s = (none, s)
get_entry name (some entry) now s =
    if is_expired now entry
    then (none, record s { values = Dict.remove s.values name })
    else (some entry.value, s)

unfoldable pub get : String → ℕ → RelayStore → Option String × RelayStore
unfolding get_entry
get name now s = get_entry name (Dict.get s.values name) now s

unfoldable pub remove : String → RelayStore → Bool × RelayStore
remove name s = (Dict.contains s.values name, record s { values = Dict.remove s.values name })

unfoldable pub clear : RelayStore → ℕ × RelayStore
clear s = (length s.values, record s { values = [] })

unfoldable pub reap_expired : ℕ → RelayStore → ℕ × RelayStore
reap_expired now s =
    let stale = Dict.keys (Dict.keep (is_expired now) s.values) in
    (length stale, record s { values = Dict.remove_all s.values stale })

-- the total and the active count
unfoldable pub stats : ℕ → RelayStore → ℕ × ℕ
stats now s = (length s.values, length (Dict.keep (is_active now) s.values))

unfoldable pub list_names : ℕ → RelayStore → List String
list_names now s = Dict.keys (Dict.keep (is_active now) s.values)
