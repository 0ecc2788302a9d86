-- ===== src/Daemon/Handlers.antt =====
-- daemon.py: the handlers of `store_relay_value`, `get_relay_value` and `report_dry_run`. A response is
-- given by its data, an error by no text.
use Prim.Native.String.{len}
use reqable_mcp.Prelude.{
  ℕ, String, true, not, ◌&&◌, Option, none, some, [], ◌∷◌, ltb, str_eq, if◌then◌else◌,
}
use reqable_mcp.Prelude.Int.{ℤ, pos, ltb_ℤ, leb_ℤ}
use reqable_mcp.Prelude.Result.{Result, ok, err}
use reqable_mcp.Prelude.Dict
use reqable_mcp.Prelude.Dict.{Dict}
use reqable_mcp.Json.{Json, null, bool, int, str, obj, of_dict}
use reqable_mcp.Relay
use reqable_mcp.Relay.{RelayStore, max_relay_ttl_seconds, max_relay_value_bytes}
use reqable_mcp.DryRun
use reqable_mcp.DryRun.{DryRunLog, DryRunEntry}

pub data Response : Type 0 where
  ok_response : Json → Response
  error_response : Response

-- `args.get(key, default)`
abbrev pub get_or : Dict Json → String → Json → Json
get_or d k v = elim (Dict.get d k) [ none ↦ v | some w ↦ w ]

-- a text, an int (a Python `bool` is one), as they are tested by `isinstance`
abbrev pub text : Json → Option String
text (str s) = some s
text _ = none

abbrev pub integer : Json → Option ℤ
integer (int n) = some n
integer (bool b) = some (pos (if b then 1 else 0))
integer _ = none

abbrev pub one_key : String → Json → Json
one_key k v = obj (of_dict ((k, v) ∷ []))

-- `set` in the `try`
abbrev pub stored : Result (Unit {0}) × RelayStore → Response × RelayStore
stored (ok _, s) = (ok_response (one_key "stored" (bool true)), s)
stored (err e, s) = (error_response, s)

unfoldable pub store_checked :
    Option String → Option String → Option ℤ → ℕ → RelayStore → Response × RelayStore
store_checked none value ttl now s = (error_response, s)
store_checked (some name) none ttl now s = (error_response, s)
store_checked (some name) (some value) none now s = (error_response, s)
store_checked (some name) (some value) (some ttl) now s =
    if str_eq name ""
    then (error_response, s)
    else if not (ltb_ℤ (pos 0) ttl && leb_ℤ ttl (pos max_relay_ttl_seconds))
    then (error_response, s)
    else if ltb max_relay_value_bytes (len value)
    then (error_response, s)
    else stored (Relay.set name (str value) ttl now s)

-- a component that was not started is `none`
unfoldable pub handle_store_relay : Dict Json → ℕ → Option RelayStore → Response × Option RelayStore
unfolding store_checked
handle_store_relay args now none = (error_response, none)
handle_store_relay args now (some s) =
    let (response, s') =
      store_checked (text (get_or args "name" null)) (text (get_or args "value" null))
        (integer (get_or args "ttl_seconds" (int (pos 300)))) now s in
    (response, some s')

-- a value, or `None`
abbrev pub value_of : Option String → Json
value_of none = null
value_of (some v) = str v

unfoldable pub get_checked : Option String → ℕ → RelayStore → Response × RelayStore
get_checked none now s = (error_response, s)
get_checked (some name) now s =
    if str_eq name ""
    then (error_response, s)
    else let (value, s') = Relay.get name now s in
      (ok_response (one_key "value" (value_of value)), s')

unfoldable pub handle_get_relay : Dict Json → ℕ → Option RelayStore → Response × Option RelayStore
unfolding get_checked
handle_get_relay args now none = (error_response, none)
handle_get_relay args now (some s) =
    let (response, s') = get_checked (text (get_or args "name" null)) now s in (response, some s')

-- Python's `str` is a parameter
module _ (to_str : Json → String) where
  abbrev pub reported : Dict Json → ℕ → DryRunEntry
  reported args now = record {
    ts = now;
    uid = to_str (get_or args "uid" (str ""));
    host = to_str (get_or args "host" (str ""));
    path = to_str (get_or args "path" (str ""));
    method = to_str (get_or args "method" (str ""));
    side = to_str (get_or args "side" (str ""));
  }

  report_checked : Option String → Dict Json → ℕ → DryRunLog → Response × DryRunLog
  report_checked none args now l = (error_response, l)
  report_checked (some id) args now l =
      if str_eq id ""
      then (error_response, l)
      else (ok_response (one_key "recorded" (bool true)), DryRun.add id (reported args now) l)

  unfoldable pub handle_report_dry_run :
      Dict Json → ℕ → Option DryRunLog → Response × Option DryRunLog
  unfolding report_checked
  handle_report_dry_run args now none = (error_response, none)
  handle_report_dry_run args now (some l) =
      let (response, l') = report_checked (text (get_or args "rule_id" null)) args now l in
      (response, some l')
