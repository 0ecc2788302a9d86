-- ===== src/Daemon/Dispatch.antt =====
-- daemon.py: `_handle_ipc_request`. The arguments of a request are what JSON the peer sent, so those of
-- `get_rules` may be no texts; `matches` then raises where it comes to use one.
use Prim.Native.String.{String}
use reqable_mcp.Prelude.{
  ℕ, Bool, true, false, ◌||◌, Option, none, some, List, [], ◌∷◌, map, str_eq, is_some,
  if◌then◌else◌,
}
use reqable_mcp.Prelude.Result.{Result, ok, err, Error, attribute_error, type_error}
use reqable_mcp.Prelude.Dict
use reqable_mcp.Prelude.Dict.{Dict}
use reqable_mcp.Json.{Json, Fields, null, str, arr, obj, of_dict, to_dict, to_list, of_list}
use reqable_mcp.Python.{Python}
use reqable_mcp.Rules.{Rule, pattern_of, is_expired, status_in}
use reqable_mcp.Rules.Engine
use reqable_mcp.Rules.Engine.{Engine}
use reqable_mcp.Relay.{RelayStore}
use reqable_mcp.DryRun.{DryRunLog}
use reqable_mcp.WaitQueue.{truthy, is_text}
use reqable_mcp.Daemon.Packing.{pack_rules_for_ipc}
use reqable_mcp.Daemon.Handlers.{
  Response, ok_response, error_response, get_or, integer, handle_store_relay, handle_get_relay,
  handle_report_dry_run,
}

-- the components, each of which is `None` until it is started
pub record State : Type 0 where
  pub engine : Option Engine
  pub relay : Option RelayStore
  pub log : Option DryRunLog

-- `x or ""`, of which a method for texts is called
abbrev pub text_or : Error → Json → Result String
text_or x (str s) = ok s
text_or x v = if truthy (some v) then err x else ok ""

-- a filter that is absent, or a test that may raise
abbrev pub filtered : Option String → (String → Result Bool) → Result Bool
filtered none test = ok true
filtered (some a) test = test a

-- the next test is made only if the one before passed
abbrev pub and_then : Result Bool → Result Bool → Result Bool
and_then (err x) rest = err x
and_then (ok false) rest = ok false
and_then (ok true) rest = rest

abbrev pub tested : Result String → (String → Bool) → Result Bool
tested (err x) test = err x
tested (ok s) test = ok (test s)

-- the list that a loop runs over, where `str` is a parameter: the items of a list, the keys of an
-- object, the characters of a text
abbrev characters : String → List String
characters String.[] = []
characters (String.◌∷◌ c s) = String.◌∷◌ c String.[] ∷ characters s

module _ (to_str : Json → String) where
  unfoldable pub iterated : Json → Result (List String)
  iterated (arr vs) = ok (map to_str (to_list vs))
  iterated (obj fs) = ok (Dict.keys (to_dict fs))
  iterated (str s) = ok (characters s)
  iterated v = if truthy (some v) then err type_error else ok []

module _ (py : Python) where
  open py use {lower, upper, search}

  -- `Rule.matches` on the arguments of a request
  unfoldable pub matches_args : Dict Json → Rule → Result Bool
  matches_args args r = and_then (ok (is_text (some (get_or args "side" (str ""))) r.side)) (
      and_then
        (filtered r.host (λ h.
          tested (text_or attribute_error (get_or args "host" null)) (λ s. str_eq (lower s) h)))
        (and_then
          (filtered r.method (λ m.
            tested (text_or attribute_error (get_or args "method" null)) (λ s. str_eq (upper s) m)))
          (and_then
            (filtered (pattern_of r.path_pattern)
              (λ p. tested (text_or type_error (get_or args "path" null)) (search p)))
            (ok (
              if is_some r.status_min || is_some r.status_max
              then status_in r.status_min r.status_max (integer (get_or args "status" null))
              else true)))))

  abbrev pub kept_if : Result Bool → Rule → Result (List Rule) → Result (List Rule)
  kept_if (err x) r rest = err x
  kept_if (ok b) r (err x) = err x
  kept_if (ok b) r (ok rs) = ok (if b then r ∷ rs else rs)

  -- `match_for`, which tests the rules in turn
  unfoldable pub select : Dict Json → ℕ → List Rule → Result (List Rule)
  unfolding matches_args
  select args now [] = ok []
  select args now (r ∷ rs) =
      let rest = select args now rs in
      if is_expired now r then rest else kept_if (matches_args args r) r rest

  module _ (size_of : Dict Json → ℕ) (to_str : Json → String) where
    abbrev pub rules_response : Result (List Rule) → Result Response
    rules_response (err x) = err x
    rules_response (ok rs) =
        ok
          (ok_response (arr (of_list (map (λ p. obj (of_dict p)) (pack_rules_for_ipc size_of rs)))))

    unfoldable pub record_hits : List String → Engine → Engine
    record_hits [] e = e
    record_hits (id ∷ ids) e = record_hits ids (Engine.record_hit id e).1

    abbrev pub hits_response : Result (List String) → Engine → State → Result Response × State
    hits_response (err x) e st = (err x, st)
    hits_response (ok ids) e st =
        (ok (ok_response (obj Fields.end)), record st { engine = some (record_hits ids e) })

    -- `_handle_ipc_request`, for an operation, its arguments and the time; the error is what it raises
    abbrev pub dispatch : String → Dict Json → ℕ → Engine → State → Result Response × State
    dispatch op args now e st =
        if str_eq op "get_rules"
        then (rules_response (select args now (Dict.values e.rules)), st)
        else if str_eq op "report_hit"
        then hits_response (iterated to_str (get_or args "rule_ids" null)) e st
        else if str_eq op "store_relay_value"
        then (let (response, relay) = handle_store_relay args now st.relay in
            (ok response, record st { relay = relay }))
        else if str_eq op "get_relay_value"
        then (let (response, relay) = handle_get_relay args now st.relay in
            (ok response, record st { relay = relay }))
        else if str_eq op "report_dry_run"
        then (let (response, log) = handle_report_dry_run to_str args now st.log in
            (ok response, record st { log = log }))
        else (ok error_response, st)

    unfoldable pub handle_ipc_request : String → Dict Json → ℕ → State → Result Response × State
    unfolding select record_hits
    handle_ipc_request op args now st = elim st.engine [
      | none ↦ (ok error_response, st)
      | some e ↦ dispatch op args now e st
    ]
