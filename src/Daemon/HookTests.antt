-- ===== src/Daemon/HookTests.antt =====
-- The hook and the daemon together, at concrete inputs.
use reqable_mcp.Prelude.{ℕ, ◌≡◌, refl, String, true, false, none, some, [], ◌∷◌, str_eq, map, arith}
use reqable_mcp.Prelude.Int.{pos}
use reqable_mcp.Prelude.Result.{ok}
use reqable_mcp.Prelude.Dict
use reqable_mcp.Prelude.Dict.{Dict}
use reqable_mcp.Json.{Json, str, arr, obj, int, of_dict, of_list}
use reqable_mcp.Python.{Python}
use reqable_mcp.Rules.Engine
use reqable_mcp.Rules.Engine.{Engine}
use reqable_mcp.Relay
use reqable_mcp.Relay.{RelayStore}
use reqable_mcp.Relay.View.{view}
use reqable_mcp.Rules.{Flow}
use reqable_mcp.Rules.Index.{IsIndexed}
use reqable_mcp.Daemon.Reaper.{reap_round, round_unseen}
use reqable_mcp.Relay.Runs.{run}
use reqable_mcp.Relay.Bounds.{IsBounded}
use reqable_mcp.WaitQueue.{truthy}
use reqable_mcp.Addon.{Sdk, Runtime, Flight, text}
use reqable_mcp.Addon.Client.{fetch_args, store_relay}
use reqable_mcp.Addon.Apply.{apply_relay_extract, apply_relay_inject, extracted}
use reqable_mcp.Daemon.Packing.{pack_rules_for_ipc}
use reqable_mcp.Daemon.Handlers.{ok_response, handle_store_relay}
use reqable_mcp.Daemon.Dispatch.{State, handle_ipc_request}
use reqable_mcp.Daemon.Served.{flow_of, get_rules_serves}
use reqable_mcp.Daemon.Carried.{linked, with_token, token_carried}

abbrev py : Python
py = record {
  lower = λ s. s;
  upper = λ s. s;
  compiles = λ p. true;
  search = str_eq;
  dumps = λ j. "saved";
  loads = λ s. none;
}

abbrev size_of : Dict Json → ℕ
size_of d = 100

abbrev to_str : Json → String
to_str v = "v"

abbrev sdk : Sdk
sdk = record {
  Headers = Dict String;
  Part = String;
  header = Dict.get;
  set_header = λ k v d. Dict.put d k v;
  part_name = λ p. some p;
  text_part = λ t n. some t;
  file_part = λ p n. none;
  takes_code = λ c. true;
  of_dict = λ fs. "{}";
}

abbrev rt : Runtime
rt = record {
  loads = λ s. none;
  dumps = λ v. "saved";
  int_of = λ s. none;
  is_digits = λ s. false;
  subn = λ p r s n f. none;
}

abbrev engine : Engine
engine = record { rules = []; file = none }

abbrev started : State
started = record { engine = some engine; relay = some Relay.empty; log = none }

abbrev at_login : Flight sdk State
at_login = record {
  context = record { host = "auth"; uid = "u"; highlight = 0; comment = none };
  msg = record {
    method = "POST";
    path = "/login";
    code = some (pos 200);
    headers = ("Token", "secret") ∷ [];
    body = text "{}";
  };
  daemon = started;
}

abbrev extracting : Dict Json
extracting =
    ("name", str "n")
    ∷ ("source_loc", str "header")
    ∷ ("source_field", str "Token")
    ∷ ("ttl_seconds", int (pos 5))
    ∷ []

abbrev injecting : Dict Json
injecting = ("name", str "n") ∷ ("target_header", str "Auth") ∷ ("value_prefix", str "Bearer ") ∷ []

abbrev after_login : RelayStore
after_login = (Relay.set "n" (str "secret") (pos 5) 1_000_000 Relay.empty).1

abbrev later_request : Flight sdk State
later_request = record at_login { daemon = record started { relay = some after_login } }

get_rules_serves_example :
    handle_ipc_request py size_of to_str "get_rules"
      (fetch_args (linked py size_of to_str 7) sdk "response" at_login)
      7
      started
    ≡ (
      ok (
          ok_response (
            arr (
              of_list (
                map
                  (λ p. obj (of_dict p))
                  (pack_rules_for_ipc size_of (
                    Engine.match_for py
                      (flow_of sdk (linked py size_of to_str 7) "response" at_login)
                      7
                      engine)))))),
      started,
    )
get_rules_serves_example =
    get_rules_serves sdk (linked py size_of to_str 7) py size_of to_str "response" at_login 7
      started engine refl

no_tokens : IsBounded Relay.empty
no_tokens = record { unique = tt; few = omega arith }

token_carried_example :
    let r =
      apply_relay_inject sdk rt (linked py size_of to_str 4_000_000) injecting later_request in
    (r.0 ≡ true)
    × (r.1.msg ≡ with_token py size_of to_str sdk rt true "Auth" "Bearer secret" later_request.msg)
unfolding Dict.get extracted apply_relay_extract store_relay handle_ipc_request handle_store_relay
    Relay.set truthy run
token_carried_example =
    token_carried py size_of to_str sdk rt extracting injecting "n" "Token" "secret" "Auth" at_login
      later_request engine engine Relay.empty after_login 1_000_000 4_000_000 [] refl refl refl refl
      refl refl refl no_tokens refl refl tt refl refl

engine-IsIndexed : IsIndexed engine
engine-IsIndexed = record { unique = tt; ids = tt }

round_unseen_example :
    let st' =
      reap_round py 5_000_000 6_000_000 false (record started { relay = some after_login }) in
    (e' : Engine) × (s' : RelayStore) × (st'.engine ≡ some e')
    × (st'.relay ≡ some s')
    × ((f : Flow) → Engine.match_for py f 6_000_000 e' ≡ Engine.match_for py f 6_000_000 engine)
    × ((name : String) → view s' 6_000_000 name ≡ view after_login 6_000_000 name)
unfolding Relay.set Dict.get Dict.put
round_unseen_example =
    round_unseen py (record started { relay = some after_login }) engine after_login 5_000_000
      6_000_000 6_000_000 false refl refl engine-IsIndexed (refl, tt) (omega arith) (omega arith)
