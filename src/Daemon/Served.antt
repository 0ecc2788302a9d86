-- ===== src/Daemon/Served.antt =====
-- What the hook is answered when it asks for rules.
use reqable_mcp.Prelude.{
  ℕ, String, ◌≡◌, refl, ◌∙◌, Bool, true, false, not, ◌||◌, Option, none, some, List, [], ◌∷◌,
  filter, map, ◌&&◌, str_eq, is_some, if◌then◌else◌, Bool-cases, inl, inr,
}
use reqable_mcp.Prelude.Int.{ℤ}
use reqable_mcp.Prelude.Result.{Result, ok, attribute_error, type_error}
use reqable_mcp.Prelude.Dict
use reqable_mcp.Prelude.Dict.{Dict}
use reqable_mcp.Json.{Json, null, str, int, arr, obj, of_dict, of_list}
use reqable_mcp.Python.{Python}
use reqable_mcp.Rules.{Rule, Flow, matches, is_expired, pattern_of, status_in, or_empty, admits}
use reqable_mcp.Rules.Engine
use reqable_mcp.Rules.Engine.{Engine}
use reqable_mcp.WaitQueue.{is_text}
use reqable_mcp.Addon.{Sdk, Socket, Flight}
use reqable_mcp.Addon.Client.{fetch_args}
use reqable_mcp.Daemon.Packing.{pack_rules_for_ipc}
use reqable_mcp.Daemon.Handlers.{ok_response, get_or, integer}
use reqable_mcp.Daemon.Dispatch.{
  State, text_or, filtered, and_then, tested, matches_args, select, handle_ipc_request,
}

-- The arguments of a request tell of a flow.
record Tells (args : Dict Json) (f : Flow) : Type 0 where
  pub side : get_or args "side" (str "") ≡ str f.side
  pub host : text_or attribute_error (get_or args "host" null) ≡ ok (or_empty f.host)
  pub method : text_or attribute_error (get_or args "method" null) ≡ ok (or_empty f.method)
  pub path : text_or type_error (get_or args "path" null) ≡ ok (or_empty f.path)
  pub status : integer (get_or args "status" null) ≡ f.status

filtered-ok :
    (o : Option String) (s : String) (test : String → String → Bool)
    → filtered o (λ h. tested (ok s) (test h)) ≡ ok (admits o (λ h. test h s))
filtered-ok none s test = refl
filtered-ok (some h) s test = refl

in_turn :
    (a b c d e : Bool)
    → and_then (ok a) (and_then (ok b) (and_then (ok c) (and_then (ok d) (ok e))))
      ≡ ok (
          if not a
          then false
          else if not b
          then false
          else if not c
          then false
          else if not d
          then false
          else e)
in_turn false b c d e = refl
in_turn true false c d e = refl
in_turn true true false d e = refl
in_turn true true true false e = refl
in_turn true true true true e = refl

module _ (py : Python) where
  open py use {lower, upper, search}

  -- the tests of `matches` on what they read of the arguments
  tests : Json → Result String → Result String → Result String → Option ℤ → Rule → Result Bool
  tests side host method path status r = and_then (ok (is_text (some side) r.side)) (
      and_then (filtered r.host (λ h. tested host (λ s. str_eq (lower s) h))) (
        and_then (filtered r.method (λ m. tested method (λ s. str_eq (upper s) m))) (
          and_then (filtered (pattern_of r.path_pattern) (λ p. tested path (search p))) (
            ok (
              if is_some r.status_min || is_some r.status_max
              then status_in r.status_min r.status_max status
              else true)))))

  tests-matches :
      (f : Flow) (r : Rule)
      → tests
          (str f.side)
          (ok (or_empty f.host))
          (ok (or_empty f.method))
          (ok (or_empty f.path))
          f.status
          r
        ≡ ok (matches py r f)
  unfolding tests matches is_text
  tests-matches f r =
      (λ i. and_then (ok (str_eq f.side r.side)) (
        and_then (filtered-ok r.host (or_empty f.host) (λ h s. str_eq (lower s) h) i) (
          and_then (filtered-ok r.method (or_empty f.method) (λ m s. str_eq (upper s) m) i) (
            and_then (filtered-ok (pattern_of r.path_pattern) (or_empty f.path) search i) (
              ok (
                if is_some r.status_min || is_some r.status_max
                then status_in r.status_min r.status_max f.status
                else true))))))
      ∙ in_turn (str_eq f.side r.side) (admits r.host (λ h. str_eq (lower (or_empty f.host)) h))
          (admits r.method (λ m. str_eq (upper (or_empty f.method)) m))
          (admits (pattern_of r.path_pattern) (λ p. search p (or_empty f.path)))
          (if is_some r.status_min || is_some r.status_max
            then status_in r.status_min r.status_max f.status
            else true)

  matches_args-matches :
      (args : Dict Json) (f : Flow) (r : Rule)
      → Tells args f
      → matches_args py args r ≡ ok (matches py r f)
  unfolding matches_args tests
  matches_args-matches args f r t =
      (λ i. tests (t.side i) (t.host i) (t.method i) (t.path i) (t.status i) r) ∙ tests-matches f r

  select-filter :
      (args : Dict Json) (f : Flow) (now : ℕ) (rules : List Rule)
      → Tells args f
      → select py args now rules ≡ ok (filter (λ r. not (is_expired now r) && matches py r f) rules)
  unfolding select
  select-filter args f now [] t = refl
  select-filter args f now (r ∷ rs) t = elim (Bool-cases (is_expired now r)) [
    | inl e ↦ rw e (select-filter args f now rs t)
    | inr e ↦ rw (e, matches_args-matches args f r t, select-filter args f now rs t) refl
  ]

status_told :
    (b : Bool) (c : Option ℤ)
    → integer (
        get_or
          (if b then [] else (elim c [ none ↦ [] | some n ↦ ("status", int n) ∷ [] ]))
          "status"
          null)
      ≡ (if b then none else c)
unfolding Dict.get
status_told true c = refl
status_told false none = refl
status_told false (some n) = refl

module _ (sdk : Sdk) {D : Type 0} (socket : Socket D) where
  -- the flow that a message is
  abbrev pub flow_of : String → Flight sdk D → Flow
  flow_of side f = record {
    side = side;
    host = some f.context.host;
    path = some f.msg.path;
    method = some f.msg.method;
    status = if str_eq side "request" then none else f.msg.code;
  }

  fetch_args-Tells :
      (side : String) (f : Flight sdk D) → Tells (fetch_args socket sdk side f) (flow_of side f)
  unfolding Dict.get
  fetch_args-Tells side f = record {
    side = refl;
    host = refl;
    method = refl;
    path = refl;
    status = status_told (str_eq side "request") f.msg.code;
  }

  module _ (py : Python) (size_of : Dict Json → ℕ) (to_str : Json → String) where
    -- Asked for rules by the hook, a daemon that was started answers with the payloads of the rules
    -- that are in force for the message, packed into one response, and keeps its state.
    pub get_rules_serves :
        (side : String) (f : Flight sdk D) (now : ℕ) (st : State) (e : Engine)
        → st.engine ≡ some e
        → handle_ipc_request py size_of to_str "get_rules" (fetch_args socket sdk side f) now st ≡ (
          ok (
              ok_response (
                arr (
                  of_list (
                    map
                      (λ p. obj (of_dict p))
                      (pack_rules_for_ipc size_of (Engine.match_for py (flow_of side f) now e)))))),
          st,
        )
    unfolding handle_ipc_request Engine.match_for
    get_rules_serves side f now st e h =
        rw
          (
            h,
            select-filter py (fetch_args socket sdk side f) (flow_of side f) now
                (Dict.values e.rules) (fetch_args-Tells side f),
          )
          refl
