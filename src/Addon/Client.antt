-- ===== src/Addon/Client.antt =====
-- hook/template/addons.py: the calls of the daemon.
use reqable_mcp.Prelude.{
  String, Bool, false, Option, none, some, List, [], ◌∷◌, str_eq, if◌then◌else◌, map,
}
use reqable_mcp.Prelude.Int.{ℤ}
use reqable_mcp.Prelude.Result.{Result, ok, err, attribute_error, ◌>>=◌}
use reqable_mcp.Prelude.Dict
use reqable_mcp.Prelude.Dict.{Dict}
use reqable_mcp.Json.{Json, int, str, arr, obj, to_dict, to_list, of_list}
use reqable_mcp.WaitQueue.{truthy}
use reqable_mcp.Addon.Body.{text_only}
use reqable_mcp.Addon.{Sdk, Socket, Flight}

-- `resp is None or not resp.get("ok")`, which raises on a reply that is no object, and then
-- `resp.get("data")`
unfoldable pub data_of : Option Json → Result (Option Json)
data_of none = ok none
data_of (some (obj fs)) =
    ok (if truthy (Dict.get (to_dict fs) "ok") then Dict.get (to_dict fs) "data" else none)
data_of (some _) = err attribute_error

-- the rules, each of which has a `get`
unfoldable pub objects : List Json → Result (List (Dict Json))
objects [] = ok []
objects (obj fs ∷ vs) = do rest ← objects vs; ok (to_dict fs ∷ rest)
objects (v ∷ vs) = err attribute_error

-- `data if isinstance(data, list) else []`
unfoldable pub rules_in : Option Json → List Json
rules_in (some (arr vs)) = to_list vs
rules_in _ = []

abbrev pub confirmed : Option Json → Bool
confirmed none = false
confirmed (some (obj fs)) = truthy (Dict.get (to_dict fs) "ok")
confirmed (some _) = false

abbrev pub value_in : Result (Option Json) → Option String
value_in (ok (some (obj fs))) = text_only (Dict.get (to_dict fs) "value")
value_in _ = none

module _ {D : Type 0} (socket : Socket D) where
  open socket use {ipc_call}

  -- `_store_relay`; a reply that is no object raises, which the caller counts as a failure
  unfoldable pub store_relay : String → String → ℤ → D → Bool × D
  store_relay name value ttl d =
      let (reply, d') =
        ipc_call "store_relay_value"
          (("name", str name) ∷ ("value", str value) ∷ ("ttl_seconds", int ttl) ∷ []) d in
      (confirmed reply, d')

  -- `_get_relay`
  unfoldable pub get_relay : String → D → Option String × D
  unfolding data_of
  get_relay name d =
      let (reply, d') = ipc_call "get_relay_value" (("name", str name) ∷ []) d in
      (value_in (data_of reply), d')

  -- `_report_hits`
  unfoldable pub report_hits : String → String → List String → D → D
  report_hits side uid [] d = d
  report_hits side uid (h ∷ hs) d =
      (ipc_call "report_hit"
        (("side", str side)
          ∷ ("uid", str uid)
          ∷ ("rule_ids", arr (of_list (map str (h ∷ hs))))
          ∷ [])
        d).1

  module _ (sdk : Sdk) where
    -- the arguments of `get_rules`
    abbrev pub fetch_args : String → Flight sdk D → Dict Json
    fetch_args side f =
        ("side", str side)
        ∷ ("host", str f.context.host)
        ∷ ("method", str f.msg.method)
        ∷ ("path", str f.msg.path)
        ∷ (if str_eq side "request"
            then []
            else (elim f.msg.code [ none ↦ [] | some c ↦ ("status", int c) ∷ [] ]))

    -- `_fetch_rules`
    unfoldable pub fetch_rules : String → Flight sdk D → Result (List Json) × D
    unfolding data_of rules_in
    fetch_rules side f =
        let (reply, d) = ipc_call "get_rules" (fetch_args side f) f.daemon in
        (data_of reply >>= λ data_field. ok (rules_in data_field), d)

    -- `_report_dry_run`, for a rule's id if it has one
    unfoldable pub report_dry_run : Option String → String → Flight sdk D → Flight sdk D
    report_dry_run none side f = f
    report_dry_run (some id) side f = if str_eq id "" then f else record f {
      daemon =
          (ipc_call "report_dry_run"
            (("rule_id", str id)
              ∷ ("uid", str f.context.uid)
              ∷ ("host", str f.context.host)
              ∷ ("path", str f.msg.path)
              ∷ ("method", str f.msg.method)
              ∷ ("side", str side)
              ∷ [])
            f.daemon).1;
    }
