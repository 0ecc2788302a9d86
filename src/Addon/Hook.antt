-- ===== src/Addon/Hook.antt =====
-- hook/template/addons.py: `onRequest` and `onResponse`. Each gives what it returns or raises, and what it
-- leaves. The order of the kinds is that of the two tables of the file.
use reqable_mcp.Prelude.{
  ℕ, String, Bool, true, false, not, ◌&&◌, Option, none, some, List, [], ◌∷◌, ◌++◌, filter, sort_by,
  if◌then◌else◌,
}
use reqable_mcp.Prelude.Result.{Result, ok, err, type_error, runtime_error, ◌>>=◌}
use reqable_mcp.Prelude.Dict
use reqable_mcp.Prelude.Dict.{Dict}
use reqable_mcp.Json.{Json, arr, obj}
use reqable_mcp.WaitQueue.{truthy, is_text}
use reqable_mcp.Addon.{Sdk, Runtime, Socket, Flight}
use reqable_mcp.Addon.Client.{objects, fetch_rules, report_dry_run, report_hits}
use reqable_mcp.Addon.Apply.{text_at, apply_rule}

-- `_REQUEST_KIND_ORDER`
abbrev pub request_kind_order : Dict ℕ
request_kind_order =
    ("relay_inject", 0)
    ∷ ("inject_header", 1)
    ∷ ("patch_field", 2)
    ∷ ("patch_multipart", 2)
    ∷ ("regex_replace", 3)
    ∷ ("replace_body", 4)
    ∷ ("tag", 9)
    ∷ ("comment", 9)
    ∷ []

-- `_RESPONSE_KIND_ORDER`
abbrev pub response_kind_order : Dict ℕ
response_kind_order =
    ("relay_extract", 0)
    ∷ ("inject_header", 1)
    ∷ ("patch_field", 2)
    ∷ ("regex_replace", 3)
    ∷ ("replace_body", 4)
    ∷ ("mock", 5)
    ∷ ("tag", 9)
    ∷ ("comment", 9)
    ∷ []

-- `order.get(rule.get("kind"), 9)`, for a kind that may be looked up
abbrev pub or_nine : Option ℕ → ℕ
or_nine none = 9
or_nine (some n) = n

unfoldable pub sort_key : Dict ℕ → Dict Json → ℕ
sort_key order rule = elim (text_at rule "kind") [
  | none ↦ 9
  | some kind ↦ or_nine (Dict.get order kind)
]

-- a list or a dictionary cannot be looked up: `TypeError`
abbrev pub hashable : Option Json → Bool
hashable (some (arr vs)) = false
hashable (some (obj fs)) = false
hashable _ = true

unfoldable pub all_hashable : List (Dict Json) → Bool
all_hashable [] = true
all_hashable (rule ∷ rules) = hashable (Dict.get rule "kind") && all_hashable rules

abbrev pub is_block : Dict Json → Bool
is_block rule = is_text (Dict.get rule "kind") "block"

abbrev pub is_dry : Dict Json → Bool
is_dry rule = truthy (Dict.get rule "dry_run")

-- the ids that are texts
unfoldable pub ids : List (Dict Json) → List String
ids [] = []
ids (rule ∷ rules) =
    let rest = ids rules in elim (text_at rule "id") [ none ↦ rest | some id ↦ id ∷ rest ]

module _ (sdk : Sdk) (rt : Runtime) {D : Type 0} (socket : Socket D) where
  -- the loop that applies the rules: the hits, and what it leaves
  unfoldable pub apply_each : String → List (Dict Json) → Flight sdk D → List String × Flight sdk D
  apply_each side [] f = ([], f)
  apply_each side (rule ∷ rules) f =
      let (done, f') = apply_rule sdk rt socket side rule f in
      let (hits, f'') = apply_each side rules f' in
      (if done then ids (rule ∷ []) ++ hits else hits, f'')

  abbrev pub hit : String → List String → Flight sdk D → Flight sdk D
  hit side hits f = record f { daemon = report_hits socket side f.context.uid hits f.daemon }

  unfoldable pub apply_sorted :
      Dict ℕ → String → List (Dict Json) → Flight sdk D → Result (Unit {0}) × Flight sdk D
  unfolding apply_each
  apply_sorted order side rules f =
      if all_hashable rules
      then (let (hits, f') = apply_each side (sort_by (sort_key order) rules) f in
          (ok tt, hit side hits f'))
      else (err type_error, f)

  -- the loop that reports the dry blocks
  unfoldable pub report_each : String → List (Dict Json) → Flight sdk D → Flight sdk D
  report_each side [] f = f
  report_each side (rule ∷ rules) f =
      report_each side rules (report_dry_run socket sdk (text_at rule "id") side f)

  -- the two passes over the rules of a request, by the blocks that abort it
  abbrev pub passes :
      List (Dict Json)
      → List (Dict Json)
      → List (Dict Json)
      → Flight sdk D
      → Result (Unit {0}) × Flight sdk D
  passes (b ∷ bs) dry rest f = (err runtime_error, hit "request" (ids (b ∷ bs) ++ ids dry) f)
  passes [] dry rest f = apply_sorted request_kind_order "request" rest (hit "request" (ids dry) f)

  unfoldable pub request_with : List (Dict Json) → Flight sdk D → Result (Unit {0}) × Flight sdk D
  unfolding report_each apply_sorted
  request_with rules f =
      let blocks = filter is_block rules in
      let dry = filter is_dry blocks in
      passes (filter (λ r. not (is_dry r)) blocks) dry (filter (λ r. not (is_block r)) rules)
        (report_each "request" dry f)

  abbrev pub handled :
      (List (Dict Json) → Flight sdk D → Result (Unit {0}) × Flight sdk D)
      → Result (List (Dict Json))
      → Flight sdk D
      → Result (Unit {0}) × Flight sdk D
  handled next (err e) f = (err e, f)
  handled next (ok rules) f = next rules f

  unfoldable pub on_request : Flight sdk D → Result (Unit {0}) × Flight sdk D
  on_request f =
      let (fetched, d) = fetch_rules socket sdk "request" f in
      handled request_with (fetched >>= objects) (record f { daemon = d })

  unfoldable pub on_response : Flight sdk D → Result (Unit {0}) × Flight sdk D
  on_response f =
      let (fetched, d) = fetch_rules socket sdk "response" f in
      handled (apply_sorted response_kind_order "response") (fetched >>= objects)
        (record f { daemon = d })
