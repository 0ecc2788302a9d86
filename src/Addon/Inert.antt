-- ===== src/Addon/Inert.antt =====
-- When the hook leaves a message alone: dry-run rules, and a daemon that does not answer.
use mathlib.Core.Path.{subst}
use reqable_mcp.Prelude.{
  ℕ, String, ◌≡◌, refl, ap, ◌∙◌, Bool, true, not, Option, none, some, List, [], ◌∷◌, filter, All,
  arith, sort_by, All-sort_by, Bool-cases, inl, inr,
}
use reqable_mcp.Prelude.Result.{Result, ok, err, ◌>>=◌}
use reqable_mcp.Prelude.Dict.{Dict}
use reqable_mcp.Json.{Json}
use reqable_mcp.Addon.{Sdk, Runtime, Socket, Flight}
use reqable_mcp.Addon.Client.{
  objects, data_of, rules_in, fetch_args, fetch_rules, report_dry_run, report_hits,
}
use reqable_mcp.Addon.Apply.{text_at, apply_rule}
use reqable_mcp.Addon.Hook.{
  sort_key, request_kind_order, response_kind_order, all_hashable, is_block, is_dry, ids,
  apply_each, hit, apply_sorted, report_each, request_with, handled, on_request, on_response,
}

module _ (sdk : Sdk) {D : Type 0} where
  -- The message and the context are what they were: only the daemon may have changed.
  pub record IsUntouched (f g : Flight sdk D) : Type 0 where
    pub msg : g.msg ≡ f.msg
    pub context : g.context ≡ f.context

  pub untouched : (f : Flight sdk D) → IsUntouched f f
  untouched f = record { msg = refl; context = refl }

  pub IsUntouched-trans :
      (f g h : Flight sdk D) → IsUntouched f g → IsUntouched g h → IsUntouched f h
  IsUntouched-trans f g h a b = record { msg = b.msg ∙ a.msg; context = b.context ∙ a.context }

module _ (sdk : Sdk) (rt : Runtime) {D : Type 0} (socket : Socket D) where
  pub report_dry_run-IsUntouched :
      (id : Option String) (side : String) (f : Flight sdk D)
      → IsUntouched sdk f (report_dry_run socket sdk id side f)
  unfolding report_dry_run
  report_dry_run-IsUntouched none side f = untouched sdk f
  report_dry_run-IsUntouched (some id) side f = record {
    msg = ground arith;
    context = ground arith;
  }

  pub report_each-IsUntouched :
      (side : String) (rules : List (Dict Json)) (f : Flight sdk D)
      → IsUntouched sdk f (report_each sdk rt socket side rules f)
  unfolding report_each
  report_each-IsUntouched side [] f = untouched sdk f
  report_each-IsUntouched side (rule ∷ rules) f =
      let g = report_dry_run socket sdk (text_at rule "id") side f in
      IsUntouched-trans sdk f g (report_each sdk rt socket side rules g)
        (report_dry_run-IsUntouched (text_at rule "id") side f)
        (report_each-IsUntouched side rules g)

  dry-IsUntouched :
      (side : String) (rule : Dict Json) (f : Flight sdk D)
      → is_dry rule ≡ true
      → IsUntouched sdk f (apply_rule sdk rt socket side rule f).1
  unfolding apply_rule
  dry-IsUntouched side rule f dry = rw dry (report_dry_run-IsUntouched (text_at rule "id") side f)

  apply_each-IsUntouched :
      (side : String) (rules : List (Dict Json)) (f : Flight sdk D)
      → All (λ r. is_dry r ≡ true) rules
      → IsUntouched sdk f (apply_each sdk rt socket side rules f).1
  unfolding apply_each
  apply_each-IsUntouched side [] f all = untouched sdk f
  apply_each-IsUntouched side (rule ∷ rules) f (dry, all) =
      let g = (apply_rule sdk rt socket side rule f).1 in
      IsUntouched-trans sdk f g (apply_each sdk rt socket side rules g).1
        (dry-IsUntouched side rule f dry) (apply_each-IsUntouched side rules g all)

  hit-IsUntouched :
      (side : String) (hits : List String) (f g : Flight sdk D)
      → IsUntouched sdk f g
      → IsUntouched sdk f (hit sdk rt socket side hits g)
  hit-IsUntouched side hits f g u = record { msg = u.msg; context = u.context }

  apply_sorted-IsUntouched :
      (order : Dict ℕ) (side : String) (rules : List (Dict Json)) (f : Flight sdk D)
      → All (λ r. is_dry r ≡ true) rules
      → IsUntouched sdk f (apply_sorted sdk rt socket order side rules f).1
  unfolding apply_sorted
  apply_sorted-IsUntouched order side rules f all =
      let ts = sort_by (sort_key order) rules in
      let r = apply_each sdk rt socket side ts f in
      let u = hit-IsUntouched side r.0 f r.1 (
        apply_each-IsUntouched side ts f
          (All-sort_by (sort_key order) (λ r. is_dry r ≡ true) rules all)) in
      elim (Bool-cases (all_hashable rules)) [ inl e ↦ rw e u | inr e ↦ rw e (untouched sdk f) ]

  All-filter :
      (p q : Dict Json → Bool) (rules : List (Dict Json))
      → All (λ r. q r ≡ true) rules
      → All (λ r. q r ≡ true) (filter p rules)
  All-filter p q [] all = tt
  All-filter p q (r ∷ rs) (h, all) = elim (Bool-cases (p r)) [
    | inl e ↦ rw e (h, All-filter p q rs all)
    | inr e ↦ rw e (All-filter p q rs all)
  ]

  no_real :
      (rules : List (Dict Json))
      → All (λ r. is_dry r ≡ true) rules
      → filter (λ r. not (is_dry r)) rules ≡ []
  no_real [] all = refl
  no_real (r ∷ rs) (h, all) = rw h (no_real rs all)

  request_with-IsUntouched :
      (rules : List (Dict Json)) (f : Flight sdk D)
      → All (λ r. is_dry r ≡ true) rules
      → IsUntouched sdk f (request_with sdk rt socket rules f).1
  unfolding request_with
  request_with-IsUntouched rules f all =
      let blocks = filter is_block rules in
      let dry = filter is_dry blocks in
      let rest = filter (λ r. not (is_block r)) rules in
      let g = report_each sdk rt socket "request" dry f in
      let g' = hit sdk rt socket "request" (ids dry) g in
      rw (no_real blocks (All-filter is_block is_dry rules all)) (
        IsUntouched-trans sdk f g'
          (apply_sorted sdk rt socket request_kind_order "request" rest g').1
          (hit-IsUntouched "request" (ids dry) f g (report_each-IsUntouched "request" dry f))
          (apply_sorted-IsUntouched request_kind_order "request" rest g'
            (All-filter (λ r. not (is_block r)) is_dry rules all)))

  handled-IsUntouched :
      (next : List (Dict Json) → Flight sdk D → Result (Unit {0}) × Flight sdk D)
      (fetched : Result (List (Dict Json))) (rules : List (Dict Json)) (f : Flight sdk D)
      → fetched ≡ ok rules
      → IsUntouched sdk f (next rules f).1
      → IsUntouched sdk f (handled sdk rt socket next fetched f).1
  handled-IsUntouched next (err e) rules f h u = absurd (cc)
  handled-IsUntouched next (ok rs) rules f h u =
      let e : rules ≡ rs = cc in subst (λ x. IsUntouched sdk f (next x f).1) e u

  module _ (f : Flight sdk D) where
    -- If all the rules that the daemon sends for each of the two sides are dry-run rules, neither the
    -- request nor the response is changed, and nothing that is shown beside it.
    pub dry_run-IsUntouched :
        (rules rules' : List (Dict Json))
        → (fetch_rules socket sdk "request" f).0 >>= objects ≡ ok rules
        → (fetch_rules socket sdk "response" f).0 >>= objects ≡ ok rules'
        → All (λ r. is_dry r ≡ true) rules
        → All (λ r. is_dry r ≡ true) rules'
        → IsUntouched sdk f (on_request sdk rt socket f).1
          × IsUntouched sdk f (on_response sdk rt socket f).1
    unfolding on_request on_response
    dry_run-IsUntouched rules rules' sent sent' all all' =
        let g : Flight sdk D = record f { daemon = (fetch_rules socket sdk "request" f).1 } in
        let g' : Flight sdk D = record f { daemon = (fetch_rules socket sdk "response" f).1 } in
        let u =
          handled-IsUntouched (request_with sdk rt socket) _ rules g sent
            (request_with-IsUntouched rules g all) in
        let u' =
          handled-IsUntouched (apply_sorted sdk rt socket response_kind_order "response") _ rules'
            g' sent' (apply_sorted-IsUntouched response_kind_order "response" rules' g' all') in
        (record { msg = u.msg; context = u.context }, record { msg = u'.msg; context = u'.context })

    -- Without an answer of the daemon the message passes unchanged, and nothing is raised.
    pub passes_without_daemon :
        (d d' : D)
        → socket.ipc_call "get_rules" (fetch_args socket sdk "request" f) f.daemon ≡ (none, d)
        → socket.ipc_call "get_rules" (fetch_args socket sdk "response" f) f.daemon ≡ (none, d')
        → (on_request sdk rt socket f ≡ (ok tt, record f { daemon = d }))
          × (on_response sdk rt socket f ≡ (ok tt, record f { daemon = d' }))
    unfolding on_request on_response fetch_rules sort_by data_of rules_in objects request_with
        report_each apply_sorted all_hashable ids apply_each report_hits
    passes_without_daemon d d' h h' = (
      ap
          (λ r.
            handled sdk rt socket (request_with sdk rt socket)
              ((data_of r.0 >>= λ x. ok (rules_in x)) >>= objects) (record f { daemon = r.1 }))
          h,
      ap
          (λ r.
            handled sdk rt socket (apply_sorted sdk rt socket response_kind_order "response")
              ((data_of r.0 >>= λ x. ok (rules_in x)) >>= objects) (record f { daemon = r.1 }))
          h',
    )
