-- ===== src/Addon/Blocking.antt =====
-- When a request is aborted.
use reqable_mcp.Prelude.{
  ℕ, String, ◌≡◌, ◌≢◌, ◌↔◌, ◌⊎◌, refl, ap, ◌∙◌, true, false, not, List, [], ◌∷◌, ◌++◌, filter,
  arith, inl, inr,
}
use reqable_mcp.Prelude.Result.{err, runtime_error}
use reqable_mcp.Prelude.Dict.{Dict}
use reqable_mcp.Json.{Json}
use reqable_mcp.Addon.{Sdk, Runtime, Socket, Flight}
use reqable_mcp.Addon.Hook.{
  request_kind_order, is_block, is_dry, ids, hit, apply_sorted, report_each, passes, request_with,
}
use reqable_mcp.Addon.Inert.{IsUntouched, report_each-IsUntouched}

-- Some rule is a block that is no dry run.
abbrev pub HasBlock : List (Dict Json) → Type 0
HasBlock [] = ⊥
HasBlock (r ∷ rs) = ((is_block r ≡ true) × (is_dry r ≡ false)) ⊎ HasBlock rs

abbrev pub real_blocks : List (Dict Json) → List (Dict Json)
real_blocks rules = filter (λ r. not (is_dry r)) (filter is_block rules)

HasBlock-of :
    (rules : List (Dict Json)) (b : Dict Json) (bs : List (Dict Json))
    → real_blocks rules ≡ b ∷ bs
    → HasBlock rules
HasBlock-of [] b bs h = cc
HasBlock-of (r ∷ rs) b bs h = ground (arith, HasBlock-of rs b bs)

none-HasBlock : (rules : List (Dict Json)) → HasBlock rules → real_blocks rules ≢ []
none-HasBlock [] h e = h
none-HasBlock (r ∷ rs) h e = ground (arith, none-HasBlock rs)

module _ (sdk : Sdk) (rt : Runtime) {D : Type 0} (socket : Socket D) where
  apply_sorted-ne :
      (order : Dict ℕ) (side : String) (rules : List (Dict Json)) (f : Flight sdk D)
      → (apply_sorted sdk rt socket order side rules f).0 ≢ err runtime_error
  unfolding apply_sorted
  apply_sorted-ne order side rules f h = ground arith

  -- the passes, by the blocks that are no dry runs
  aborted :
      (rules real dry rest : List (Dict Json)) (f : Flight sdk D)
      → real_blocks rules ≡ real
      → ((passes sdk rt socket real dry rest f).0 ≡ err runtime_error ↔ HasBlock rules)
        × (((passes sdk rt socket real dry rest f).0 ≢ err runtime_error)
            ⊎ (passes sdk rt socket real dry rest f
                ≡ (err runtime_error, hit sdk rt socket "request" (ids real ++ ids dry) f)))
  aborted rules [] dry rest f h = (
    (
      λ e. absurd (apply_sorted-ne request_kind_order "request" rest _ e),
      λ b. absurd (none-HasBlock rules b h),
    ),
    inl (apply_sorted-ne request_kind_order "request" rest _),
  )
  aborted rules (b ∷ bs) dry rest f h = ((λ e. HasBlock-of rules b bs h, λ e. refl), inr refl)

  -- A request is aborted exactly when one of its rules is a block that is no dry run. Then no rule is
  -- applied: the message and the context are untouched, and of each block the match is reported.
  pub aborts_iff :
      (rules : List (Dict Json)) (f : Flight sdk D)
      → ((request_with sdk rt socket rules f).0 ≡ err runtime_error ↔ HasBlock rules)
        × (((request_with sdk rt socket rules f).0 ≢ err runtime_error)
            ⊎ IsUntouched sdk f (request_with sdk rt socket rules f).1)
  unfolding request_with
  aborts_iff rules f =
      let dry = filter is_dry (filter is_block rules) in
      let rest = filter (λ r. not (is_block r)) rules in
      let g = report_each sdk rt socket "request" dry f in
      let u = report_each-IsUntouched sdk rt socket "request" dry f in
      let (iff, ends) = aborted rules (real_blocks rules) dry rest g refl in
      (
        iff,
        elim ends [
          | inl other ↦ inl other
          | inr e ↦ inr (record {
            msg = ap (λ r. r.1.msg) e ∙ u.msg;
            context = ap (λ r. r.1.context) e ∙ u.context;
          })
        ],
      )
