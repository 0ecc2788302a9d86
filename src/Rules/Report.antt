-- ===== src/Rules/Report.antt =====
-- rules.py: the two methods of `RuleEngine` that report on the rules, `list_all` and `stats`.
use reqable_mcp.Prelude.{
  ℕ, ◌+◌, ◌-◌, String, true, not, ◌&&◌, Option, none, some, List, [], ◌∷◌, length, filter, str_eq,
}
use reqable_mcp.Prelude.Int.{ℤ, pos, ◌+ℤ◌}
use reqable_mcp.Prelude.Dict
use reqable_mcp.Prelude.Dict.{Dict}
use reqable_mcp.Rules.{Rule, is_expired}
use reqable_mcp.Rules.Engine.{Engine}

unfoldable pub list_all : Option String → ℕ → Engine → List Rule
list_all kind now e =
    filter (λ r. not (is_expired now r) && (elim kind [ none ↦ true | some k ↦ str_eq r.kind k ]))
      (Dict.values e.rules)

pub record Stats : Type 0 where
  pub active : ℕ
  pub expired_pending_reap : ℕ
  pub total_hits : ℤ
  pub by_kind : Dict ℕ

-- `sum(r.hits for r in active)`
unfoldable pub sum_hits : List Rule → ℤ
sum_hits [] = pos 0
sum_hits (r ∷ rs) = r.hits +ℤ sum_hits rs

-- `by_kind[r.kind] = by_kind.get(r.kind, 0) + 1`
unfoldable pub count_kinds : List Rule → Dict ℕ → Dict ℕ
count_kinds [] d = d
count_kinds (r ∷ rs) d =
    count_kinds rs (Dict.put d r.kind ((elim (Dict.get d r.kind) [ none ↦ 0 | some n ↦ n ]) + 1))

unfoldable pub stats : ℕ → Engine → Stats
unfolding sum_hits count_kinds
stats now e =
    let active = filter (λ r. not (is_expired now r)) (Dict.values e.rules) in
    record {
      active = length active;
      expired_pending_reap = length e.rules - length active;
      total_hits = sum_hits active;
      by_kind = count_kinds active [];
    }
