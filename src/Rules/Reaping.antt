-- ===== src/Rules/Reaping.antt =====
-- Deleting expired rules.
use reqable_mcp.Prelude.{
  ℕ, ◌+◌, ◌-◌, ◌==◌, ◌||◌, ◌∙◌, if◌then◌else◌, ◌≤◌, String, ◌≡◌, ap, Bool, true, false, Option,
  length, arith, filter-filter_of_imp,
}
use reqable_mcp.Prelude.Result.{ok, err, os_error}
use reqable_mcp.Prelude.Dict
use reqable_mcp.Prelude.Dict.Laws.{length-keep, length-keys, values-keep}
use reqable_mcp.Python.{Python}
use reqable_mcp.Rules.{Rule, Flow, is_expired}
use reqable_mcp.Rules.Engine.{Engine, reap_expired, match_for}
use reqable_mcp.Rules.Report.{list_all}
use reqable_mcp.Rules.Index.{IsIndexed, reap_rules, ids-keep}

is_expired_mono : (now t : ℕ) (r : Rule) → now ≤ t → is_expired now r ≡ true → is_expired t r ≡ true
unfolding is_expired
is_expired_mono now t r le h = ground arith

-- what survives a deletion at `now` holds all that is alive at `t` or later
survives : (now t : ℕ) (r : Rule) → now ≤ t → is_expired t r ≡ false → is_expired now r ≡ false
survives now t r le h = ground (arith, is_expired_mono now t r le)

module _ (py : Python) (now : ℕ) (writes : Bool) (e : Engine) (v : IsIndexed e) where
  abbrev reaped : Engine
  reaped = (reap_expired py now writes e).1

  match_for-reap : (f : Flow) (t : ℕ) → now ≤ t → match_for py f t reaped ≡ match_for py f t e
  unfolding match_for
  match_for-reap f t le = rw (reap_rules py now writes e v) (
      rw values-keep (
        filter-filter_of_imp _ _ (Dict.values e.rules)
          (λ r h. ground (arith, survives now t r le))))

  list_all-reap :
      (kind : Option String) (t : ℕ) → now ≤ t → list_all kind t reaped ≡ list_all kind t e
  unfolding list_all
  list_all-reap kind t le = rw (reap_rules py now writes e v) (
      rw values-keep (
        filter-filter_of_imp _ _ (Dict.values e.rules)
          (λ r h. ground (arith, survives now t r le))))

  -- the number of rules that have expired
  abbrev taken : ℕ
  taken = length (Dict.keep (is_expired now) e.rules)

  left_count : taken + length reaped.rules ≡ length e.rules
  left_count =
      omega (arith, length-keep (is_expired now) e.rules, ap length (reap_rules py now writes e v))

  reap_by_count :
      (reap_expired py now writes e).0
      ≡ (if taken == 0 then ok 0 else if writes then ok taken else err os_error)
  unfolding reap_expired
  reap_by_count = ground (
    arith,
    ids-keep (is_expired now) e.rules v.ids,
    length-keys (Dict.keep (is_expired now) e.rules),
  )

  reap_result : (reap_expired py now writes e).0 ≡ (
      if writes || (length reaped.rules == length e.rules)
      then ok (length e.rules - length reaped.rules)
      else err os_error)
  reap_result = reap_by_count ∙ ground (arith, left_count)

  -- Deleting expired rules changes neither what a flow gets nor what is listed, then or at any later
  -- time. The call returns how many rules it took out, and raises only if there was one to take out
  -- and the file could not be written.
  pub reap_unseen :
      (f : Flow) (kind : Option String) (t : ℕ)
      → now ≤ t
      → (match_for py f t reaped ≡ match_for py f t e)
        × (list_all kind t reaped ≡ list_all kind t e)
        × ((reap_expired py now writes e).0 ≡ (
            if writes || (length reaped.rules == length e.rules)
            then ok (length e.rules - length reaped.rules)
            else err os_error))
  reap_unseen f kind t le = (match_for-reap f t le, list_all-reap kind t le, reap_result)
