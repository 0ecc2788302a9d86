-- ===== src/Rules/Removing.antt =====
-- How `remove` and `record_hit` change the rules that a flow gets.
use reqable_mcp.Prelude.{
  ℕ, String, ◌≡◌, refl, sym, is_some, Bool, true, false, not, ◌&&◌, Option, none, some, [], ◌∷◌,
  filter, map, str_eq, eq_iff, arith, if◌then◌else◌,
}
use reqable_mcp.Prelude.Int.{ℤ}
use reqable_mcp.Prelude.Result.{ok, err, os_error}
use reqable_mcp.Prelude.Dict
use reqable_mcp.Prelude.Dict.{Dict, IsUnique}
use reqable_mcp.Prelude.Dict.Laws.{remove_absent}
use reqable_mcp.Python.{Python}
use reqable_mcp.Rules.{Rule, Flow, matches, is_expired}
use reqable_mcp.Rules.Engine.{Engine, remove, record_hit, hit, increment, match_for}
use reqable_mcp.Rules.Index.{HasIds, IsIndexed}

-- the rule with one more hit, if it has the id
abbrev pub counted : String → Rule → Rule
counted id r = if str_eq r.id id then record r { hits = increment r.hits } else r

filter-remove :
    (p : Rule → Bool) (d : Dict Rule) (id : String)
    → HasIds d
    → filter p (Dict.values (Dict.remove d id))
      ≡ filter (λ r. not (str_eq r.id id)) (filter p (Dict.values d))
unfolding Dict.remove
filter-remove p [] id h = refl
filter-remove p ((k, r) ∷ d) id (h, hs) = ground (arith, filter-remove p d id hs)

counted_other :
    (p : Rule → Bool) (d : Dict Rule) (id : String)
    → HasIds d
    → Dict.contains d id ≡ false
    → map (counted id) (filter p (Dict.values d)) ≡ filter p (Dict.values d)
unfolding Dict.get
counted_other p [] id h g = refl
counted_other p ((k, r) ∷ d) id (h, hs) g = ground (arith, counted_other p d id hs)

module _ (p : Rule → Bool) (blind : (r : Rule) (n : ℤ) → p (record r { hits = n }) ≡ p r) where
  filter-hit :
      (d : Dict Rule) (id : String) (r : Rule)
      → IsUnique d
      → HasIds d
      → Dict.get d id ≡ some r
      → filter p (Dict.values (Dict.put d id (record r { hits = increment r.hits })))
        ≡ map (counted id) (filter p (Dict.values d))
  unfolding Dict.put Dict.get
  filter-hit [] id r u h g = cc
  filter-hit ((k, s) ∷ d) id r (absent, u) (h, hs) g = ground (
    arith,
    filter-hit d id r u hs,
    blind s (increment s.hits),
    counted_other p d k hs absent,
    eq_iff k id,
  )

hit-rules :
    (p : Rule → Bool) (id : String) (o : Option Rule) (e : Engine)
    → ((r : Rule) (n : ℤ) → p (record r { hits = n }) ≡ p r)
    → IsIndexed e
    → Dict.get e.rules id ≡ o
    → (filter p (Dict.values (hit id o e).1.rules)
        ≡ map (counted id) (filter p (Dict.values e.rules)))
      × ((hit id o e).0 ≡ is_some o)
unfolding hit
hit-rules p id none e blind v g = (sym (counted_other p e.rules id v.ids (ground arith)), refl)
hit-rules p id (some r) e blind v g = (filter-hit p blind e.rules id r v.unique v.ids g, refl)

module _ (py : Python) (id : String) (writes : Bool) (e : Engine) where
  remove-rules : (remove py id writes e).1.rules ≡ Dict.remove e.rules id
  unfolding remove
  remove-rules = ground (arith, remove_absent e.rules id)

  remove-result :
      (remove py id writes e).0
      ≡ (if Dict.contains e.rules id then (if writes then ok true else err os_error) else ok false)
  unfolding remove
  remove-result = ground arith

blind_to_hits :
    (py : Python) (f : Flow) (t : ℕ) (r : Rule) (n : ℤ)
    → not (is_expired t (record r { hits = n })) && matches py (record r { hits = n }) f
      ≡ not (is_expired t r) && matches py r f
unfolding is_expired matches
blind_to_hits py f t r n = refl

module _ (py : Python) (f : Flow) (t : ℕ) (id : String) (e : Engine) (v : IsIndexed e) where
  -- After `remove` a flow gets the rules that it got before except the one with the id. The call
  -- raises if there was such a rule and rules.json could not be written, and otherwise tells whether
  -- there was one.
  pub remove_in_force :
      (writes : Bool)
      → (match_for py f t (remove py id writes e).1
          ≡ filter (λ r. not (str_eq r.id id)) (match_for py f t e))
        × ((remove py id writes e).0 ≡ (
            if Dict.contains e.rules id
            then (if writes then ok true else err os_error)
            else ok false))
  unfolding match_for
  remove_in_force writes = (
    rw (remove-rules py id writes e) (filter-remove _ e.rules id v.ids),
    remove-result py id writes e,
  )

  -- `record_hit` adds one to the count of the rule with the id and changes nothing else that a flow
  -- gets; it tells whether there is such a rule.
  pub record_hit_counts :
      (match_for py f t (record_hit id e).1 ≡ map (counted id) (match_for py f t e))
      × ((record_hit id e).0 ≡ Dict.contains e.rules id)
  unfolding record_hit match_for
  record_hit_counts = hit-rules _ id (Dict.get e.rules id) e (blind_to_hits py f t) v refl
