-- ===== src/Rules/Index.antt =====
-- The invariant of the engine's dictionary, kept by every method: each rule stands once, under its id.
use reqable_mcp.Prelude.{ℕ, String, ◌≡◌, refl, Bool, not, some, [], ◌∷◌, filter, map, eq_iff, arith}
use reqable_mcp.Prelude.Dict
use reqable_mcp.Prelude.Dict.{Dict, IsUnique}
use reqable_mcp.Prelude.Dict.Laws.{keep_all, IsUnique-put, remove_all-keep, length-keys}
use reqable_mcp.Python.{Python}
use reqable_mcp.Rules.{Rule, is_expired}
use reqable_mcp.Rules.Engine.{Engine, reap_expired}

-- Each rule stands under its own id.
abbrev pub HasIds : Dict Rule → Type 0
HasIds [] = Unit
HasIds ((k, r) ∷ d) = (k ≡ r.id) × HasIds d

pub record IsIndexed (e : Engine) : Type 0 where
  pub unique : IsUnique e.rules
  pub ids : HasIds e.rules

pub HasIds-put : (d : Dict Rule) (r : Rule) → HasIds d → HasIds (Dict.put d r.id r)
unfolding Dict.put
HasIds-put [] r h = (refl, tt)
HasIds-put ((k, s) ∷ d) r (h, hs) = ground (arith, HasIds-put d r hs, eq_iff k r.id)

pub HasIds-remove : (d : Dict Rule) (id : String) → HasIds d → HasIds (Dict.remove d id)
unfolding Dict.remove
HasIds-remove [] id h = tt
HasIds-remove ((k, s) ∷ d) id (h, hs) = ground (arith, HasIds-remove d id hs)

pub HasIds-keep : (p : Rule → Bool) (d : Dict Rule) → HasIds d → HasIds (Dict.keep p d)
unfolding Dict.keep
HasIds-keep p [] h = tt
HasIds-keep p ((k, s) ∷ d) (h, hs) = ground (arith, HasIds-keep p d hs)

pub HasIds-get :
    (d : Dict Rule) (id : String) (r : Rule) → HasIds d → Dict.get d id ≡ some r → r.id ≡ id
unfolding Dict.get
HasIds-get [] id r h g = cc
HasIds-get ((k, s) ∷ d) id r (h, hs) g = ground (arith, HasIds-get d id r hs, eq_iff k id)

-- the ids of the rules that pass a test are their keys
pub ids-keep :
    (p : Rule → Bool) (d : Dict Rule)
    → HasIds d
    → map (λ r. r.id) (filter p (Dict.values d)) ≡ Dict.keys (Dict.keep p d)
unfolding Dict.keep
ids-keep p [] h = refl
ids-keep p ((k, r) ∷ d) (h, hs) = ground (arith, ids-keep p d hs)

pub reap_rules :
    (py : Python) (now : ℕ) (writes : Bool) (e : Engine)
    → IsIndexed e
    → (reap_expired py now writes e).1.rules ≡ Dict.keep (λ r. not (is_expired now r)) e.rules
unfolding reap_expired
reap_rules py now writes e v = rw (ids-keep (is_expired now) e.rules v.ids) (
    ground (
      arith,
      remove_all-keep (is_expired now) e.rules v.unique,
      keep_all (is_expired now) e.rules,
      length-keys (Dict.keep (is_expired now) e.rules),
    ))

put-IsIndexed :
    (e : Engine) (r : Rule)
    → IsIndexed e
    → IsUnique (Dict.put e.rules r.id r) × HasIds (Dict.put e.rules r.id r)
put-IsIndexed e r v = (IsUnique-put e.rules r.id r v.unique, HasIds-put e.rules r v.ids)
