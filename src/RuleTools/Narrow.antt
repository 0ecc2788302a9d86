-- ===== src/RuleTools/Narrow.antt =====
-- `block_request` installs no rule that blocks everything.
use reqable_mcp.Prelude.{
  ℕ, String, ◌≡◌, ◌⊎◌, refl, Bool, true, false, not, ◌||◌, Option, none, some, inl, inr, eq_iff,
  arith, [],
}
use reqable_mcp.Prelude.Int.{ℤ}
use reqable_mcp.Prelude.Result.{ok, raise_if-eq-ok, value_error}
use reqable_mcp.Python.{Python}
use reqable_mcp.Rules.{Rule}
use reqable_mcp.Rules.Engine.{Engine, Spec, new_rule, folded}
use reqable_mcp.RuleTools.{Host, Filters, block_request}
use reqable_mcp.RuleTools.Checks.{is_specified, is_catchall}
use reqable_mcp.RuleTools.Calls.{spec, prepare, prepare_block, call}
use reqable_mcp.RuleTools.Atomic.{call-made}

-- A rule that filters by a host, a path pattern or a method.
pub data HasFilter (r : Rule) : Type 0 where
  by_host : (h : String) → r.host ≡ some h → HasFilter r
  by_path : (p : String) → r.path_pattern ≡ some p → ¬ p ≡ "" → HasFilter r
  by_method : (m : String) → r.method ≡ some m → HasFilter r

specified : (o : Option String) → is_specified o ≡ true → (s : String) × (o ≡ some s) × (¬ s ≡ "")
specified none h = cc
specified (some s) h = (s, refl, ground (arith, eq_iff s ""))

folded-some :
    (f : String → String) (o : Option String)
    → is_specified o ≡ true
    → (s : String) × (folded f o ≡ some s)
folded-some f none h = cc
folded-some f (some s) h = (f s, ground arith)

one_of : (a b c : Bool) → a || b || c ≡ true → (a ≡ true) ⊎ (b ≡ true) ⊎ (c ≡ true)
one_of true b c h = inl refl
one_of false true c h = inr (inl refl)
one_of false false c h = inr (inr h)

module _ (py : Python) (host : Host) (fl : Filters) where
  abbrev given : Bool
  given = is_specified fl.host || is_specified fl.path_pattern || is_specified fl.method

  filtered :
      (uuid : String) (t : Option ℤ) (now : ℕ)
      → given ≡ true
      → HasFilter (new_rule py (spec "block" "request" [] fl) uuid t now)
  unfolding new_rule
  filtered uuid t now h = elim (one_of _ _ _ h) [
    | inl h ↦ let (s, e) = folded-some py.lower fl.host h in by_host s e
    | inr (inl h) ↦ let (s, e, p) = specified fl.path_pattern h in by_path s e p
    | inr (inr h) ↦ let (s, e) = folded-some py.upper fl.method h in by_method s e
  ]

  blocked :
      (a : Spec)
      → prepare py host (block_request fl) ≡ ok a
      → (given ≡ true) × (is_catchall fl.path_pattern ≡ false) × (a ≡ spec "block" "request" [] fl)
  unfolding prepare prepare_block
  blocked a h =
      let (filter_given, h₁) = raise_if-eq-ok (not given) value_error _ h in
      let (narrow, h₂) = raise_if-eq-ok (is_catchall fl.path_pattern) value_error _ h₁ in
      (ground (arith, filter_given), narrow, cc)

  -- A rule that `block_request` installs blocks requests, names a host, a non-empty path pattern or a
  -- method to filter by, and its path pattern is none of those that match every path.
  pub block-narrow :
      (uuid : String) (now later : ℕ) (writes : Bool) (e : Engine) (r : Rule)
      → (call py host (block_request fl) uuid now later writes (some e)).0 ≡ ok r
      → (r.kind ≡ "block")
        × (r.side ≡ "request")
        × HasFilter r
        × (is_catchall r.path_pattern ≡ false)
  unfolding new_rule
  block-narrow uuid now later writes e r h =
      let (a, good, _, made_of) =
        call-made py host uuid now later writes e (block_request fl) r h in
      let (given, narrow, same) = blocked a good in
      rw (made_of, same) (refl, refl, filtered uuid _ later given, narrow)
