-- ===== src/Rules/Adding.antt =====
-- What `add` accepts and installs, and how the mutators change the rules that a flow gets.
use reqable_mcp.Prelude.{
  ℕ, String, ◌≡◌, ◌↔◌, refl, sym, ap, ◌∙◌, Bool, true, false, not, ◌&&◌, Option, none, some, [],
  ◌∷◌, ◌++◌, filter-append, arith, if◌then◌else◌,
}
use reqable_mcp.Prelude.Int.{ℤ}
use reqable_mcp.Prelude.Result.{ok, err, os_error, >>=-eq-ok, >>-eq-ok}
use reqable_mcp.Prelude.Dict
use reqable_mcp.Prelude.Dict.{Dict}
use reqable_mcp.Prelude.Dict.Laws.{put_fresh, values-append}
use reqable_mcp.Python.{Python}
use reqable_mcp.Rules.{Rule, Flow, matches, is_expired, post_init, pattern_of, admits}
use reqable_mcp.Rules.Matching.{Holds}
use reqable_mcp.Rules.Engine.{
  Engine, Spec, add, install, checked_rule, check_kind, check_status, new_rule, validated_ttl,
  match_for,
}
use reqable_mcp.Rules.Checks.{
  IsValid, deadline, IsKind-of_check, check_of_IsKind, IsRange-of_check, check_of_IsRange,
  validated_ttl_of_IsLifetime, IsLifetime-of_deadline,
}

pattern_iff :
    (py : Python) (o : Option String)
    → (admits o py.compiles ≡ true) ↔ Holds o (λ p. py.compiles p ≡ true)
pattern_iff py none = (λ _. tt, λ _. refl)
pattern_iff py (some p) = (λ h. h, λ h. h)

module _ (py : Python) (a : Spec) (uuid : String) (now later : ℕ) where
  abbrev pub made : Rule
  made = new_rule py a uuid (deadline now a.ttl_seconds) later

  pub checked_of_IsValid : IsValid py a → checked_rule py a uuid now later ≡ ok made
  unfolding checked_rule post_init new_rule
  checked_of_IsValid v = rw (check_of_IsKind a v.kinds) (
      rw (validated_ttl_of_IsLifetime a.ttl_seconds now v.lifetime) (
        rw (check_of_IsRange a v.range)
          (rw ((pattern_iff py (pattern_of a.path_pattern)).1 v.pattern))))

  post_init_inv :
      (t : Option ℤ) (r : Rule)
      → post_init py (new_rule py a uuid t later) ≡ ok r
      → (admits (pattern_of a.path_pattern) py.compiles ≡ true) × (r ≡ new_rule py a uuid t later)
  unfolding post_init new_rule
  post_init_inv t r h = ground arith

  pub IsValid-of_checked :
      (r : Rule) → checked_rule py a uuid now later ≡ ok r → IsValid py a × (r ≡ made)
  unfolding checked_rule
  IsValid-of_checked r h =
      let (kinds, h₁) = >>-eq-ok (check_kind a) _ h in
      let (t, timed, h₂) = >>=-eq-ok (validated_ttl a.ttl_seconds now) _ h₁ in
      let (ranged, h₃) = >>-eq-ok (check_status a) _ h₂ in
      let (compiled, same) = post_init_inv t r h₃ in
      let (lifetime, dated) = IsLifetime-of_deadline a.ttl_seconds now t timed in
      (
        record {
          kinds = IsKind-of_check a kinds;
          lifetime = lifetime;
          range = IsRange-of_check a ranged;
          pattern = (pattern_iff py (pattern_of a.path_pattern)).0 compiled;
        },
        same ∙ ap (λ x. new_rule py a uuid x later) dated,
      )

  -- `add` makes a rule exactly from valid arguments: a known kind on a side that fits it, a lifetime
  -- of 1 to 3600 seconds or none, HTTP statuses in order and only on the response side, and a pattern
  -- that compiles; the rule then expires its lifetime after the first reading of the clock.
  pub checked_rule-ok_iff :
      (r : Rule) → (checked_rule py a uuid now later ≡ ok r) ↔ (IsValid py a × (r ≡ made))
  checked_rule-ok_iff r =
      (IsValid-of_checked r, λ (v, same). checked_of_IsValid v ∙ ap ok (sym same))

  module _ (writes : Bool) (e : Engine) where
    pub install-rules : (r : Rule) → (install py (ok r) writes e).1.rules ≡ Dict.put e.rules r.id r
    unfolding install
    install-rules r = ground arith

    pub install-result :
        (r : Rule) → (install py (ok r) writes e).0 ≡ (if writes then ok r else err os_error)
    unfolding install
    install-result r = ground arith

    match_for-put :
        (r : Rule) (e' : Engine) (f : Flow) (t : ℕ)
        → e'.rules ≡ Dict.put e.rules r.id r
        → Dict.contains e.rules r.id ≡ false
        → match_for py f t e'
          ≡ match_for py f t e ++ (if not (is_expired t r) && matches py r f then r ∷ [] else [])
    unfolding match_for
    match_for-put r e' f t same fresh =
        rw (same, put_fresh e.rules r.id r fresh, values-append, filter-append) (ground arith)

    -- With valid arguments and a new id, the rule is in force at once: every flow gets the rules it
    -- got before, and after them the new one while it is alive if it matches. That is so whether or
    -- not rules.json could be written; if it could not, the call raises nevertheless.
    pub add_in_force :
        (f : Flow) (t : ℕ)
        → IsValid py a
        → Dict.contains e.rules uuid ≡ false
        → ((add py a uuid now later writes e).0 ≡ (if writes then ok made else err os_error))
          × (match_for py f t (add py a uuid now later writes e).1
              ≡ match_for py f t e
                ++ (if not (is_expired t made) && matches py made f then made ∷ [] else []))
    unfolding add new_rule
    add_in_force f t v fresh =
        rw (checked_of_IsValid v)
          (install-result made, match_for-put made _ f t (install-rules made) fresh)

    -- `add` with valid arguments and a file that can be written, as one equation
    pub add_written :
        IsValid py a
        → writes ≡ true
        → (e' : Engine) × (add py a uuid now later writes e ≡ (ok made, e'))
          × (e'.rules ≡ Dict.put e.rules uuid made)
    unfolding add new_rule
    add_written v w = rw (checked_of_IsValid v) (
      (install py (ok made) writes e).1,
      ap (λ r. (r, (install py (ok made) writes e).1)) (install-result made ∙ rw w refl),
      install-rules made,
    )
