-- ===== src/RuleTools/Headers.antt =====
-- What `inject_header` accepts.
use mathlib.Core.Path.{subst}
use reqable_mcp.Prelude.{
  ℕ, String, ◌≡◌, ◌⊎◌, inl, inr, ◌↔◌, refl, sym, ap, ◌∙◌, Bool-cases, true, false, some, eq_iff,
  arith, str_eq, [], ◌∷◌,
}
use Prim.Native.Char.{code}
use reqable_mcp.Prelude.Result.{ok, raise_if-eq-ok, value_error, ok-inj}
use reqable_mcp.Json.{str}
use reqable_mcp.Python.{Python}
use reqable_mcp.Rules.{Rule, pattern_of}
use reqable_mcp.Rules.Matching.{Holds}
use reqable_mcp.Rules.Checks.{IsValid, IsLifetime}
use reqable_mcp.Rules.Engine.{Engine, Spec}
use reqable_mcp.Rules.Adding.{made, add_written}
use reqable_mcp.RuleTools.{Host, Filters, inject_header}
use reqable_mcp.RuleTools.Checks.{is_pseudo}
use reqable_mcp.RuleTools.Calls.{spec, prepare, prepare_header, install_spec, call}
use reqable_mcp.RuleTools.Atomic.{call-made}

apart : true ≡ false → ⊥
apart h = absurd (cc)

-- The first character is no colon.
abbrev pub HasNoColon : String → Type 0
HasNoColon String.[] = Unit
HasNoColon (String.◌∷◌ c s) = ¬ code c ≡ 58

HasNoColon-iff : (name : String) → HasNoColon name ↔ (is_pseudo name ≡ false)
unfolding is_pseudo
HasNoColon-iff String.[] = (λ _. refl, λ _. tt)
HasNoColon-iff (String.◌∷◌ c s) = (λ h. ground (arith, h), λ h e. ground (arith, h, e))

nonempty_iff : (name : String) → (¬ name ≡ "") ↔ (str_eq name "" ≡ false)
nonempty_iff name = (
  λ h. elim (Bool-cases (str_eq name "")) [ inl e ↦ absurd (h ((eq_iff name "").0 e)) | inr e ↦ e ],
  λ h e. apart (sym ((eq_iff name "").1 e) ∙ h),
)

module _ (py : Python) (host : Host) (name value side : String) (fl : Filters) where
  -- What the tool asks of its arguments.
  pub record IsAccepted : Type 0 where
    pub nonempty : ¬ name ≡ ""
    pub no_colon : HasNoColon name
    pub known_side : (side ≡ "request") ⊎ (side ≡ "response")
    pub lifetime : IsLifetime (some fl.ttl_seconds)
    pub pattern : Holds (pattern_of fl.path_pattern) (λ p. py.compiles p ≡ true)

  abbrev header_spec : Spec
  header_spec = spec "inject_header" side (("name", str name) ∷ ("value", str value) ∷ []) fl

  other_kind : (kind : String) → "inject_header" ≡ kind → str_eq "inject_header" kind ≡ false → ⊥
  other_kind kind h other = apart (sym ((eq_iff "inject_header" kind).1 h) ∙ other)

  no_bounds : (false ≡ true) ⊎ (false ≡ true) → side ≡ "response"
  no_bounds (inl h) = absurd (cc)
  no_bounds (inr h) = absurd (cc)

  IsValid-iff : (¬ name ≡ "") → HasNoColon name → IsValid py header_spec ↔ IsAccepted
  IsValid-iff named plain = (
    λ v. record {
      nonempty = named;
      no_colon = plain;
      known_side = v.kinds.side;
      lifetime = v.lifetime;
      pattern = v.pattern;
    },
    λ a. record {
      kinds = record {
        kind = refl;
        side = a.known_side;
        mock = λ h. absurd (other_kind "mock" h refl);
        block = λ h. absurd (other_kind "block" h refl);
        relay_extract = λ h. absurd (other_kind "relay_extract" h refl);
        relay_inject = λ h. absurd (other_kind "relay_inject" h refl);
      };
      lifetime = a.lifetime;
      range = record { status_min = tt; status_max = tt; ordered = tt; response_only = no_bounds };
      pattern = a.pattern;
    },
  )

  -- Where rules.json can be written, `inject_header` answers with a rule exactly if the name has a first
  -- character, which is no colon, the side is one of the two, the lifetime is within its bounds and the
  -- path pattern compiles; otherwise it answers with an error.
  pub inject_header-IsAccepted :
      (uuid : String) (now later : ℕ) (e : Engine)
      → ((r : Rule) × ((call py host
              (inject_header name value side fl)
              uuid
              now
              later
              true
              (some e)).0
            ≡ ok r))
        ↔ IsAccepted
  unfolding prepare prepare_header call install_spec
  inject_header-IsAccepted uuid now later e = (
    λ (r, h).
        let (a, good, valid, _) =
          call-made py host uuid now later true e (inject_header name value side fl) r h in
        let (nonempty, h₁) = raise_if-eq-ok (str_eq name "") value_error _ good in
        let (field, h₂) = raise_if-eq-ok (is_pseudo name) value_error _ h₁ in
        (IsValid-iff ((nonempty_iff name).1 nonempty) ((HasNoColon-iff name).1 field)).0
          (subst (IsValid py) (sym (ok-inj _ a h₂)) valid),
    λ accepted.
        let nonempty = (nonempty_iff name).0 accepted.nonempty in
        let field = (HasNoColon-iff name).0 accepted.no_colon in
        let (e', added, _) =
          add_written py header_spec uuid now later true e
            ((IsValid-iff accepted.nonempty accepted.no_colon).1 accepted) refl in
        (made py header_spec uuid now later, rw nonempty (rw field (ap (λ x. x.0) added))),
  )
