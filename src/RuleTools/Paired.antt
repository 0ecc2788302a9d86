-- ===== src/RuleTools/Paired.antt =====
-- `auto_token_relay` installs both of its rules or none.
use reqable_mcp.Prelude.{
  String, ◌≡◌, refl, ap, ◌∙◌, Bool, true, false, not, ◌||◌, Option, none, some, eq_iff, arith, inl,
  inr, Bool-cases,
}
use reqable_mcp.Prelude.Int.{ℤ, pos, leb_ℤ, ltb_ℤ}
use reqable_mcp.Prelude.Result.{Result, ok, err, value_error}
use reqable_mcp.Prelude.Dict
use reqable_mcp.Prelude.Dict.{Dict}
use reqable_mcp.Python.{Python}
use reqable_mcp.Rules.{Rule, pattern_of, admits}
use reqable_mcp.Rules.Matching.{Holds}
use reqable_mcp.Rules.Engine.{Engine, max_ttl_seconds}
use reqable_mcp.Rules.Checks.{IsValid, IsLifetime}
use reqable_mcp.Rules.Adding.{made, add_written}
use reqable_mcp.RuleTools.Relay.{
  RelayArgs, Outside, extract_spec, inject_spec, refuses, pair_up, second_add, add_both,
  auto_token_relay,
}

abbrev map_rules : Option Engine → Option (Dict Rule)
map_rules none = none
map_rules (some e) = some e.rules

compiled :
    (py : Python) (o : Option String)
    → not (admits o py.compiles) ≡ false
    → Holds (pattern_of o) (λ p. py.compiles p ≡ true)
compiled py none h = tt
compiled py (some p) h = ground arith

IsLifetime-of :
    (t : ℤ) → leb_ℤ t (pos 0) || ltb_ℤ (pos max_ttl_seconds) t ≡ false → IsLifetime (some t)
IsLifetime-of t h = ground arith

module _ (py : Python) (a : RelayArgs) where
  record Passed : Type 0 where
    pub lifetime : IsLifetime (some a.ttl_seconds)
    pub source : Holds (pattern_of a.source_path_pattern) (λ p. py.compiles p ≡ true)
    pub target : Holds (pattern_of a.target_path_pattern) (λ p. py.compiles p ≡ true)

  passed : refuses py a ≡ false → Passed
  unfolding refuses
  passed h = record {
    lifetime = ground arith;
    source = compiled py a.source_path_pattern (ground arith);
    target = compiled py a.target_path_pattern (ground arith);
  }

  extract-IsValid : Passed → IsValid py (extract_spec py a)
  extract-IsValid p = record {
    kinds = record {
      kind = refl;
      side = inr refl;
      mock = λ e. ground (arith, eq_iff "relay_extract" "mock");
      block = λ e. ground (arith, eq_iff "relay_extract" "block");
      relay_extract = λ _. refl;
      relay_inject = λ e. ground (arith, eq_iff "relay_extract" "relay_inject");
    };
    lifetime = p.lifetime;
    range = record { status_min = tt; status_max = tt; ordered = tt; response_only = λ _. refl };
    pattern = p.source;
  }

  inject-IsValid : Passed → IsValid py (inject_spec py a)
  inject-IsValid p = record {
    kinds = record {
      kind = refl;
      side = inl refl;
      mock = λ e. ground (arith, eq_iff "relay_inject" "mock");
      block = λ _. refl;
      relay_extract = λ e. ground (arith, eq_iff "relay_inject" "relay_extract");
      relay_inject = λ _. refl;
    };
    lifetime = p.lifetime;
    range = record {
      status_min = tt;
      status_max = tt;
      ordered = tt;
      response_only = λ h. ground arith;
    };
    pattern = p.target;
  }

  module _ (first second : Outside) (undo : Bool) (e : Engine) where
    abbrev extracts : Rule
    extracts = made py (extract_spec py a) first.uuid first.now first.later

    abbrev injects : Rule
    injects = made py (inject_spec py a) second.uuid second.now second.later

    -- what the call leaves: an error and the rules of before, or both rules
    pub data BothOrNone (left : Result (Rule × Rule) × Option Engine) : Type 0 where
      neither : refuses py a ≡ true → left.0 ≡ err value_error → left.1 ≡ some e → BothOrNone left
      both :
          refuses py a ≡ false
          → left.0 ≡ ok (extracts, injects)
          → map_rules left.1
            ≡ some (Dict.put (Dict.put e.rules first.uuid extracts) second.uuid injects)
          → BothOrNone left

    both_added :
        first.writes ≡ true
        → second.writes ≡ true
        → Passed
        → refuses py a ≡ false
        → BothOrNone (auto_token_relay py a first second undo (some e))
    unfolding auto_token_relay add_both second_add pair_up
    both_added w₁ w₂ p h =
        let (e₁, eq₁, put₁) =
          add_written py _ first.uuid first.now first.later first.writes e (extract-IsValid p) w₁ in
        let (e₂, eq₂, put₂) =
          add_written py _ second.uuid second.now second.later second.writes e₁ (inject-IsValid p)
            w₂ in
        rw (h, eq₁, eq₂) (both h refl (ap some (put₂ ∙ rw put₁ refl)))

    -- As long as rules.json can be written, the tool installs both of its rules or none, whatever the
    -- arguments are: if one of its own checks refuses them, it answers with an error and leaves the
    -- engine as it was, and otherwise the second `add` is not refused either, and the tool has put
    -- the rule that extracts and then the one that injects.
    pub relay_paired :
        first.writes ≡ true
        → second.writes ≡ true
        → BothOrNone (auto_token_relay py a first second undo (some e))
    unfolding auto_token_relay add_both
    relay_paired w₁ w₂ = elim (Bool-cases (refuses py a)) [
      | inl bad ↦ rw bad (neither bad refl refl)
      | inr good ↦ both_added w₁ w₂ (passed good) good
    ]
