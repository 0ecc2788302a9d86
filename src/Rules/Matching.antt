-- ===== src/Rules/Matching.antt =====
-- Which rules a request or a response gets.
use reqable_mcp.Prelude.{
  String, ◌≡◌, ◌↔◌, ◌⊎◌, refl, Bool, true, ◌||◌, is_some, Option, none, some, str_eq, eq_iff, arith,
  if◌then◌else◌,
}
use reqable_mcp.Prelude.Int.{ℤ, ◌≤ℤ◌}
use reqable_mcp.Python.{Python}
use reqable_mcp.Rules.{Rule, Flow, or_empty, pattern_of, admits, matches, status_in}

-- A filter that is absent or satisfied.
abbrev pub Holds {ℓ} : {A : Type ℓ} → Option A → (A → Type 0) → Type 0
Holds none P = Unit
Holds (some a) P = P a

-- A pattern that is absent, empty or found.
abbrev pub Finds : (String → String → Bool) → Option String → String → Type 0
Finds search none path = Unit
Finds search (some p) path = (p ≡ "") ⊎ (search p path ≡ true)

-- No bound, or a known status within the bounds.
abbrev pub InStatus : Option ℤ → Option ℤ → Option ℤ → Type 0
InStatus none none status = Unit
InStatus lo hi none = ⊥
InStatus lo hi (some n) = Holds lo (λ m. m ≤ℤ n) × Holds hi (λ m. n ≤ℤ m)

-- The filters of a rule, read as conditions on what it is matched with.
pub record Matches (py : Python) (r : Rule) (f : Flow) : Type 0 where
  pub side : f.side ≡ r.side
  pub host : Holds r.host (λ h. py.lower (or_empty f.host) ≡ h)
  pub method : Holds r.method (λ m. py.upper (or_empty f.method) ≡ m)
  pub path : Finds py.search r.path_pattern (or_empty f.path)
  pub status : InStatus r.status_min r.status_max f.status

Holds_iff :
    (s : String) (o : Option String) → (admits o (λ h. str_eq s h) ≡ true) ↔ Holds o (λ h. s ≡ h)
Holds_iff s none = (λ _. tt, λ _. refl)
Holds_iff s (some h) = eq_iff s h

Finds_iff :
    (search : String → String → Bool) (o : Option String) (path : String)
    → (admits (pattern_of o) (λ p. search p path) ≡ true) ↔ Finds search o path
Finds_iff search none path = (λ _. tt, λ _. refl)
Finds_iff search (some p) path = ground (arith, eq_iff p "")

status_iff :
    (lo hi status : Option ℤ)
    → ((if is_some lo || is_some hi then status_in lo hi status else true) ≡ true)
      ↔ InStatus lo hi status
unfolding status_in
status_iff none none none = ground arith
status_iff none none (some n) = ground arith
status_iff (some lo) hi none = ground arith
status_iff none (some hi) none = ground arith
status_iff (some lo) none (some n) = ground arith
status_iff none (some hi) (some n) = ground arith
status_iff (some lo) (some hi) (some n) = ground arith

module _ (py : Python) (r : Rule) (f : Flow) where
  open py use {lower, upper, search}

  abbrev host_iff :
      (admits r.host (λ h. str_eq (lower (or_empty f.host)) h) ≡ true)
      ↔ Holds r.host (λ h. lower (or_empty f.host) ≡ h)
  host_iff = Holds_iff (lower (or_empty f.host)) r.host

  abbrev method_iff :
      (admits r.method (λ m. str_eq (upper (or_empty f.method)) m) ≡ true)
      ↔ Holds r.method (λ m. upper (or_empty f.method) ≡ m)
  method_iff = Holds_iff (upper (or_empty f.method)) r.method

  abbrev path_iff :
      (admits (pattern_of r.path_pattern) (λ p. search p (or_empty f.path)) ≡ true)
      ↔ Finds search r.path_pattern (or_empty f.path)
  path_iff = Finds_iff search r.path_pattern (or_empty f.path)

  Matches-of_test : matches py r f ≡ true → Matches py r f
  unfolding matches
  Matches-of_test h = record {
    side = ground (arith, eq_iff f.side r.side);
    host = host_iff.0 (ground arith);
    method = method_iff.0 (ground arith);
    path = path_iff.0 (ground arith);
    status = (status_iff r.status_min r.status_max f.status).0 (ground arith);
  }

  matches_of_Matches : Matches py r f → matches py r f ≡ true
  unfolding matches
  matches_of_Matches m = rw ((eq_iff f.side r.side).1 m.side) (
      rw (host_iff.1 m.host) (
        rw (method_iff.1 m.method)
          (rw (path_iff.1 m.path) ((status_iff r.status_min r.status_max f.status).1 m.status))))

  -- A rule matches exactly when its side is the flow's and each filter that it has is satisfied; a
  -- rule with a bound on the status matches only a known status within the bounds.
  pub matches_iff : (matches py r f ≡ true) ↔ Matches py r f
  matches_iff = (Matches-of_test, matches_of_Matches)
