-- ===== src/Rules/Checks.antt =====
-- What each group of checks in `add` accepts.
use reqable_mcp.Prelude.{
  ℕ, ◌+◌, ◌*◌, String, ◌≡◌, ◌⊎◌, refl, Bool, true, false, not, ◌&&◌, Option, none, some, str_eq,
  eq_iff, arith, is_some,
}
use reqable_mcp.Prelude.Int.{ℤ, pos, ◌≤ℤ◌, pos_part}
use reqable_mcp.Prelude.Result.{ok, value_error, raise_if, raise_if-eq-ok, raise_if-false}
use reqable_mcp.Python.{Python}
use reqable_mcp.Rules.{pattern_of}
use reqable_mcp.Rules.Matching.{Holds}
use reqable_mcp.Rules.Engine.{
  Spec, check_kind, check_status, validated_ttl, is_in, valid_kinds, valid_sides, max_ttl_seconds,
  micros,
}

-- A status bound that is absent, or an HTTP status.
abbrev pub IsStatus : Option ℤ → Type 0
IsStatus o = Holds o (λ n. (pos 100 ≤ℤ n) × (n ≤ℤ pos 599))

abbrev pub Ordered : Option ℤ → Option ℤ → Type 0
Ordered (some lo) (some hi) = lo ≤ℤ hi
Ordered _ _ = Unit

-- The kind and the side: both known, and fitting.
pub record IsKind (a : Spec) : Type 0 where
  pub kind : is_in a.kind valid_kinds ≡ true
  pub side : (a.side ≡ "request") ⊎ (a.side ≡ "response")
  pub mock : a.kind ≡ "mock" → a.side ≡ "response"
  pub block : a.kind ≡ "block" → a.side ≡ "request"
  pub relay_extract : a.kind ≡ "relay_extract" → a.side ≡ "response"
  pub relay_inject : a.kind ≡ "relay_inject" → a.side ≡ "request"

-- The bounds on the status: HTTP statuses in order, on the response side only.
pub record IsRange (a : Spec) : Type 0 where
  pub status_min : IsStatus a.status_min
  pub status_max : IsStatus a.status_max
  pub ordered : Ordered a.status_min a.status_max
  pub response_only :
      (is_some a.status_min ≡ true) ⊎ (is_some a.status_max ≡ true) → a.side ≡ "response"

abbrev pub IsLifetime : Option ℤ → Type 0
IsLifetime o = Holds o (λ n. (pos 1 ≤ℤ n) × (n ≤ℤ pos max_ttl_seconds))

-- What `add` asks of its arguments.
pub record IsValid (py : Python) (a : Spec) : Type 0 where
  pub kinds : IsKind a
  pub lifetime : IsLifetime a.ttl_seconds
  pub range : IsRange a
  pub pattern : Holds (pattern_of a.path_pattern) (λ p. py.compiles p ≡ true)

-- the deadline of a lifetime that starts now
abbrev pub deadline : ℕ → Option ℤ → Option ℤ
deadline now none = none
deadline now (some n) = some (pos (now + pos_part n * micros))

fits_of_test :
    (k s : String) (kind side : String)
    → str_eq kind k && not (str_eq side s) ≡ false
    → kind ≡ k
    → side ≡ s
fits_of_test k s kind side h e = ground (arith, eq_iff kind k, eq_iff side s)

side_of_test :
    (side : String)
    → not (is_in side valid_sides) ≡ false
    → (side ≡ "request") ⊎ (side ≡ "response")
side_of_test side h = ground (arith, eq_iff "request" side, eq_iff "response" side)

not-eq-false : (b : Bool) → not b ≡ false → b ≡ true
not-eq-false b h = ground arith

pub IsKind-of_check : (a : Spec) → check_kind a ≡ ok tt → IsKind a
unfolding check_kind
IsKind-of_check a h =
    let (kind, h₁) = raise_if-eq-ok _ _ _ h in
    let (side, h₂) = raise_if-eq-ok _ _ _ h₁ in
    let (mock, h₃) = raise_if-eq-ok _ _ _ h₂ in
    let (block, h₄) = raise_if-eq-ok _ _ _ h₃ in
    let (extract, h₅) = raise_if-eq-ok _ _ _ h₄ in
    record {
      kind = not-eq-false (is_in a.kind valid_kinds) kind;
      side = side_of_test a.side side;
      mock = fits_of_test "mock" "response" a.kind a.side mock;
      block = fits_of_test "block" "request" a.kind a.side block;
      relay_extract = fits_of_test "relay_extract" "response" a.kind a.side extract;
      relay_inject = fits_of_test "relay_inject" "request" a.kind a.side (raise_if-false _ _ h₅);
    }

raise_if_fits :
    (k s : String) (kind side : String)
    → (kind ≡ k → side ≡ s)
    → raise_if (str_eq kind k && not (str_eq side s)) value_error ≡ ok tt
raise_if_fits k s kind side h = ground (arith, eq_iff kind k, eq_iff side s)

pub check_of_IsKind : (a : Spec) → IsKind a → check_kind a ≡ ok tt
unfolding check_kind
check_of_IsKind a k = rw k.kind (
    rw (side_known a.side k.side) (
      rw (raise_if_fits "mock" "response" a.kind a.side k.mock) (
        rw (raise_if_fits "block" "request" a.kind a.side k.block) (
          rw (raise_if_fits "relay_extract" "response" a.kind a.side k.relay_extract)
            (raise_if_fits "relay_inject" "request" a.kind a.side k.relay_inject)))))
  where
    side_known :
        (side : String) → (side ≡ "request") ⊎ (side ≡ "response") → is_in side valid_sides ≡ true
    side_known side h = ground (arith, eq_iff "request" side, eq_iff "response" side)

module _ (a : Spec) where
  pub IsRange-of_check : check_status a ≡ ok tt → IsRange a
  unfolding check_status
  IsRange-of_check h = record {
    status_min = ground arith;
    status_max = ground arith;
    ordered = ground arith;
    response_only = λ e. ground (arith, eq_iff a.side "response");
  }

  pub check_of_IsRange : IsRange a → check_status a ≡ ok tt
  unfolding check_status
  check_of_IsRange r = ground (arith, eq_iff a.side "response", r.response_only)

pub validated_ttl_of_IsLifetime :
    (o : Option ℤ) (now : ℕ) → IsLifetime o → validated_ttl o now ≡ ok (deadline now o)
unfolding validated_ttl
validated_ttl_of_IsLifetime none now h = refl
validated_ttl_of_IsLifetime (some n) now h = ground arith

pub IsLifetime-of_deadline :
    (o : Option ℤ) (now : ℕ) (t : Option ℤ)
    → validated_ttl o now ≡ ok t
    → IsLifetime o × (t ≡ deadline now o)
unfolding validated_ttl
IsLifetime-of_deadline none now t h = (tt, cc)
IsLifetime-of_deadline (some n) now t h = ground arith
