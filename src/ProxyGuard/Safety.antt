-- ===== src/ProxyGuard/Safety.antt =====
-- What the guard leaves in the environment, and when it lets the program go on.
use reqable_mcp.Prelude.{
  String, ◌≡◌, ◌↔◌, ◌⊎◌, inl, inr, refl, ap, ◌∙◌, Bool, true, false, not, ◌&&◌, ◌||◌, Option, none,
  some, List, [], ◌∷◌, str_eq, eq_iff, arith, if◌then◌else◌,
}
use reqable_mcp.Prelude.Dict
use reqable_mcp.Prelude.Dict.{Dict}
use reqable_mcp.Prelude.Dict.Laws.{get-put, get-remove}
use reqable_mcp.ProxyGuard.{
  SystemProxyState, proxy_env_vars, any_enabled, is_loopback, all_loopback, points_to_loopback,
  delete_each, scrub_env, Ending, safe, warned, exited, is_strict, assert_proxy_safe,
}

-- `k in ks`
abbrev pub is_in : String → List String → Bool
is_in k [] = false
is_in k (j ∷ js) = str_eq j k || is_in k js

-- A proxy that is off, or on and at one of the names of this machine.
abbrev pub IsLocal : Bool → Option String → Type 0
IsLocal enabled host =
    (enabled ≡ false) ⊎ (host ≡ some "127.0.0.1") ⊎ (host ≡ some "localhost") ⊎ (host ≡ some "::1")

pub record AreLocal (s : SystemProxyState) : Type 0 where
  pub http : IsLocal s.http_enabled s.http_host
  pub https : IsLocal s.https_enabled s.https_host
  pub socks : IsLocal s.socks_enabled s.socks_host

loopback_iff :
    (enabled : Bool) (h : Option String) → (not enabled || is_loopback h ≡ true) ↔ IsLocal enabled h
unfolding is_loopback
loopback_iff enabled none = ground arith
loopback_iff enabled (some h) =
    ground (arith, eq_iff h "127.0.0.1", eq_iff h "localhost", eq_iff h "::1")

points_to-eq :
    (s : SystemProxyState)
    → points_to_loopback s
      ≡ (not s.http_enabled || is_loopback s.http_host)
        && (not s.https_enabled || is_loopback s.https_host)
        && (not s.socks_enabled || is_loopback s.socks_host)
unfolding points_to_loopback any_enabled all_loopback
points_to-eq s = ground arith

delete_each-get :
    (vars : List String) (env : Dict String) (k : String)
    → Dict.get (delete_each vars env).1 k ≡ (if is_in k vars then none else Dict.get env k)
unfolding delete_each
delete_each-get [] env k = refl
delete_each-get (var ∷ vars) env k =
    ground (arith, delete_each-get vars (Dict.remove env var) k, get-remove env var k)

module _ (state : SystemProxyState) where
  local_iff : (points_to_loopback state ≡ true) ↔ AreLocal state
  local_iff = (
    λ h. record {
      http =
          (loopback_iff state.http_enabled state.http_host).0 (ground (arith, points_to-eq state));
      https =
          (loopback_iff state.https_enabled state.https_host).0
            (ground (arith, points_to-eq state));
      socks =
          (loopback_iff state.socks_enabled state.socks_host).0
            (ground (arith, points_to-eq state));
    },
    λ l.
        points_to-eq state
        ∙ rw
            (
              (loopback_iff state.http_enabled state.http_host).1 l.http,
              (loopback_iff state.https_enabled state.https_host).1 l.https,
              (loopback_iff state.socks_enabled state.socks_host).1 l.socks,
            )
            refl,
  )

  ending :
      (strict : Option Bool) (env : Dict String)
      → (assert_proxy_safe strict state env).0 ≡ (
          if points_to_loopback state
          then safe state
          else if is_strict strict env
          then exited
          else warned state)
  unfolding assert_proxy_safe points_to_loopback
  ending strict env = ground arith

  choice :
      (test strict : Bool) (e : Ending)
      → e ≡ (if test then safe state else if strict then exited else warned state)
      → ((e ≡ safe state) ↔ (test ≡ true))
        × ((e ≡ safe state) ⊎ (e ≡ (if strict then exited else warned state)))
  choice true strict e h = ((λ _. refl, λ _. h), inl h)
  choice false true e h = ((λ x. absurd (cc), λ x. absurd (cc)), inr h)
  choice false false e h = ((λ x. absurd (cc), λ x. absurd (cc)), inr h)

-- The program goes on without a warning exactly when every proxy that is on is at this machine.
-- Otherwise it exits if it is strict and warns if it is not.
pub ends_safe_iff :
    (strict : Option Bool) (state : SystemProxyState) (env : Dict String)
    → (((assert_proxy_safe strict state env).0 ≡ safe state) ↔ AreLocal state)
      × (((assert_proxy_safe strict state env).0 ≡ safe state)
          ⊎ ((assert_proxy_safe strict state env).0
              ≡ (if is_strict strict env then exited else warned state)))
ends_safe_iff strict state env =
    let (chosen, ends) =
      choice state (points_to_loopback state) (is_strict strict env) _ (ending state strict env) in
    ((λ h. (local_iff state).0 (chosen.0 h), λ l. chosen.1 ((local_iff state).1 l)), ends)

scrub_env-get :
    (env : Dict String) (k : String)
    → Dict.get (scrub_env env).1 k ≡ (
        if is_in k ("NO_PROXY" ∷ "no_proxy" ∷ [])
        then some "*"
        else if is_in k proxy_env_vars
        then none
        else Dict.get env k)
unfolding scrub_env
scrub_env-get env k =
    let left = (delete_each proxy_env_vars env).1 in
    get-put (Dict.put left "NO_PROXY" "*") "no_proxy" "*" k
    ∙ ground (arith, get-put left "NO_PROXY" "*" k, delete_each-get proxy_env_vars env k)

assert-scrub_env :
    (strict : Option Bool) (state : SystemProxyState) (env : Dict String)
    → (assert_proxy_safe strict state env).1 ≡ (scrub_env env).1
unfolding assert_proxy_safe
assert-scrub_env strict state env = ground arith

-- However the guard ends, it leaves no proxy variable in the environment, sets the two variables that
-- turn proxies off, and leaves every other variable as it was.
pub scrubs_env :
    (strict : Option Bool) (state : SystemProxyState) (env : Dict String) (k : String)
    → Dict.get (assert_proxy_safe strict state env).1 k ≡ (
        if is_in k ("NO_PROXY" ∷ "no_proxy" ∷ [])
        then some "*"
        else if is_in k proxy_env_vars
        then none
        else Dict.get env k)
scrubs_env strict state env k =
    ap (λ d. Dict.get d k) (assert-scrub_env strict state env) ∙ scrub_env-get env k
