-- ===== src/ProxyGuard/Tests.antt =====
-- The guard at concrete inputs.
use reqable_mcp.Prelude.{String, ◌≡◌, ◌↔◌, ◌⊎◌, refl, true, none, some, [], ◌∷◌, if◌then◌else◌}
use reqable_mcp.Prelude.Dict
use reqable_mcp.Prelude.Dict.{Dict}
use reqable_mcp.ProxyGuard.{
  SystemProxyState, safe, warned, exited, state_of_fields, is_strict, assert_proxy_safe,
  any_enabled, points_to_loopback,
}
use reqable_mcp.ProxyGuard.Safety.{AreLocal, ends_safe_iff}

abbrev settings : Dict String
settings = ("HTTPEnable", "1") ∷ ("HTTPProxy", "10.0.0.1") ∷ ("HTTPSEnable", "0") ∷ []

abbrev state : SystemProxyState
state = state_of_fields (λ s. none) settings

abbrev env : Dict String
env = ("HTTP_PROXY", "http://10.0.0.1") ∷ ("HOME", "/root") ∷ []

strict_exits : (assert_proxy_safe (some true) state env).0 ≡ exited
unfolding assert_proxy_safe state_of_fields Dict.get any_enabled points_to_loopback
strict_exits = refl

ends_safe_iff_example :
    (((assert_proxy_safe none state env).0 ≡ safe state) ↔ AreLocal state)
    × (((assert_proxy_safe none state env).0 ≡ safe state)
        ⊎ ((assert_proxy_safe none state env).0
            ≡ (if is_strict none env then exited else warned state)))
ends_safe_iff_example = ends_safe_iff none state env
