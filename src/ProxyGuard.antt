-- ===== src/ProxyGuard.antt =====
-- proxy_guard.py: the variables of the environment that are removed, the state of the system's proxies,
-- and the decision to warn or to exit. The environment is a dictionary, and what `scutil --proxy`
-- prints is known by its fields. `int` of a text is a parameter.
pub mod Safety
mod Tests
use reqable_mcp.Prelude.{
  ℕ, String, Bool, true, false, not, ◌&&◌, ◌||◌, Option, none, some, List, [], ◌∷◌, str_eq,
  if◌then◌else◌,
}
use reqable_mcp.Prelude.Int.{ℤ}
use reqable_mcp.Prelude.Dict
use reqable_mcp.Prelude.Dict.{Dict}

abbrev pub proxy_env_vars : List String
proxy_env_vars =
    "HTTP_PROXY" ∷ "HTTPS_PROXY" ∷ "ALL_PROXY" ∷ "FTP_PROXY" ∷ "http_proxy" ∷ "https_proxy"
    ∷ "all_proxy" ∷ "ftp_proxy" ∷ []

pub record SystemProxyState : Type 0 where
  pub http_enabled : Bool
  pub https_enabled : Bool
  pub socks_enabled : Bool
  pub http_host : Option String
  pub http_port : Option ℤ
  pub https_host : Option String
  pub https_port : Option ℤ
  pub socks_host : Option String
  pub socks_port : Option ℤ

unfoldable pub any_enabled : SystemProxyState → Bool
any_enabled s = s.http_enabled || s.https_enabled || s.socks_enabled

-- `h in ("127.0.0.1", "localhost", "::1")`, where `None` is in no tuple of texts
unfoldable pub is_loopback : Option String → Bool
is_loopback none = false
is_loopback (some h) = str_eq h "127.0.0.1" || str_eq h "localhost" || str_eq h "::1"

-- the loop over the pairs
unfoldable pub all_loopback : List (Bool × Option String) → Bool
unfolding is_loopback
all_loopback [] = true
all_loopback ((enabled, h) ∷ pairs) =
    let rest = all_loopback pairs in
    if not enabled then rest else if not (is_loopback h) then false else rest

unfoldable pub points_to_loopback : SystemProxyState → Bool
unfolding any_enabled all_loopback
points_to_loopback s =
    if not (any_enabled s)
    then true
    else all_loopback (
        (s.http_enabled, s.http_host)
        ∷ (s.https_enabled, s.https_host)
        ∷ (s.socks_enabled, s.socks_host)
        ∷ [])

-- the loop of `scrub_env`: the variables that were there, and what is left
unfoldable pub delete_each : List String → Dict String → List String × Dict String
delete_each [] env = ([], env)
delete_each (var ∷ vars) env =
    let (removed, left) = delete_each vars (Dict.remove env var) in
    (if Dict.contains env var then var ∷ removed else removed, left)

unfoldable pub scrub_env : Dict String → List String × Dict String
unfolding delete_each
scrub_env env =
    let (removed, left) = delete_each proxy_env_vars env in
    (removed, Dict.put (Dict.put left "NO_PROXY" "*") "no_proxy" "*")

-- `fields.get(name, "0") == "1"`
abbrev pub flag : Dict String → String → Bool
flag d name = elim (Dict.get d name) [ none ↦ false | some v ↦ str_eq v "1" ]

-- `fields.get(name) or None`
abbrev pub or_none : Option String → Option String
or_none none = none
or_none (some s) = if str_eq s "" then none else some s

module _ (int : String → Option ℤ) where
  abbrev pub port : Dict String → String → Option ℤ
  port d name = elim (Dict.get d name) [ none ↦ none | some v ↦ int v ]

  -- `_parse_scutil_output`, from the fields of the lines
  unfoldable pub state_of_fields : Dict String → SystemProxyState
  state_of_fields d = record {
    http_enabled = flag d "HTTPEnable";
    https_enabled = flag d "HTTPSEnable";
    socks_enabled = flag d "SOCKSEnable";
    http_host = or_none (Dict.get d "HTTPProxy");
    http_port = port d "HTTPPort";
    https_host = or_none (Dict.get d "HTTPSProxy");
    https_port = port d "HTTPSPort";
    socks_host = or_none (Dict.get d "SOCKSProxy");
    socks_port = port d "SOCKSPort";
  }

-- how `assert_proxy_safe` ends: it returns the state, with a warning or without, or exits with code 2
pub data Ending : Type 0 where
  safe warned : SystemProxyState → Ending
  exited : Ending

abbrev pub is_strict : Option Bool → Dict String → Bool
is_strict none env = elim (Dict.get env "REQABLE_MCP_STRICT_PROXY") [
  | none ↦ false
  | some v ↦ str_eq v "1"
]
is_strict (some strict) env = strict

-- the system's state, which is detected after the variables are removed, is an argument
unfoldable pub assert_proxy_safe :
    Option Bool → SystemProxyState → Dict String → Ending × Dict String
assert_proxy_safe strict state env =
    let left = (scrub_env env).1 in
    if any_enabled state && not (points_to_loopback state)
    then (if is_strict strict env then exited else warned state, left)
    else (safe state, left)
