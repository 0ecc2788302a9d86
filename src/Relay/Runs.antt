-- ===== src/Relay/Runs.antt =====
-- Any sequence of calls of the store's methods, each with the time at which it is made.
use reqable_mcp.Prelude.{ℕ, ◌≤◌, String, Bool, true, false, List, [], ◌∷◌, str_eq, not, All, ◌≡◌}
use reqable_mcp.Prelude.Int.{ℤ}
use reqable_mcp.Json.{Json}
use reqable_mcp.Relay
use reqable_mcp.Relay.{RelayStore}

pub data Call : Type 0 where
  set : String → Json → ℤ → Call
  get : String → Call
  remove : String → Call
  clear : Call
  reap_expired : Call

unfoldable pub exec : ℕ → Call → RelayStore → RelayStore
exec now (set name value ttl) s = (Relay.set name value ttl now s).1
exec now (get name) s = (Relay.get name now s).1
exec now (remove name) s = (Relay.remove name s).1
exec now clear s = (Relay.clear s).1
exec now reap_expired s = (Relay.reap_expired now s).1

unfoldable pub run : List (ℕ × Call) → RelayStore → RelayStore
run [] s = s
run ((now, c) ∷ calls) s = run calls (exec now c s)

-- The call neither writes nor deletes the name.
abbrev pub spares : String → Call → Bool
spares name (set j v ttl) = not (str_eq j name)
spares name (get j) = true
spares name (remove j) = not (str_eq j name)
spares name clear = false
spares name reap_expired = true

-- The calls are made by the time `t`, and spare the name.
abbrev pub Spares : String → ℕ → List (ℕ × Call) → Type 0
Spares name t = All (λ c. (c.0 ≤ t) × (spares name c.1 ≡ true))
