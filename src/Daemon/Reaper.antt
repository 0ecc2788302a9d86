-- ===== src/Daemon/Reaper.antt =====
-- daemon.py: one round of `_reap_loop`, and what it leaves to be seen. An exception of a reaper is
-- logged, and the round goes on.
use reqable_mcp.Prelude.{ℕ, ◌≤◌, String, ◌≡◌, ap, Bool, Option, none, some}
use reqable_mcp.Prelude.Dict.{IsUnique}
use reqable_mcp.Python.{Python}
use reqable_mcp.Rules.{Flow}
use reqable_mcp.Rules.Engine
use reqable_mcp.Rules.Engine.{Engine}
use reqable_mcp.Rules.Index.{IsIndexed}
use reqable_mcp.Rules.Reaping.{reap_unseen}
use reqable_mcp.Relay
use reqable_mcp.Relay.{RelayStore}
use reqable_mcp.Relay.View.{view, reap_expired-view}
use reqable_mcp.Daemon.Dispatch.{State}

module _ (py : Python) where
  abbrev pub reap_rules : ℕ → Bool → Option Engine → Option Engine
  reap_rules now writes none = none
  reap_rules now writes (some e) = some (Engine.reap_expired py now writes e).1

  abbrev pub reap_tokens : ℕ → Option RelayStore → Option RelayStore
  reap_tokens now none = none
  reap_tokens now (some s) = some (Relay.reap_expired now s).1

  -- the two reapers read the clock one after the other
  unfoldable pub reap_round : ℕ → ℕ → Bool → State → State
  reap_round now later writes st = record st {
    engine = reap_rules now writes st.engine;
    relay = reap_tokens later st.relay;
  }

  -- A round of the reaper, whether or not rules.json could be written, changes neither the rules that
  -- any flow gets nor what any token's name stands for, then or later.
  pub round_unseen :
      (st : State) (e : Engine) (s : RelayStore) (now later t : ℕ) (writes : Bool)
      → st.engine ≡ some e
      → st.relay ≡ some s
      → IsIndexed e
      → IsUnique s.values
      → now ≤ t
      → later ≤ t
      → let st' = reap_round now later writes st in
        (e' : Engine) × (s' : RelayStore) × (st'.engine ≡ some e')
        × (st'.relay ≡ some s')
        × ((f : Flow) → Engine.match_for py f t e' ≡ Engine.match_for py f t e)
        × ((name : String) → view s' t name ≡ view s t name)
  unfolding reap_round
  round_unseen st e s now later t writes h k v u le le' = (
    (Engine.reap_expired py now writes e).1,
    (Relay.reap_expired later s).1,
    ap (reap_rules now writes) h,
    ap (reap_tokens later) k,
    λ f. (reap_unseen py now writes e v f none t le).0,
    (reap_expired-view s later t le' u).0,
  )
