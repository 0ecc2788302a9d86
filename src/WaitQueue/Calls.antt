-- ===== src/WaitQueue/Calls.antt =====
-- Sequences of calls of the registry's methods, and what they mean for one waiter.
use reqable_mcp.Prelude.{
  ℕ, String, Bool, true, false, ◌&&◌, Option, none, some, List, [], ◌∷◌, str_eq, is_some,
  if◌then◌else◌,
}
use reqable_mcp.Prelude.Int.{sub_ℕ}
use reqable_mcp.Prelude.Result.{Result, ok, err}
use reqable_mcp.Prelude.Dict
use reqable_mcp.Python.{Python}
use reqable_mcp.WaitQueue.{Capture, FilterSpec, matches}
use reqable_mcp.WaitQueue.Waiters
use reqable_mcp.WaitQueue.Waiters.{Waiter, WaitQueue, is_in, is_stale_entry}

pub data Call : Type 0 where
  add : FilterSpec → String → ℕ → Call
  cancel : String → Call
  notify : Capture → Call
  wait_end : String → Call
  reap_expired : ℕ → ℕ → Call

unfoldable pub exec : Python → Call → WaitQueue → WaitQueue
exec py (add spec id now) q = Waiters.add spec id now q
exec py (cancel id) q = Waiters.cancel id q
exec py (notify c) q = (Waiters.notify py c q).1
exec py (wait_end id) q = (Waiters.wait_end id q).1
exec py (reap_expired max_age now) q = (Waiters.reap_expired max_age now q).1

unfoldable pub run : Python → List Call → WaitQueue → WaitQueue
run py [] q = q
run py (c ∷ calls) q = run py calls (exec py c q)

-- One waiter: its object, and whether it is registered.
abbrev pub State : Type 0
State = Option Waiter × Bool

abbrev pub state_of : String → WaitQueue → State
state_of id q = (Dict.get q.objects id, is_in id q.registered)

-- What a capture does to one waiter that is visited.
abbrev pub stamp : Capture → Waiter → Bool → Result Bool → State
stamp c w reg (err x) = (some w, false)
stamp c w reg (ok false) = (some w, reg)
stamp c w reg (ok true) = (some (record w { matched = some c; signaled = true }), reg)

abbrev pub offer : Python → Capture → State → State
offer py c (none, reg) = (none, reg)
offer py c (some w, reg) =
    if is_some w.matched then (some w, reg) else stamp c w reg (matches py w.spec c)

abbrev pub signaled : Option Waiter → Option Waiter
signaled none = none
signaled (some w) = some (record w { signaled = true })

-- What a call does to one waiter.
abbrev pub step : Python → String → Call → State → State
step py id (add spec j now) s =
    if str_eq j id
    then (some (record { spec = spec; signaled = false; matched = none; created_ts = now }), true)
    else s
step py id (cancel j) s = if str_eq j id then (s.0, false) else s
step py id (notify c) s = if s.1 then offer py c s else s
step py id (wait_end j) s = if str_eq j id then (s.0, false) else s
step py id (reap_expired max_age now) s =
    if s.1 && is_stale_entry (sub_ℕ now max_age) s.0 then (signaled s.0, false) else s
