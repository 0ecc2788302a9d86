-- ===== src/WaitQueue/Waiters.antt =====
-- wait_queue.py: `_Waiter` and the methods of `WaitQueue`.
use reqable_mcp.Prelude.{
  ℕ, ◌+◌, String, Bool, true, false, ◌||◌, Option, none, some, List, [], ◌∷◌, ◌++◌, length, str_eq,
  is_some, if◌then◌else◌,
}
use reqable_mcp.Prelude.Int.{ℤ, pos, ltb_ℤ, sub_ℕ}
use reqable_mcp.Prelude.Result.{Result, ok, err}
use reqable_mcp.Prelude.Dict
use reqable_mcp.Prelude.Dict.{Dict}
use reqable_mcp.Python.{Python}
use reqable_mcp.WaitQueue.{Capture, FilterSpec, matches}

pub record Waiter : Type 0 where
  pub spec : FilterSpec
  pub signaled : Bool
  pub matched : Option Capture
  pub created_ts : ℕ

pub record WaitQueue : Type 0 where
  pub objects : Dict Waiter
  pub registered : List String

abbrev pub empty : WaitQueue
empty = record { objects = []; registered = [] }

abbrev pub is_in : String → List String → Bool
is_in k [] = false
is_in k (j ∷ js) = str_eq j k || is_in k js

-- `self._waiters.pop(id, None)`
unfoldable pub pop : String → List String → List String
pop k [] = []
pop k (j ∷ js) = let rest = pop k js in if str_eq j k then rest else j ∷ rest

abbrev pub unregister : String → WaitQueue → WaitQueue
unregister id q = record q { registered = pop id q.registered }

-- `add`, with the uuid that it makes
unfoldable pub add : FilterSpec → String → ℕ → WaitQueue → WaitQueue
add spec id now q = record {
  objects =
      Dict.put q.objects id
        (record { spec = spec; signaled = false; matched = none; created_ts = now });
  registered = if is_in id q.registered then q.registered else q.registered ++ id ∷ [];
}

unfoldable pub cancel : String → WaitQueue → WaitQueue
unfolding pop
cancel id q = unregister id q

-- one round of `notify`, by the outcome of the filter
unfoldable pub deliver : Capture → String → Waiter → Result Bool → WaitQueue → ℕ × WaitQueue
unfolding pop
deliver c id w (err x) q = (0, unregister id q)
deliver c id w (ok false) q = (0, q)
deliver c id w (ok true) q = (
  1,
  record q { objects = Dict.put q.objects id (record w { matched = some c; signaled = true }) },
)

module _ (py : Python) where
  unfoldable pub visit : Capture → String → Option Waiter → WaitQueue → ℕ × WaitQueue
  visit c id none q = (0, q)
  visit c id (some w) q =
      if is_some w.matched then (0, q) else deliver c id w (matches py w.spec c) q

  -- the loop over the waiters that were registered when it began
  unfoldable pub notify_each : Capture → List String → WaitQueue → ℕ × WaitQueue
  notify_each c [] q = (0, q)
  notify_each c (id ∷ ids) q =
      let (n, q') = visit c id (Dict.get q.objects id) q in
      let (m, q'') = notify_each c ids q' in (n + m, q'')

  unfoldable pub notify : Capture → WaitQueue → ℕ × WaitQueue
  unfolding notify_each
  notify c q = notify_each c q.registered q

-- the two halves of `wait`: whether there is a waiter to block on, and what it returns in the end
unfoldable pub wait_begin : String → WaitQueue → Bool
wait_begin id q = is_in id q.registered

abbrev pub matched_of : Option Waiter → Option Capture
matched_of none = none
matched_of (some w) = w.matched

unfoldable pub wait_end : String → WaitQueue → Option Capture × WaitQueue
unfolding pop
wait_end id q = (matched_of (Dict.get q.objects id), unregister id q)

unfoldable pub active_count : WaitQueue → ℕ
active_count q = length q.registered

-- `w.created_ts < time.time() - max_age_s`, in microseconds
abbrev pub is_stale : ℤ → Waiter → Bool
is_stale cutoff w = ltb_ℤ (pos w.created_ts) cutoff

abbrev pub is_stale_entry : ℤ → Option Waiter → Bool
is_stale_entry cutoff none = false
is_stale_entry cutoff (some w) = is_stale cutoff w

-- the ids whose waiters are stale, in order
unfoldable pub stale_ids : ℤ → List String → WaitQueue → List String
stale_ids cutoff [] q = []
stale_ids cutoff (id ∷ ids) q =
    let rest = stale_ids cutoff ids q in
    if is_stale_entry cutoff (Dict.get q.objects id) then id ∷ rest else rest

-- `w.event.set()`
abbrev pub signal : String → Option Waiter → WaitQueue → WaitQueue
signal id none q = q
signal id (some w) q = record q { objects = Dict.put q.objects id (record w { signaled = true }) }

-- one round of the loop that pops them
unfoldable pub reap_one : String → WaitQueue → ℕ × WaitQueue
unfolding pop
reap_one id q =
    if is_in id q.registered
    then (1, signal id (Dict.get q.objects id) (unregister id q))
    else (0, q)

unfoldable pub reap_each : List String → WaitQueue → ℕ × WaitQueue
reap_each [] q = (0, q)
reap_each (id ∷ ids) q =
    let (n, q') = reap_one id q in let (m, q'') = reap_each ids q' in (n + m, q'')

unfoldable pub reap_expired : ℕ → ℕ → WaitQueue → ℕ × WaitQueue
unfolding reap_each stale_ids
reap_expired max_age now q = reap_each (stale_ids (sub_ℕ now max_age) q.registered q) q
