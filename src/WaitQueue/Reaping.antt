-- ===== src/WaitQueue/Reaping.antt =====
-- Popping the waiters that are stale, and every call seen from one waiter.
use mathlib.Core.Path.{subst}
use reqable_mcp.Prelude.{
  String, ◌≡◌, refl, sym, ap, ◌∙◌, Bool, true, false, ◌&&◌, Option, none, some, List, [], ◌∷◌,
  str_eq, eq_iff, arith, if◌then◌else◌, Bool-cases, inl, inr,
}
use reqable_mcp.Prelude.Int.{ℤ, sub_ℕ}
use reqable_mcp.Prelude.Dict
use reqable_mcp.Prelude.Dict.Laws.{get-put}
use reqable_mcp.Python.{Python}
use reqable_mcp.WaitQueue.Waiters
use reqable_mcp.WaitQueue.Projection.{is_in-pop, is_in-append, notify_each-state}
use reqable_mcp.WaitQueue.Calls.{Call, exec, State, state_of, signaled, step}
use reqable_mcp.WaitQueue.Waiters.{
  Waiter, WaitQueue, is_in, pop, deliver, visit, notify_each, notify, is_stale_entry, stale_ids,
  signal, unregister, reap_one, reap_each,
}

signal_self :
    (id : String) (o : Option Waiter) (q : WaitQueue)
    → Dict.get q.objects id ≡ o
    → state_of id (signal id o (unregister id q)) ≡ (signaled o, false)
signal_self id none q g = ground (arith, is_in-pop id id q.registered, eq_iff id id)
signal_self id (some w) q g = ground (
  arith,
  is_in-pop id id q.registered,
  eq_iff id id,
  get-put q.objects id (record w { signaled = true }) id,
)

signal_other :
    (i id : String) (o : Option Waiter) (q : WaitQueue)
    → str_eq i id ≡ false
    → state_of id (signal i o (unregister i q)) ≡ state_of id q
signal_other i id none q ne = ground (arith, is_in-pop i id q.registered)
signal_other i id (some w) q ne =
    ground
      (arith, is_in-pop i id q.registered, get-put q.objects i (record w { signaled = true }) id)

-- what popping it does to one waiter
abbrev popped : State → State
popped s = if s.1 then (signaled s.0, false) else s

popped_again : (b : Bool) (s : State) → (if b then popped (popped s) else popped s) ≡ popped s
popped_again b (o, true) = ground arith
popped_again b (o, false) = ground arith

reap_one_self :
    (id : String) (q : WaitQueue) → state_of id (reap_one id q).1 ≡ popped (state_of id q)
unfolding reap_one
reap_one_self id q = ground (arith, signal_self id (Dict.get q.objects id) q refl)

reap_one_other :
    (i id : String) (q : WaitQueue)
    → str_eq i id ≡ false
    → state_of id (reap_one i q).1 ≡ state_of id q
unfolding reap_one
reap_one_other i id q ne = ground (arith, signal_other i id (Dict.get q.objects i) q ne)

reap_each-state :
    (id : String) (ids : List String) (q : WaitQueue)
    → state_of id (reap_each ids q).1
      ≡ (if is_in id ids then popped (state_of id q) else state_of id q)
unfolding reap_each
reap_each-state id [] q = refl
reap_each-state id (i ∷ ids) q =
    let q' = (reap_one i q).1 in
    let later = λ (s : State). if is_in id ids then popped s else s in
    elim (Bool-cases (str_eq i id)) [
      | inl same ↦
          let seen =
            subst (λ k. state_of id (reap_one k q).1 ≡ popped (state_of id q))
              (sym ((eq_iff i id).0 same)) (reap_one_self id q) in
          rw same (
            reap_each-state id ids q' ∙ ap later seen ∙ popped_again (is_in id ids) (state_of id q))
      | inr other ↦ rw other (reap_each-state id ids q' ∙ ap later (reap_one_other i id q other))
    ]

is_in-stale_ids :
    (cutoff : ℤ) (id : String) (ids : List String) (q : WaitQueue)
    → is_in id (stale_ids cutoff ids q)
      ≡ is_in id ids && is_stale_entry cutoff (Dict.get q.objects id)
unfolding stale_ids
is_in-stale_ids cutoff id [] q = refl
is_in-stale_ids cutoff id (i ∷ ids) q = elim (Bool-cases (str_eq i id)) [
  | inl same ↦
      rw ((eq_iff i id).0 same) (ground (arith, is_in-stale_ids cutoff id ids q, eq_iff id id))
  | inr other ↦ ground (arith, is_in-stale_ids cutoff id ids q)
]

popped_of_stale :
    (stale : Bool) (s : State)
    → (if s.1 && stale then popped s else s) ≡ (if s.1 && stale then (signaled s.0, false) else s)
popped_of_stale stale (o, true) = refl
popped_of_stale stale (o, false) = refl

-- Whatever the call, what becomes of a waiter is found from that waiter alone, by `step`: the waiters
-- do not disturb each other.
pub exec-step :
    (py : Python) (id : String) (c : Call) (q : WaitQueue)
    → state_of id (exec py c q) ≡ step py id c (state_of id q)
unfolding exec Waiters.add Waiters.cancel Waiters.notify Waiters.wait_end Waiters.reap_expired
exec-step py id (Call.add spec j now) q = ground (
  arith,
  get-put q.objects j (record { spec = spec; signaled = false; matched = none; created_ts = now })
      id,
  is_in-append id j q.registered,
  eq_iff j id,
)
exec-step py id (Call.cancel j) q = ground (arith, is_in-pop j id q.registered)
exec-step py id (Call.notify c) q = notify_each-state py c id q.registered q
exec-step py id (Call.wait_end j) q = ground (arith, is_in-pop j id q.registered)
exec-step py id (Call.reap_expired max_age now) q =
    let cutoff = sub_ℕ now max_age in
    reap_each-state id (stale_ids cutoff q.registered q) q
    ∙ rw (is_in-stale_ids cutoff id q.registered q)
        (popped_of_stale (is_stale_entry cutoff (Dict.get q.objects id)) (state_of id q))
