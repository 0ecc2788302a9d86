-- ===== src/WaitQueue/Delivery.antt =====
-- What `wait` returns.
use reqable_mcp.Prelude.{
  ℕ, ◌+◌, String, ◌≡◌, refl, ap, ◌∙◌, Bool, true, false, not, Option, none, some, List, [], ◌∷◌,
  str_eq, eq_iff, arith, is_some, All, leb, ◌⊎◌, inl, inr,
}
use reqable_mcp.Prelude.Result.{Result, ok, err}
use reqable_mcp.Python.{Python}
use reqable_mcp.WaitQueue.{Capture, FilterSpec, matches}
use reqable_mcp.WaitQueue.Waiters
use reqable_mcp.WaitQueue.Waiters.{Waiter, WaitQueue, is_stale, is_in, matched_of}
use reqable_mcp.WaitQueue.Calls.{Call, exec, run, State, state_of, offer, stamp, step}
use reqable_mcp.WaitQueue.Projection.{is_in-pop}
use reqable_mcp.WaitQueue.Reaping.{exec-step}

-- The captures that are notified, in order.
unfoldable pub notified : List Call → List Capture
notified [] = []
notified (Call.notify c ∷ calls) = c ∷ notified calls
notified (_ ∷ calls) = notified calls

abbrev pick : Capture → Option Capture → Result Bool → Option Capture
pick c rest (err x) = none
pick c rest (ok true) = some c
pick c rest (ok false) = rest

-- The first capture that the filter passes, unless it raises on an earlier one.
unfoldable pub first_match : Python → FilterSpec → List Capture → Option Capture
first_match py spec [] = none
first_match py spec (c ∷ cs) = let rest = first_match py spec cs in pick c rest (matches py spec c)

-- The call leaves the waiter to itself: no other call adds, cancels or ends it, and a reaping does
-- not find it too old.
abbrev pub spares : String → ℕ → Call → Bool
spares id created (Call.add spec j now) = not (str_eq j id)
spares id created (Call.cancel j) = not (str_eq j id)
spares id created (Call.notify c) = true
spares id created (Call.wait_end j) = not (str_eq j id)
spares id created (Call.reap_expired max_age now) = leb now (created + max_age)

unfoldable pub steps : Python → String → List Call → State → State
steps py id [] s = s
steps py id (c ∷ calls) s = steps py id calls (step py id c s)

run-steps :
    (py : Python) (id : String) (calls : List Call) (q : WaitQueue)
    → state_of id (run py calls q) ≡ steps py id calls (state_of id q)
unfolding run steps
run-steps py id [] q = refl
run-steps py id (c ∷ calls) q =
    run-steps py id calls (exec py c q) ∙ ap (steps py id calls) (exec-step py id c q)

-- the calls spare the waiter
abbrev pub Spared : String → ℕ → List Call → Type 0
Spared id created = All (λ c. spares id created c ≡ true)

module _ (py : Python) (id : String) where
  step_spared :
      (w : Waiter) (reg : Bool) (c : Call)
      → spares id w.created_ts c ≡ true
      → notified (c ∷ []) ≡ []
      → step py id c (some w, reg) ≡ (some w, reg)
  unfolding notified
  step_spared w reg (Call.add spec j now) h n = ground arith
  step_spared w reg (Call.cancel j) h n = ground arith
  step_spared w reg (Call.notify c) h n = cc
  step_spared w reg (Call.wait_end j) h n = ground arith
  step_spared w reg (Call.reap_expired max_age now) h n = ground arith

  -- a waiter that has its capture keeps it, and so does one that is out without one
  settled :
      (calls : List Call) (w : Waiter) (reg : Bool)
      → Spared id w.created_ts calls
      → (is_some w.matched ≡ true) ⊎ (reg ≡ false)
      → matched_of (steps py id calls (some w, reg)).0 ≡ w.matched
  unfolding steps notified
  settled [] w reg h done = refl
  settled (Call.notify c ∷ calls) w reg (_, hs) done =
      ap (λ s. matched_of (steps py id calls s).0) (unmoved w reg c done)
      ∙ settled calls w reg hs done
    where
      unmoved :
          (w : Waiter) (reg : Bool) (c : Capture)
          → (is_some w.matched ≡ true) ⊎ (reg ≡ false)
          → step py id (Call.notify c) (some w, reg) ≡ (some w, reg)
      unmoved w reg c d = ground arith
  settled (c ∷ calls) w reg (h, hs) done =
      ap (λ s. matched_of (steps py id calls s).0) (step_spared w reg c h refl)
      ∙ settled calls w reg hs done

  -- the outcome of the filter on one capture
  offered :
      (calls : List Call) (w : Waiter) (c : Capture) (r : Result Bool)
      → Spared id w.created_ts calls
      → w.matched ≡ none
      → matched_of (steps py id calls (some w, true)).0 ≡ first_match py w.spec (notified calls)
      → matched_of (steps py id calls (stamp c w true r)).0
        ≡ pick c (first_match py w.spec (notified calls)) r
  offered calls w c (err x) h none_yet rest = settled calls w false h (inr refl) ∙ none_yet
  offered calls w c (ok false) h none_yet rest = rest
  offered calls w c (ok true) h none_yet rest =
      settled calls (record w { matched = some c; signaled = true }) true h (inl refl)

  offer_fresh :
      (w : Waiter) (c : Capture)
      → w.matched ≡ none
      → offer py c (some w, true) ≡ stamp c w true (matches py w.spec c)
  offer_fresh w c h = ground arith

  awaiting :
      (calls : List Call) (w : Waiter)
      → Spared id w.created_ts calls
      → w.matched ≡ none
      → matched_of (steps py id calls (some w, true)).0 ≡ first_match py w.spec (notified calls)
  unfolding steps notified first_match
  awaiting [] w h none_yet = none_yet
  awaiting (Call.notify c ∷ calls) w (h, hs) none_yet =
      ap (λ s. matched_of (steps py id calls s).0) (offer_fresh w c none_yet)
      ∙ offered calls w c (matches py w.spec c) hs none_yet (awaiting calls w hs none_yet)
  awaiting (c ∷ calls) w (h, hs) none_yet =
      ap (λ s. matched_of (steps py id calls s).0) (step_spared w true c h refl)
      ∙ awaiting calls w hs none_yet

  run_after_add :
      (spec : FilterSpec) (now : ℕ) (calls : List Call) (q : WaitQueue)
      → Spared id now calls
      → matched_of (state_of id (run py calls (Waiters.add spec id now q))).0
        ≡ first_match py spec (notified calls)
  unfolding Waiters.add exec
  run_after_add spec now calls q h =
      let w : Waiter = record { spec = spec; signaled = false; matched = none; created_ts = now } in
      ap (λ s. matched_of s.0)
        (run-steps py id calls (Waiters.add spec id now q)
          ∙ ap (steps py id calls)
              (exec-step py id (Call.add spec id now) q ∙ ground (arith, eq_iff id id)))
      ∙ awaiting calls w h refl

  -- A wait that is ended returns the first capture notified since it was added that its filter
  -- passes, and nothing if there is none or the filter raised before; afterwards the waiter is not
  -- registered. Other waiters may come, go, match or raise in between, as long as no other call is
  -- about this one and no reaping finds it too old.
  pub wait_end-first_match :
      (spec : FilterSpec) (now : ℕ) (calls : List Call) (q : WaitQueue)
      → Spared id now calls
      → let after = run py calls (Waiters.add spec id now q) in
        ((Waiters.wait_end id after).0 ≡ first_match py spec (notified calls))
        × (is_in id (Waiters.wait_end id after).1.registered ≡ false)
  unfolding Waiters.wait_end
  wait_end-first_match spec now calls q h =
      (run_after_add spec now calls q h, is_in-pop id id _ ∙ ground (arith, eq_iff id id))
