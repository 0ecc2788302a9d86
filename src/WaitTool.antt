-- ===== src/WaitTool.antt =====
-- tools/wait.py: `wait_for`, a client of the wait queue.
mod Tests
use reqable_mcp.Prelude.{
  ℕ, String, ◌≡◌, ◌⊎◌, refl, ap, ◌∙◌, Bool, true, false, Option, none, some, inl, inr, arith,
  eq_iff, if◌then◌else◌,
}
use reqable_mcp.Prelude.Result.{Result, ok, err, Error, Result-cases}
use reqable_mcp.Python.{Python}
use reqable_mcp.WaitQueue.{Capture, FilterSpec, filter_spec}
use reqable_mcp.WaitQueue.Waiters
use reqable_mcp.WaitQueue.Waiters.{WaitQueue, is_in, pop, wait_begin, wait_end}
use reqable_mcp.WaitQueue.Projection.{is_in-pop}

module _ (py : Python) (id : String) (now : ℕ) (early late : WaitQueue → WaitQueue) where
  -- `wait`: what the other threads do while it blocks is `late`
  unfoldable pub blocked : WaitQueue → Option Capture × WaitQueue
  blocked q = if wait_begin id q then wait_end id (late q) else (none, q)

  -- the `finally` clause
  abbrev pub cancelled : Option Capture × WaitQueue → Option Capture × WaitQueue
  cancelled (found, q) = (found, Waiters.cancel id q)

  -- the call for a filter, with what the other threads do before `wait` begins
  unfoldable pub waited : Result FilterSpec → WaitQueue → Result (Option Capture) × WaitQueue
  unfolding blocked
  waited (err x) q = (err x, q)
  waited (ok spec) q =
      let (found, q') = cancelled (blocked (early (Waiters.add spec id now q))) in (ok found, q')

  -- `wait_for`, which answers with an error where the filter is refused
  unfoldable pub wait_for :
      FilterSpec → Option WaitQueue → Result (Option Capture) × Option WaitQueue
  unfolding waited
  wait_for args none = (ok none, none)
  wait_for args (some q) = let (answer, q') = waited (filter_spec py args) q in (answer, some q')

  -- What a call leaves: an error and the queue of before, or a queue without the waiter.
  pub data Left (q : WaitQueue) (left : Result (Option Capture) × Option WaitQueue) : Type 0 where
    refused : (x : Error) → left.0 ≡ err x → left.1 ≡ some q → Left q left
    answered :
        (found : Option Capture) (q' : WaitQueue)
        → left.0 ≡ ok found
        → left.1 ≡ some q'
        → is_in id q'.registered ≡ false
        → Left q left

  cancel-is_in : (q : WaitQueue) → is_in id (Waiters.cancel id q).registered ≡ false
  unfolding Waiters.cancel
  cancel-is_in q = is_in-pop id id q.registered ∙ ground (arith, eq_iff id id)

  -- Whatever the other threads do, a call of `wait_for` ends with its waiter no longer registered: it
  -- answers with an error and adds none, or has taken the one that it added out again.
  pub wait_for-Left : (args : FilterSpec) (q : WaitQueue) → Left q (wait_for args (some q))
  unfolding wait_for waited
  wait_for-Left args q = elim (Result-cases (filter_spec py args)) [
    | inl (spec, good) ↦ rw good (answered _ _ refl refl (cancel-is_in _))
    | inr (x, bad) ↦ rw bad (refused x refl refl)
  ]
