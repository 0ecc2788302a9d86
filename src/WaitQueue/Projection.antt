-- ===== src/WaitQueue/Projection.antt =====
-- Each waiter lives its own life: what any call does to one waiter depends on that waiter alone.
use mathlib.Core.Path.{subst}
use reqable_mcp.Prelude.{
  String, ◌≡◌, refl, sym, ap, ◌∙◌, Bool, true, false, ◌||◌, Option, none, some, List, [], ◌∷◌, ◌++◌,
  str_eq, eq_iff, arith, if◌then◌else◌, Bool-cases, inl, inr,
}
use reqable_mcp.Prelude.Result.{Result, ok, err}
use reqable_mcp.Prelude.Dict
use reqable_mcp.Prelude.Dict.Laws.{get-put}
use reqable_mcp.Python.{Python}
use reqable_mcp.WaitQueue.{Capture, matches}
use reqable_mcp.WaitQueue.Calls.{State, state_of, stamp, offer}
use reqable_mcp.WaitQueue.Waiters.{Waiter, WaitQueue, is_in, pop, deliver, visit, notify_each}

pub is_in-pop :
    (k j : String) (ids : List String)
    → is_in j (pop k ids) ≡ (if str_eq k j then false else is_in j ids)
unfolding pop
is_in-pop k j [] = ground arith
is_in-pop k j (i ∷ ids) = ground (arith, is_in-pop k j ids, eq_iff i k, eq_iff i j, eq_iff k j)

pub is_in-append :
    (j i : String) (ids : List String) → is_in j (ids ++ i ∷ []) ≡ is_in j ids || str_eq i j
is_in-append j i [] = ground arith
is_in-append j i (k ∷ ids) = ground (arith, is_in-append j i ids)

module _ (py : Python) (c : Capture) where
  deliver_self :
      (id : String) (w : Waiter) (r : Result Bool) (q : WaitQueue)
      → Dict.get q.objects id ≡ some w
      → state_of id (deliver c id w r q).1 ≡ stamp c w (is_in id q.registered) r
  unfolding deliver
  deliver_self id w (err x) q g = ground (arith, is_in-pop id id q.registered, eq_iff id id)
  deliver_self id w (ok false) q g = ground arith
  deliver_self id w (ok true) q g = ground (
    arith,
    get-put q.objects id (record w { matched = some c; signaled = true }) id,
    eq_iff id id,
  )

  deliver_other :
      (i id : String) (w : Waiter) (r : Result Bool) (q : WaitQueue)
      → str_eq i id ≡ false
      → state_of id (deliver c i w r q).1 ≡ state_of id q
  unfolding deliver
  deliver_other i id w (err x) q ne = ground (arith, is_in-pop i id q.registered)
  deliver_other i id w (ok false) q ne = refl
  deliver_other i id w (ok true) q ne =
      ground (arith, get-put q.objects i (record w { matched = some c; signaled = true }) id)

  visit_self :
      (id : String) (o : Option Waiter) (q : WaitQueue)
      → Dict.get q.objects id ≡ o
      → state_of id (visit py c id o q).1 ≡ offer py c (o, is_in id q.registered)
  unfolding visit
  visit_self id none q g = ground arith
  visit_self id (some w) q g = ground (arith, deliver_self id w (matches py w.spec c) q g)

  visit_other :
      (i id : String) (o : Option Waiter) (q : WaitQueue)
      → str_eq i id ≡ false
      → state_of id (visit py c i o q).1 ≡ state_of id q
  unfolding visit
  visit_other i id none q ne = refl
  visit_other i id (some w) q ne = ground (arith, deliver_other i id w (matches py w.spec c) q ne)

  offer-offer : (s : State) → offer py c (offer py c s) ≡ offer py c s
  offer-offer (none, reg) = refl
  offer-offer (some w, reg) = ground arith

  offer_again :
      (b : Bool) (s : State)
      → (if b then offer py c (offer py c s) else offer py c s) ≡ offer py c s
  offer_again true s = offer-offer s
  offer_again false s = refl

  pub notify_each-state :
      (id : String) (ids : List String) (q : WaitQueue)
      → state_of id (notify_each py c ids q).1
        ≡ (if is_in id ids then offer py c (state_of id q) else state_of id q)
  unfolding notify_each
  notify_each-state id [] q = refl
  notify_each-state id (i ∷ ids) q =
      let q' = (visit py c i (Dict.get q.objects i) q).1 in
      let later = λ (s : State). if is_in id ids then offer py c s else s in
      elim (Bool-cases (str_eq i id)) [
        | inl same ↦
            let seen =
              subst
                (λ k.
                  state_of id (visit py c k (Dict.get q.objects k) q).1
                  ≡ offer py c (state_of id q))
                (sym ((eq_iff i id).0 same)) (visit_self id (Dict.get q.objects id) q refl) in
            rw same (
              notify_each-state id ids q'
              ∙ ap later seen
              ∙ offer_again (is_in id ids) (state_of id q))
        | inr other ↦ rw other (
            notify_each-state id ids q'
            ∙ ap later (visit_other i id (Dict.get q.objects i) q other))
      ]
