-- ===== src/Daemon/Tokens.antt =====
-- The relay handlers, and the store behind them.
use mathlib.Core.Path.{subst}
use reqable_mcp.Prelude.{
  ℕ, ◌+◌, ◌*◌, String, ◌≡◌, ◌≢◌, refl, sym, ap, ◌∙◌, Option, none, some, List, arith, ltb,
  if◌then◌else◌, eq_iff,
}
use reqable_mcp.Prelude.Int.{ℤ, pos, pos_part}
use reqable_mcp.Prelude.Result.{Result, ok, err}
use reqable_mcp.Prelude.Dict
use reqable_mcp.Prelude.Dict.{Dict}
use reqable_mcp.Json.{Json, null, int, str}
use reqable_mcp.Relay
use reqable_mcp.Relay.{RelayStore, second}
use reqable_mcp.Relay.Runs.{Call, run, Spares}
use reqable_mcp.Relay.Bounds.{IsBounded, token_lifetime}
use reqable_mcp.Daemon.Handlers.{
  Response, ok_response, error_response, get_or, text, integer, stored, value_of, one_key,
  get_checked, store_checked, handle_store_relay, handle_get_relay,
}

-- What a request asks of the store: the arguments of `set`, if the name and the value are texts and
-- the lifetime is an int.
abbrev pub all_three : Option String → Option String → Option ℤ → Option (String × String × ℤ)
all_three (some n) (some v) (some t) = some (n, v, t)
all_three _ _ _ = none

abbrev pub store_args : Dict Json → Option (String × String × ℤ)
store_args args =
    all_three (text (get_or args "name" null)) (text (get_or args "value" null))
      (integer (get_or args "ttl_seconds" (int (pos 300))))

abbrev pub asked : Option (String × String × ℤ) → ℕ → RelayStore → Response × RelayStore
asked none now s = (error_response, s)
asked (some (n, v, t)) now s = stored (Relay.set n (str v) t now s)

store_checked-asked :
    (o p : Option String) (q : Option ℤ) (now : ℕ) (s : RelayStore)
    → store_checked o p q now s ≡ asked (all_three o p q) now s
unfolding store_checked Relay.set
store_checked-asked none p q now s = refl
store_checked-asked (some n) none q now s = refl
store_checked-asked (some n) (some v) none now s = refl
store_checked-asked (some n) (some v) (some t) now s = ground arith

-- Storing a token for the addon is `set`: the checks that the handler makes before turn away only
-- what `set` turns away, and answer as it would. A request whose name or value is no text or whose
-- lifetime is no int is refused and changes nothing.
pub store_relay-set :
    (args : Dict Json) (now : ℕ) (s : RelayStore)
    → handle_store_relay args now (some s)
      ≡ ((asked (store_args args) now s).0, some (asked (store_args args) now s).1)
unfolding handle_store_relay
store_relay-set args now s = ap (λ r. (r.0, some r.1)) (store_checked-asked _ _ _ now s)

stored-ok :
    (r : Result (Unit {0}) × RelayStore) (done : Json)
    → (stored r).0 ≡ ok_response done
    → (r.0 ≡ ok tt) × ((stored r).1 ≡ r.1)
stored-ok (ok _, s) done h = (refl, refl)
stored-ok (err e, s) done h = absurd (cc)

get_checked-get :
    (n : String) (now : ℕ) (s : RelayStore)
    → n ≢ ""
    → (get_checked (some n) now s).0
      ≡ ok_response (one_key "value" (value_of (Relay.get n now s).0))
unfolding get_checked
get_checked-get n now s ne = ground (arith, eq_iff n "")

handle_get-checked :
    (get_args : Dict Json) (name : String) (t : ℕ) (s : RelayStore)
    → Dict.get get_args "name" ≡ some (str name)
    → (handle_get_relay get_args t (some s)).0 ≡ (get_checked (some name) t s).0
unfolding handle_get_relay
handle_get-checked get_args name t s h =
    ap (λ o. (get_checked (text (elim o [ none ↦ null | some w ↦ w ])) t s).0) h

set-named : (v : Json) (t : ℤ) (now : ℕ) (s : RelayStore) → (Relay.set "" v t now s).0 ≢ ok tt
unfolding Relay.set
set-named v t now s h = cc

-- A token that the addon stored by a request is what its later request gets, until the lifetime has
-- passed, and `null` from then on, whatever calls of the store that do not write or delete its name
-- come in between.
pub relay_requests :
    (s : RelayStore) (args : Dict Json) (name v : String) (ttl : ℤ) (now t : ℕ) (done : Json)
    (calls : List (ℕ × Call)) (get_args : Dict Json)
    → IsBounded s
    → store_args args ≡ some (name, v, ttl)
    → (handle_store_relay args now (some s)).0 ≡ ok_response done
    → Spares name t calls
    → Dict.get get_args "name" ≡ some (str name)
    → (handle_get_relay get_args t (some (run calls (asked (store_args args) now s).1))).0
      ≡ ok_response (
          one_key "value" (value_of (if ltb t (now + pos_part ttl * second) then some v else none)))
relay_requests s args name v ttl now t done calls get_args b same accepted spared named =
    let r = Relay.set name (str v) ttl now s in
    let e = ap (λ o. asked o now s) same in
    let answered =
      sym (ap (λ x. x.0) e) ∙ sym (ap (λ x. x.0) (store_relay-set args now s)) ∙ accepted in
    let (good, kept) = stored-ok r done answered in
    let ne : name ≢ "" = λ q.
      set-named (str v) ttl now s (subst (λ n. (Relay.set n (str v) ttl now s).0 ≡ ok tt) q good) in
    handle_get-checked get_args name t _ named
    ∙ ap (λ s'. (get_checked (some name) t (run calls s')).0) (ap (λ x. x.1) e ∙ kept)
    ∙ get_checked-get name t (run calls r.1) ne
    ∙ ap (λ o. ok_response (one_key "value" (value_of o)))
        (token_lifetime s name v ttl now t calls b good spared)
