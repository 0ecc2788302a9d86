-- ===== src/Relay/Tests.antt =====
-- Runs of the store, and the theorems at concrete inputs.
use reqable_mcp.Prelude.{ℕ, ◌≡◌, refl, none, some, List, [], ◌∷◌, arith}
use reqable_mcp.Prelude.Int.{pos, negsuc}
use reqable_mcp.Prelude.Result.{ok, err, value_error, type_error}
use reqable_mcp.Prelude.Dict
use reqable_mcp.Json.{str, null}
use reqable_mcp.Relay.{RelayStore, empty, set, get, reap_expired}
use reqable_mcp.Relay.Runs.{Call, run}
use reqable_mcp.Relay.Bounds.{IsBounded, token_lifetime}

abbrev one : RelayStore
one = (set "tok" (str "abc") (pos 5) 1_000_000 empty).1

set_accepts : (set "tok" (str "abc") (pos 5) 1_000_000 empty).0 ≡ ok tt
unfolding set Dict.get
set_accepts = refl

set_rejects :
    ((set "" null (pos 5) 0 empty).0 ≡ err value_error)
    × ((set "a" null (pos 5) 0 empty).0 ≡ err type_error)
    × ((set "a" (str "v") (negsuc 0) 0 empty).0 ≡ err value_error)
    × ((set "a" (str "v") (pos 3601) 0 empty).0 ≡ err value_error)
unfolding set
set_rejects = (refl, refl, refl, refl)

get_around_deadline :
    ((get "tok" 5_999_999 one).0 ≡ some "abc") × ((get "tok" 6_000_000 one).0 ≡ none)
unfolding set get Dict.get Dict.put
get_around_deadline = (refl, refl)

empty-IsBounded : IsBounded empty
empty-IsBounded = record { unique = tt; few = omega arith }

-- one token past its deadline at the time 6, and one that is not
abbrev two : RelayStore
two = record {
  values =
      ("a", record { value = "x"; expires_ts = 5 })
      ∷ ("b", record { value = "y"; expires_ts = 9 })
      ∷ [];
}

two-IsBounded : IsBounded two
unfolding Dict.get
two-IsBounded = record { unique = (refl, (refl, tt)); few = omega arith }

reap_two : (reap_expired 6 two).0 ≡ 1
unfolding reap_expired Dict.keep
reap_two = refl

abbrev calls : List (ℕ × Call)
calls =
    (1_500_000, Call.get "tok")
    ∷ (2_000_000, Call.set "b" (str "x") (pos 9))
    ∷ (3_000_000, Call.reap_expired)
    ∷ []

token_lifetime_example : (get "tok" 4_000_000 (run calls one)).0 ≡ some "abc"
token_lifetime_example =
    token_lifetime empty "tok" "abc" (pos 5) 1_000_000 4_000_000 calls empty-IsBounded set_accepts
      ((omega arith, refl), ((omega arith, refl), ((omega arith, refl), tt)))
