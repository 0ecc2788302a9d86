-- ===== src/Daemon/TokenTests.antt =====
-- The relay handlers at concrete inputs.
use reqable_mcp.Prelude.{◌≡◌, refl, true, some, [], ◌∷◌, List, ℕ, arith}
use reqable_mcp.Prelude.Int.{pos}
use reqable_mcp.Prelude.Dict
use reqable_mcp.Prelude.Dict.{Dict}
use reqable_mcp.Json.{Json, bool, int, str}
use reqable_mcp.Relay
use reqable_mcp.Relay.{empty}
use reqable_mcp.Relay.Runs.{Call}
use reqable_mcp.Relay.Bounds.{IsBounded}
use reqable_mcp.Daemon.Handlers.{ok_response, error_response, one_key, handle_store_relay}
use reqable_mcp.Daemon.Tokens.{store_args}

abbrev store_request : Dict Json
store_request = ("name", str "tok") ∷ ("value", str "abc") ∷ ("ttl_seconds", int (pos 5)) ∷ []

abbrev get_request : Dict Json
get_request = ("name", str "tok") ∷ []

abbrev calls : List (ℕ × Call)
calls = (2_000_000, Call.set "other" (str "x") (pos 9)) ∷ (3_000_000, Call.reap_expired) ∷ []

refused : (handle_store_relay (("name", str "") ∷ store_request) 0 (some empty)).0 ≡ error_response
unfolding handle_store_relay Dict.get
refused = refl

no_tokens : IsBounded empty
no_tokens = record { unique = tt; few = omega arith }

what_is_asked : store_args store_request ≡ some ("tok", "abc", pos 5)
unfolding Dict.get
what_is_asked = refl

accepted :
    (handle_store_relay store_request 1_000_000 (some empty)).0
    ≡ ok_response (one_key "stored" (bool true))
unfolding handle_store_relay Dict.get Relay.set
accepted = refl
