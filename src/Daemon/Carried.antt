-- ===== src/Daemon/Carried.antt =====
-- A token from a response to a later request: the hook on both sides, and the daemon between them.
use reqable_mcp.Prelude.{
  ℕ, ◌+◌, ◌*◌, String, ◌≡◌, refl, sym, ap, ◌∙◌, Bool, true, false, Option, none, some, List, [],
  ◌∷◌, ltb, if◌then◌else◌,
}
use reqable_mcp.Prelude.Int.{ℤ, pos, pos_part}
use reqable_mcp.Prelude.Result.{Result, ok, err}
use reqable_mcp.Prelude.Dict
use reqable_mcp.Prelude.Dict.{Dict}
use reqable_mcp.Json.{Json, bool, int, str, obj, of_dict}
use reqable_mcp.Python.{Python}
use reqable_mcp.Rules.Engine.{Engine}
use reqable_mcp.Relay.{RelayStore, second}
use reqable_mcp.Relay.Runs.{Call, run, Spares}
use reqable_mcp.Relay.Bounds.{IsBounded}
use reqable_mcp.WaitQueue.{truthy}
use reqable_mcp.Addon.{Sdk, Runtime, Socket, Flight, Message}
use reqable_mcp.Addon.Client.{store_relay, get_relay, data_of, value_in, confirmed}
use reqable_mcp.Addon.Apply.{
  text_at, int_or, text_or_empty, extracted, extract_at, apply_relay_extract, apply_relay_inject,
  prefixed, store, inject, fetch_and_inject,
}
use reqable_mcp.Daemon.Handlers.{
  Response, ok_response, error_response, one_key, value_of, handle_store_relay, handle_get_relay,
}
use reqable_mcp.Daemon.Dispatch.{State, handle_ipc_request}
use reqable_mcp.Daemon.Tokens.{asked, store_args, store_relay-set, relay_requests}

-- The reply that a response is; an exception of the handler is answered with an error too. The text of
-- an error, which the hook does not read, is left out.
abbrev pub reply : Result Response → Option Json
reply (ok (ok_response v)) = some (obj (of_dict (("ok", bool true) ∷ ("data", v) ∷ [])))
reply (ok error_response) = some (obj (of_dict (("ok", bool false) ∷ [])))
reply (err x) = some (obj (of_dict (("ok", bool false) ∷ [])))

confirmed-ok : (r : Response) → confirmed (reply (ok r)) ≡ true → (v : Json) × (r ≡ ok_response v)
unfolding truthy Dict.get
confirmed-ok (ok_response v) h = (v, refl)
confirmed-ok error_response h = absurd (cc)

module _ (py : Python) (size_of : Dict Json → ℕ) (to_str : Json → String) where
  -- the socket, at a time: a call is answered by the daemon's `_handle_ipc_request`
  abbrev pub linked : ℕ → Socket State
  linked now = record {
    ipc_call = λ op args st.
        let (r, st') = handle_ipc_request py size_of to_str op args now st in (reply r, st');
  }

  abbrev store_request : String → String → ℤ → Dict Json
  store_request name value ttl =
      ("name", str name) ∷ ("value", str value) ∷ ("ttl_seconds", int ttl) ∷ []

  store_relay-handle :
      (name v : String) (ttl : ℤ) (now : ℕ) (st : State) (e : Engine)
      → st.engine ≡ some e
      → let answer = handle_store_relay (store_request name v ttl) now st.relay in
        store_relay (linked now) name v ttl st
        ≡ (confirmed (reply (ok answer.0)), record st { relay = answer.1 })
  unfolding store_relay handle_ipc_request
  store_relay-handle name v ttl now st e h = rw h refl

  get_relay-handle :
      (name : String) (now : ℕ) (st : State) (e : Engine)
      → st.engine ≡ some e
      → (get_relay (linked now) name st).0
        ≡ value_in
            (data_of (reply (ok (handle_get_relay (("name", str name) ∷ []) now st.relay).0)))
  unfolding get_relay handle_ipc_request
  get_relay-handle name now st e h = rw h refl

  value_in-reply :
      (o : Option String)
      → value_in (data_of (reply (ok (ok_response (one_key "value" (value_of o)))))) ≡ o
  unfolding data_of truthy Dict.get
  value_in-reply none = refl
  value_in-reply (some v) = refl

  store_args-request :
      (name v : String) (ttl : ℤ) → store_args (store_request name v ttl) ≡ some (name, v, ttl)
  unfolding Dict.get
  store_args-request name v ttl = refl

  get_request-name :
      (name : String) → Dict.get {V = Json} (("name", str name) ∷ []) "name" ≡ some (str name)
  unfolding Dict.get
  get_request-name name = refl

  module _ (name v : String) (ttl : ℤ) (now : ℕ) (st : State) (e : Engine) (s : RelayStore) where
    -- what an accepted store did: the handler accepted it, and left what `set` leaves
    store_relay-asked :
        (s' : RelayStore)
        → st.engine ≡ some e
        → st.relay ≡ some s
        → (store_relay (linked now) name v ttl st).0 ≡ true
        → (store_relay (linked now) name v ttl st).1.relay ≡ some s'
        → ((answer : Json) × ((handle_store_relay (store_request name v ttl) now (some s)).0
              ≡ ok_response answer))
          × (s' ≡ (asked (store_args (store_request name v ttl)) now s).1)
    store_relay-asked s' h k done left =
        let req = store_request name v ttl in
        let step = store_relay-handle name v ttl now st e h in
        let at : handle_store_relay req now st.relay ≡ handle_store_relay req now (some s) =
          ap (handle_store_relay req now) k in
        let agreed =
          ap (λ a. confirmed (reply (ok a.0))) (sym at) ∙ sym (ap (λ r. r.0) step) ∙ done in
        let kept =
          sym left ∙ ap (λ r. r.1.relay) step ∙ ap (λ a. a.1) (at ∙ store_relay-set req now s) in
        (confirmed-ok (handle_store_relay req now (some s)).0 agreed, cc (kept))

    -- the hook's own two calls of the daemon
    pub store_relay-get_relay :
        (s' : RelayStore) (calls : List (ℕ × Call)) (t : ℕ) (st₂ : State) (e₂ : Engine)
        → st.engine ≡ some e
        → st.relay ≡ some s
        → IsBounded s
        → (store_relay (linked now) name v ttl st).0 ≡ true
        → (store_relay (linked now) name v ttl st).1.relay ≡ some s'
        → Spares name t calls
        → st₂.engine ≡ some e₂
        → st₂.relay ≡ some (run calls s')
        → (get_relay (linked t) name st₂).0
          ≡ (if ltb t (now + pos_part ttl * second) then some v else none)
    store_relay-get_relay s' calls t st₂ e₂ h k b done left spared h₂ k₂ =
        let req = store_request name v ttl in
        let get_req : Dict Json = ("name", str name) ∷ [] in
        let ((answer, accepted), same) = store_relay-asked s' h k done left in
        let answered =
          relay_requests s req name v ttl now t answer calls get_req b
            (store_args-request name v ttl) accepted spared (get_request-name name) in
        get_relay-handle name t st₂ e₂ h₂
        ∙ ap (λ o. value_in (data_of (reply (ok (handle_get_relay get_req t o).0))))
            (k₂ ∙ ap (λ x. some (run calls x)) same)
        ∙ ap (λ a. value_in (data_of (reply (ok a)))) answered
        ∙ value_in-reply (if ltb t (now + pos_part ttl * second) then some v else none)

  module _ (sdk : Sdk) (rt : Runtime) where
    extract-store_relay :
        (rule : Dict Json) (f : Flight sdk State) (name field v : String) (now : ℕ)
        → text_at rule "name" ≡ some name
        → text_at rule "source_field" ≡ some field
        → extracted sdk rt (linked now) (text_at rule "source_loc") field f ≡ some v
        → let stored =
            store_relay (linked now) name v (int_or rule "ttl_seconds" (pos 300)) f.daemon in
          apply_relay_extract sdk rt (linked now) rule f
          ≡ (stored.0, record f { daemon = stored.1 })
    unfolding apply_relay_extract extract_at
    extract-store_relay rule f name field v now named at found =
        ap (λ o. extract_at sdk rt (linked now) o rule f) at ∙ (λ i.
          store sdk rt (linked now) (named i) (found i) (int_or rule "ttl_seconds" (pos 300)) f)

    -- the message with the header of the request set, where the token lives
    abbrev pub with_token : Bool → String → String → Message sdk → Message sdk
    with_token live target value m =
        if live then record m { headers = sdk.set_header target value m.headers } else m

    inject-live :
        (live : Bool) (prefix : Option String) (target v : String) (now : ℕ) (g : Flight sdk State)
        → let r = inject sdk rt (linked now) prefix target (if live then some v else none) g in
          (r.0 ≡ live)
          × (r.1.msg ≡ with_token live target (prefixed sdk rt (linked now) prefix v) g.msg)
    inject-live true prefix target v now g = (refl, refl)
    inject-live false prefix target v now g = (refl, refl)

    -- A token that the hook took from a response is set, after the prefix, in the header of a later
    -- request as long as its lifetime has not passed; from then on the request is left as it is, and
    -- the rule does not count as applied. In between, the daemon may answer any calls of its relay
    -- store that do not write or delete the name.
    pub token_carried :
        (rule_x rule_i : Dict Json) (name field v target : String) (f g : Flight sdk State)
        (e e' : Engine) (s s' : RelayStore) (now t : ℕ) (calls : List (ℕ × Call))
        → text_at rule_x "name" ≡ some name
        → text_at rule_x "source_field" ≡ some field
        → extracted sdk rt (linked now) (text_at rule_x "source_loc") field f ≡ some v
        → text_at rule_i "name" ≡ some name
        → text_at rule_i "target_header" ≡ some target
        → f.daemon.engine ≡ some e
        → f.daemon.relay ≡ some s
        → IsBounded s
        → (apply_relay_extract sdk rt (linked now) rule_x f).0 ≡ true
        → (apply_relay_extract sdk rt (linked now) rule_x f).1.daemon.relay ≡ some s'
        → Spares name t calls
        → g.daemon.engine ≡ some e'
        → g.daemon.relay ≡ some (run calls s')
        → let ttl = int_or rule_x "ttl_seconds" (pos 300) in
          let live = ltb t (now + pos_part ttl * second) in
          let value =
            prefixed sdk rt (linked t) (text_or_empty (Dict.get rule_i "value_prefix")) v in
          let r = apply_relay_inject sdk rt (linked t) rule_i g in
          (r.0 ≡ live) × (r.1.msg ≡ with_token live target value g.msg)
    unfolding apply_relay_inject
    token_carried rule_x rule_i name field v target f g e e' s s' now t calls nx fx found ni ti he
          hs b done left spared he' hs' =
        let ttl = int_or rule_x "ttl_seconds" (pos 300) in
        let prefix = text_or_empty (Dict.get rule_i "value_prefix") in
        let step = extract-store_relay rule_x f name field v now nx fx found in
        let got =
          store_relay-get_relay name v ttl now f.daemon e s s' calls t g.daemon e' he hs b
            (sym (ap (λ r. r.0) step) ∙ done) (sym (ap (λ r. r.1.daemon.relay) step) ∙ left) spared
            he' hs' in
        let d = (get_relay (linked t) name g.daemon).1 in
        let injects =
          (λ i. fetch_and_inject sdk rt (linked t) (ni i) (ti i) prefix g)
          ∙ (λ i. inject sdk rt (linked t) prefix target (got i) (record g { daemon = d })) in
        let (counted, sent) =
          inject-live (ltb t (now + pos_part ttl * second)) prefix target v t
            (record g { daemon = d }) in
        (ap (λ r. r.0) injects ∙ counted, ap (λ r. r.1.msg) injects ∙ sent)
