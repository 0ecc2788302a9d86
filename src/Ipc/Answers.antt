-- ===== src/Ipc/Answers.antt =====
-- What a connection is answered, and when its thread ends in an exception.
use mathlib.Core.Path.{subst}
use reqable_mcp.Prelude.{
  ◌≤◌, String, ◌≡◌, ◌≢◌, ◌↔◌, ◌⊎◌, refl, sym, ap, ◌∙◌, Bool, true, false, not, Option, none, some,
  [], length, ltb, eq_iff, arith, inl, inr, if◌then◌else◌, Bool-cases,
}
use reqable_mcp.Prelude.Int.{pos}
use reqable_mcp.Prelude.Result.{
  Result, ok, err, Error, invalid_message, unicode_error, ◌>>=◌, ◌>>◌, >>=-eq-ok, >>-eq-ok,
  raise_if, raise_if-false,
}
use reqable_mcp.Prelude.Dict
use reqable_mcp.Prelude.Dict.{Dict}
use reqable_mcp.Json.{Json, Fields, str, obj, to_dict}
use reqable_mcp.WaitQueue.{is_number, truthy}
use reqable_mcp.Ipc.{
  Bytes, Loaded, loaded, not_json, not_utf8, Request, max_message_bytes, strip, is_empty, op_of,
  args_of, request_of, decode_message,
}

-- The arguments of a request: an object, or none for a value that counts as false.
abbrev pub HasArgs : Option Json → Dict Json → Type 0
HasArgs v args =
    ((fs : Fields) × (v ≡ some (obj fs)) × (args ≡ to_dict fs)) ⊎ ((truthy v ≡ false) × (args ≡ []))

-- What a request has to say.
pub record IsRequest (d : Dict Json) (req : Request) : Type 0 where
  pub version : is_number (Dict.get d "v") (pos 1) ≡ true
  pub op : Dict.get d "op" ≡ some (str req.op)
  pub named : req.op ≢ ""
  pub args : HasArgs (Dict.get d "args") req.args

abbrev request : String → Dict Json → Request
request op args = record { op = op; args = args }

op_iff : (o : Option Json) (op : String) → (op_of o ≡ ok op) ↔ ((o ≡ some (str op)) × (op ≢ ""))
unfolding op_of
op_iff (some (str s)) op =
    (λ h. (ground arith, ground (arith, eq_iff s "")), λ (e, ne). ground (arith, eq_iff s ""))
op_iff o op = (λ h. absurd (cc), λ (e, ne). absurd (cc))

-- a value other than an object
falsy_args :
    (v : Option Json) (args : Dict Json)
    → ((fs : Fields) → v ≢ some (obj fs))
    → (if truthy v then err invalid_message else ok []) ≡ ok args ↔ HasArgs v args
falsy_args v args other = (
  λ h. inr (ground arith),
  λ h. elim h [ inl (fs, e, _) ↦ absurd (other fs e) | inr (e, same) ↦ rw e (ap ok (sym same)) ],
)

args_iff : (o : Option Json) (args : Dict Json) → (args_of o ≡ ok args) ↔ HasArgs o args
unfolding args_of truthy
args_iff none args = falsy_args none args (λ fs e. absurd (cc))
args_iff (some (obj Fields.end)) args = (
  λ h. inr (refl, cc),
  λ h. elim h [
    | inl (fs, e, same) ↦ let e' : fs ≡ Fields.end = cc in ap ok (sym (same ∙ ap to_dict e'))
    | inr (e, same) ↦ ap ok (sym same)
  ],
)
args_iff (some (obj (Fields.field k v fs))) args = (
  λ h. inl (Fields.field k v fs, refl, cc),
  λ h. elim h [
    | inl (gs, e, same) ↦
        let e' : gs ≡ Fields.field k v fs = cc in ap ok (sym (same ∙ ap to_dict e'))
    | inr (e, same) ↦ absurd (cc)
  ],
)
args_iff (some v) args = falsy_args (some v) args (λ fs e. absurd (cc))

request_of-request :
    (fs : Fields) (req : Request)
    → request_of (loaded (obj fs)) ≡ ok req
    → IsRequest (to_dict fs) req
unfolding request_of
request_of-request fs req h =
    let (v, h₁) =
      >>-eq-ok (raise_if (not (is_number (Dict.get (to_dict fs) "v") (pos 1))) invalid_message) _
        h in
    let (op, o, h₂) = >>=-eq-ok (op_of (Dict.get (to_dict fs) "op")) _ h₁ in
    let (args, a, h₃) = >>=-eq-ok (args_of (Dict.get (to_dict fs) "args")) _ h₂ in
    let (is_text, named) = (op_iff (Dict.get (to_dict fs) "op") op).0 o in
    let made : req ≡ request op args = cc in
    subst (IsRequest (to_dict fs)) (sym made) (record {
      version = ground arith;
      op = is_text;
      named = named;
      args = (args_iff (Dict.get (to_dict fs) "args") args).0 a;
    })

request_is :
    (fs : Fields) (req : Request)
    → IsRequest (to_dict fs) req
    → request_of (loaded (obj fs)) ≡ ok req
unfolding request_of
request_is fs req r =
    rw
      (
        r.version,
        (op_iff (Dict.get (to_dict fs) "op") req.op).1 (r.op, r.named),
        (args_iff (Dict.get (to_dict fs) "args") req.args).1 r.args,
      )
      refl

request_of-obj :
    (l : Loaded) (req : Request)
    → request_of l ≡ ok req
    → (fs : Fields) × (l ≡ loaded (obj fs)) × IsRequest (to_dict fs) req
unfolding request_of
request_of-obj not_json req h = absurd (cc)
request_of-obj not_utf8 req h = absurd (cc)
request_of-obj (loaded (obj fs)) req h = (fs, refl, request_of-request fs req h)
request_of-obj (loaded j) req h = absurd (cc)

op_error : (o : Option Json) (e : Error) → op_of o ≡ err e → e ≡ invalid_message
unfolding op_of
op_error (some (str s)) e h = ground arith
op_error o e h = cc

args_error : (o : Option Json) (e : Error) → args_of o ≡ err e → e ≡ invalid_message
unfolding args_of
args_error none e h = absurd (cc)
args_error (some (obj fs)) e h = absurd (cc)
args_error (some v) e h = ground arith

chain_error :
    (version : Bool) (op : Result String) (args : Result (Dict Json)) (e : Error)
    → ((x : Error) → op ≡ err x → x ≡ invalid_message)
    → ((x : Error) → args ≡ err x → x ≡ invalid_message)
    → (raise_if (not version) invalid_message >> (op >>= λ o. args >>= λ a. ok (request o a)))
      ≡ err e
    → e ≡ invalid_message
chain_error false op args e of_op of_args h = cc
chain_error true (err x) args e of_op of_args h = let same : e ≡ x = cc in same ∙ of_op x refl
chain_error true (ok o) (err x) e of_op of_args h = let same : e ≡ x = cc in same ∙ of_args x refl
chain_error true (ok o) (ok a) e of_op of_args h = absurd (cc)

request_of-error :
    (l : Loaded) (e : Error)
    → request_of l ≡ err e
    → (e ≡ invalid_message) ⊎ ((l ≡ not_utf8) × (e ≡ unicode_error))
unfolding request_of
request_of-error not_json e h = inl (cc)
request_of-error not_utf8 e h = inr (refl, cc)
request_of-error (loaded (obj fs)) e h = inl (
    chain_error (is_number (Dict.get (to_dict fs) "v") (pos 1)) _ _ e
      (op_error (Dict.get (to_dict fs) "op")) (args_error (Dict.get (to_dict fs) "args")) h)
request_of-error (loaded j) e h = inl (cc)

-- A line that `json.loads` is called on and cannot decode as UTF-8.
pub record IsUnreadable (loads : Bytes → Loaded) (line : Bytes) : Type 0 where
  pub short : length line ≤ max_message_bytes
  pub some_bytes : is_empty (strip line) ≡ false
  pub not_text : loads (strip line) ≡ not_utf8

module _ (loads : Bytes → Loaded) (line : Bytes) where
  pub guarded :
      length line ≤ max_message_bytes
      → is_empty (strip line) ≡ false
      → decode_message loads line ≡ request_of (loads (strip line))
  unfolding decode_message
  guarded short some_bytes = ground arith

  long_error :
      (e : Error)
      → ltb max_message_bytes (length line) ≡ true
      → decode_message loads line ≡ err e
      → e ≡ invalid_message
  unfolding decode_message
  long_error e long h = ground arith

  empty_error :
      (e : Error)
      → ltb max_message_bytes (length line) ≡ false
      → is_empty (strip line) ≡ true
      → decode_message loads line ≡ err e
      → e ≡ invalid_message
  unfolding decode_message
  empty_error e short empty h = ground arith

  pub decode-error :
      (e : Error)
      → decode_message loads line ≡ err e
      → (e ≡ invalid_message) ⊎ (IsUnreadable loads line × (e ≡ unicode_error))
  decode-error e h = elim (Bool-cases (ltb max_message_bytes (length line))) [
    | inl long ↦ inl (long_error e long h)
    | inr short ↦ elim (Bool-cases (is_empty (strip line))) [
      | inl empty ↦ inl (empty_error e short empty h)
      | inr filled ↦
          elim (request_of-error (loads (strip line)) e (sym (guarded (ground arith) filled) ∙ h)) [
            | inl invalid ↦ inl invalid
            | inr (unreadable, same) ↦
                inr (
                  record { short = ground arith; some_bytes = filled; not_text = unreadable },
                  same,
                )
          ]
    ]
  ]

  decode-guards :
      (req : Request)
      → decode_message loads line ≡ ok req
      → (length line ≤ max_message_bytes)
        × (is_empty (strip line) ≡ false)
        × (request_of (loads (strip line)) ≡ ok req)
  unfolding decode_message
  decode-guards req h =
      let (short, h₁) =
        >>-eq-ok (raise_if (ltb max_message_bytes (length line)) invalid_message) _ h in
      let (filled, h₂) = >>-eq-ok (raise_if (is_empty (strip line)) invalid_message) _ h₁ in
      (ground arith, raise_if-false (is_empty (strip line)) invalid_message filled, h₂)

  -- A line is taken as a request exactly when it is within the cap and holds, before its newline, a
  -- JSON object with the protocol's version, an operation and, if any, an object of arguments.
  pub decode-ok_iff :
      (req : Request)
      → (decode_message loads line ≡ ok req) ↔ (
          (length line ≤ max_message_bytes)
          × (is_empty (strip line) ≡ false)
          × ((fs : Fields) × (loads (strip line) ≡ loaded (obj fs)) × IsRequest (to_dict fs) req))
  decode-ok_iff req = (
    λ h.
        let (short, filled, h') = decode-guards req h in
        (short, filled, request_of-obj (loads (strip line)) req h'),
    λ (short, filled, (fs, e, r)). guarded short filled ∙ ap request_of e ∙ request_is fs req r,
  )
