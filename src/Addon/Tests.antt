-- ===== src/Addon/Tests.antt =====
-- Runs of the hook, and the theorems at concrete inputs.
use reqable_mcp.Prelude.{
  if◌then◌else◌, ℕ, suc, String, ◌≡◌, ◌≢◌, ◌↔◌, ◌⊎◌, refl, true, false, Option, none, some, List,
  [], ◌∷◌, arith, eq_iff,
}
use reqable_mcp.Prelude.Int.{pos}
use reqable_mcp.Prelude.Result.{ok, err, runtime_error}
use reqable_mcp.Prelude.Dict
use reqable_mcp.Prelude.Dict.{Dict}
use reqable_mcp.Json.{Json, Fields, str, obj, arr, bool, of_dict, of_list}
use reqable_mcp.Addon.{Sdk, Runtime, Socket, Flight, text, parsed}
use reqable_mcp.Addon.Path.{split_dots, patch, enter, set_leaf, put_back}
use reqable_mcp.Addon.Body
use reqable_mcp.Addon.Body.{extract_from_json_body, patch_json_body}
use reqable_mcp.WaitQueue.{truthy, is_text}
use reqable_mcp.Addon.Client.{fetch_rules, objects}
use reqable_mcp.Addon.Apply.{apply_rule, apply_kind, apply_tag}
use reqable_mcp.Addon.Hook.{on_request, on_response, request_with}
use reqable_mcp.Addon.RoundTrip.{extract-patch}
use reqable_mcp.Addon.Inert.{IsUntouched, dry_run-IsUntouched, passes_without_daemon}
use reqable_mcp.Addon.Blocking.{HasBlock, aborts_iff}

-- headers as a dictionary, and parts that are texts
abbrev sdk : Sdk
sdk = record {
  Headers = Dict String;
  Part = String;
  header = Dict.get;
  set_header = λ k v d. Dict.put d k v;
  part_name = λ p. some p;
  text_part = λ t n. some t;
  file_part = λ p n. none;
  takes_code = λ c. true;
  of_dict = λ fs. "{}";
}

abbrev saved_document : Json
saved_document = obj (of_dict (("user", obj (of_dict (("token", str "t") ∷ []))) ∷ []))

abbrev empty_document : Fields
empty_document = of_dict []

-- a runtime whose only saved_document is that
abbrev rt : Runtime
rt = record {
  loads = λ s. some saved_document;
  dumps = λ v. "saved";
  int_of = λ s. none;
  is_digits = λ s. false;
  subn = λ p r s n f. some (r, 1);
}

-- a daemon that counts its calls and gives one answer to each
abbrev answering : Option Json → Socket ℕ
answering reply = record { ipc_call = λ cmd args n. (reply, suc n) }

abbrev dry : Dict Json
dry = ("id", str "a") ∷ ("kind", str "tag") ∷ ("color", str "red") ∷ ("dry_run", bool true) ∷ []

abbrev tag : Dict Json
tag = ("id", str "b") ∷ ("kind", str "tag") ∷ ("color", str "red") ∷ []

abbrev extract : Dict Json
extract =
    ("id", str "c")
    ∷ ("kind", str "relay_extract")
    ∷ ("name", str "n")
    ∷ ("source_loc", str "header")
    ∷ ("source_field", str "Token")
    ∷ []

abbrev block : Dict Json
block = ("id", str "d") ∷ ("kind", str "block") ∷ []

abbrev rules_reply : List (Dict Json) → Json
rules_reply [] = obj (of_dict (("ok", bool true) ∷ ("data", arr (of_list [])) ∷ []))
rules_reply (r ∷ rs) =
    obj (of_dict (("ok", bool true) ∷ ("data", arr (of_list (obj (of_dict r) ∷ []))) ∷ []))

abbrev flight : Flight sdk ℕ
flight = record {
  context = record { host = "h"; uid = "u"; highlight = 0; comment = none };
  msg = record {
    method = "GET";
    path = "/";
    code = some (pos 200);
    headers = ("Token", "secret") ∷ [];
    body = text "{}";
  };
  daemon = 0;
}

abbrev always : Socket ℕ
always = answering (some (rules_reply (dry ∷ [])))

tagged : (apply_rule sdk rt always "response" tag flight).1.context.highlight ≡ 1
unfolding apply_rule truthy Dict.get apply_kind apply_tag
tagged = refl

extract-patch_example :
    extract_from_json_body rt
      (patch_json_body rt {P = String} (parsed empty_document) "user.token" (str "t")).1
      "user.token"
    ≡ some "t"
unfolding Body.document patch split_dots enter set_leaf Dict.get put_back Dict.put
extract-patch_example =
    extract-patch rt "user.token" "t" (obj empty_document) (parsed empty_document) refl
      (ground (arith, eq_iff "user.token" "")) refl refl

abbrev dry_header : Dict Json
dry_header =
    ("id", str "e")
    ∷ ("kind", str "inject_header")
    ∷ ("name", str "X")
    ∷ ("value", str "1")
    ∷ ("dry_run", bool true)
    ∷ []

-- a daemon that has one rule for each side
abbrev by_side : Socket ℕ
by_side = record {
  ipc_call = λ cmd args n. (
    some (
        rules_reply
          (if is_text (Dict.get args "side") "request" then dry ∷ [] else dry_header ∷ [])),
    suc n,
  );
}

dry_run-IsUntouched_example :
    IsUntouched sdk flight (on_request sdk rt by_side flight).1
    × IsUntouched sdk flight (on_response sdk rt by_side flight).1
unfolding fetch_rules objects truthy Dict.get is_text
dry_run-IsUntouched_example =
    dry_run-IsUntouched sdk rt by_side flight (dry ∷ []) (dry_header ∷ []) refl refl (refl, tt)
      (refl, tt)

passes_without_daemon_example :
    (on_request sdk rt (answering none) flight ≡ (ok tt, record flight { daemon = 1 }))
    × (on_response sdk rt (answering none) flight ≡ (ok tt, record flight { daemon = 1 }))
passes_without_daemon_example = passes_without_daemon sdk rt (answering none) flight 1 1 refl refl

aborts_iff_example :
    ((request_with sdk rt always (tag ∷ block ∷ []) flight).0 ≡ err runtime_error
      ↔ HasBlock (tag ∷ block ∷ []))
    × (((request_with sdk rt always (tag ∷ block ∷ []) flight).0 ≢ err runtime_error)
        ⊎ IsUntouched sdk flight (request_with sdk rt always (tag ∷ block ∷ []) flight).1)
aborts_iff_example = aborts_iff sdk rt always (tag ∷ block ∷ []) flight
