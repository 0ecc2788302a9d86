-- ===== src/Daemon/Tests.antt =====
-- Packing at concrete inputs, with a payload of 50000 characters for each of its keys.
use reqable_mcp.Prelude.{
  ℕ, ◌+◌, ◌*◌, ◌≤◌, String, ◌≡◌, refl, false, none, List, [], ◌∷◌, map, length, filter, All, arith,
}
use reqable_mcp.Prelude.Int.{pos}
use reqable_mcp.Prelude.Dict.{Dict}
use reqable_mcp.Json.{Json, Fields}
use reqable_mcp.Rules.{Rule, to_addon_payload}
use reqable_mcp.Daemon.Packing.{
  is_block, sort, encode, packed, pack_rules_for_ipc, ipc_rule_payload_budget,
}
use reqable_mcp.Daemon.Fitting.{frame, TooLarge, packed_fits}
use reqable_mcp.Daemon.Keeping.{packed_blocks}

abbrev size_of : Dict Json → ℕ
size_of d = 50_000 * length d

abbrev rule : String → String → Rule
rule id kind = record {
  id = id;
  kind = kind;
  side = "request";
  host = none;
  path_pattern = none;
  method = none;
  payload = Fields.end;
  created_ts = pos 0;
  expires_ts = none;
  hits = pos 0;
  status_min = none;
  status_max = none;
  dry_run = false;
}

abbrev two : List Rule
two = rule "a" "tag" ∷ rule "b" "block" ∷ []

abbrev three : List Rule
three = rule "c" "comment" ∷ two

block_sent_first :
    pack_rules_for_ipc size_of three
    ≡ to_addon_payload (rule "b" "block") ∷ to_addon_payload (rule "c" "comment") ∷ []
unfolding pack_rules_for_ipc to_addon_payload encode
block_sent_first = refl

packed_fits_example :
    (length (filter is_block (packed size_of three).out)
        + length (filter is_block (packed size_of three).dropped)
      ≡ length (filter is_block (map (encode size_of) three)))
    × (frame (packed size_of three).out ≤ ipc_rule_payload_budget)
    × All (TooLarge (packed size_of three).out) (packed size_of three).dropped
packed_fits_example = packed_fits size_of three is_block

two_fit : frame (map (encode size_of) two) ≤ ipc_rule_payload_budget
unfolding frame encode to_addon_payload
two_fit = omega arith

block_fits : frame (filter is_block (map (encode size_of) three)) ≤ ipc_rule_payload_budget
unfolding frame encode to_addon_payload
block_fits = omega arith

packed_blocks_example :
    (filter is_block (packed size_of three).out
      ≡ sort (filter is_block (map (encode size_of) three)))
    × (filter is_block (packed size_of three).dropped ≡ [])
packed_blocks_example = packed_blocks size_of three block_fits
