-- ===== src/Daemon/Packing.antt =====
-- daemon.py: `_pack_rules_for_ipc`. The length in characters of `json.dumps` of a payload is a
-- parameter.
use reqable_mcp.Prelude.{
  ℕ, ◌+◌, ◌-◌, ◌*◌, Bool, ◌&&◌, ◌||◌, not, List, [], ◌∷◌, ◌++◌, map, ltb, leb, str_eq,
  if◌then◌else◌,
}
use reqable_mcp.Prelude.Dict.{Dict}
use reqable_mcp.Json.{Json}
use reqable_mcp.Rules.{Rule, to_addon_payload}

abbrev pub max_message_bytes : ℕ
max_message_bytes = 256 * 1024

abbrev pub ipc_rule_payload_budget : ℕ
ipc_rule_payload_budget = max_message_bytes - 4096

-- a tuple of `encoded`
pub record Encoded : Type 0 where
  pub rule : Rule
  pub payload : Dict Json
  pub size : ℕ

abbrev pub is_block : Encoded → Bool
is_block t = str_eq t.rule.kind "block"

-- `key(a) <= key(b)`: the blocks first, then by size
abbrev pub in_order : Encoded → Encoded → Bool
in_order a b =
    if is_block a
    then not (is_block b) || leb a.size b.size
    else not (is_block b) && leb a.size b.size

-- `sort`, which is stable
unfoldable pub insert : Encoded → List Encoded → List Encoded
insert t [] = t ∷ []
insert t (u ∷ us) = let rest = insert t us in if in_order t u then t ∷ u ∷ us else u ∷ rest

unfoldable pub sort : List Encoded → List Encoded
unfolding insert
sort [] = []
sort (t ∷ ts) = insert t (sort ts)

-- the variables of the loop, with the tuple for each payload or rule that the code puts in its lists
pub record Packed : Type 0 where
  pub out : List Encoded
  pub used : ℕ
  pub dropped : List Encoded

-- `size + (1 if out else 0)`
abbrev pub cost : Encoded → List Encoded → ℕ
cost t [] = t.size
cost t (_ ∷ _) = t.size + 1

-- one round
unfoldable pub place : Encoded → Packed → Packed
place t s =
    if ltb ipc_rule_payload_budget (s.used + cost t s.out)
    then record s { dropped = s.dropped ++ t ∷ [] }
    else record s { out = s.out ++ t ∷ []; used = s.used + cost t s.out }

unfoldable pub place_each : List Encoded → Packed → Packed
unfolding place
place_each [] s = s
place_each (t ∷ ts) s = place_each ts (place t s)

abbrev pub start : Packed
start = record { out = []; used = 2; dropped = [] }

module _ (size_of : Dict Json → ℕ) where
  unfoldable pub encode : Rule → Encoded
  encode r = record { rule = r; payload = to_addon_payload r; size = size_of (to_addon_payload r) }

  unfoldable pub packed : List Rule → Packed
  unfolding encode sort place_each
  packed rules = place_each (sort (map encode rules)) start

  unfoldable pub pack_rules_for_ipc : List Rule → List (Dict Json)
  unfolding packed
  pack_rules_for_ipc rules = map (λ t. t.payload) (packed rules).out
