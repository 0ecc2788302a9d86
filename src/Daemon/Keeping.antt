-- ===== src/Daemon/Keeping.antt =====
-- When packing keeps everything, and when it keeps the blocking rules.
use reqable_mcp.Prelude.{
  ℕ, ◌+◌, ◌≤◌, ◌≡◌, refl, sym, ap, ◌∙◌, true, false, not, List, [], ◌∷◌, ◌++◌, map, map-append,
  length, filter, All, arith, append_assoc, append-nil, filter-append,
}
use reqable_mcp.Prelude.Dict.{Dict}
use reqable_mcp.Json.{Json}
use reqable_mcp.Rules.{Rule}
use reqable_mcp.Daemon.Packing.{
  Encoded, is_block, sort, insert, Packed, place, place_each, start, encode, packed,
  pack_rules_for_ipc, ipc_rule_payload_budget,
}
use reqable_mcp.Daemon.Order.{sort-blocks_first, All-sort-filter, others}
use reqable_mcp.Daemon.Fitting.{
  sizes, frame, frame-snoc, frame-le-append, IsFilled, place-IsFilled, start-IsFilled,
}

-- a rule that fits is kept
place-fits :
    (t : Encoded) (s : Packed)
    → IsFilled s
    → frame (s.out ++ t ∷ []) ≤ ipc_rule_payload_budget
    → ((place t s).out ≡ s.out ++ t ∷ []) × ((place t s).dropped ≡ s.dropped)
unfolding place
place-fits t s f h = ground (arith, frame-snoc s.out t, f.counted)

place_each-fits :
    (ts : List Encoded) (s : Packed)
    → IsFilled s
    → frame (s.out ++ ts) ≤ ipc_rule_payload_budget
    → ((place_each ts s).out ≡ s.out ++ ts) × ((place_each ts s).dropped ≡ s.dropped)
unfolding place_each
place_each-fits [] s f h = (sym (append-nil s.out), refl)
place_each-fits (t ∷ ts) s f h =
    let e = append_assoc s.out (t ∷ []) ts in
    let (kept, same) =
      place-fits t s f (omega (arith, frame-le-append (s.out ++ t ∷ []) ts, ap frame e)) in
    let joined : (place t s).out ++ ts ≡ s.out ++ t ∷ ts = ap (λ o. o ++ ts) kept ∙ e in
    let (out, dropped) =
      place_each-fits ts (place t s) (place-IsFilled t s f) (omega (arith, ap frame joined)) in
    (out ∙ joined, dropped ∙ same)

place_each-append :
    (ts us : List Encoded) (s : Packed) → place_each (ts ++ us) s ≡ place_each us (place_each ts s)
unfolding place_each
place_each-append [] us s = refl
place_each-append (t ∷ ts) us s = place_each-append ts us (place t s)

-- the blocking rules among those kept and dropped
abbrev blocks : Packed → List Encoded × List Encoded
blocks s = (filter is_block s.out, filter is_block s.dropped)

place-blocks : (t : Encoded) (s : Packed) → is_block t ≡ false → blocks (place t s) ≡ blocks s
unfolding place
place-blocks t s h = ground (
  arith,
  filter-append is_block s.out (t ∷ []),
  filter-append is_block s.dropped (t ∷ []),
  append-nil (filter is_block s.out),
  append-nil (filter is_block s.dropped),
)

place_each-blocks :
    (ts : List Encoded) (s : Packed)
    → All (λ t. is_block t ≡ false) ts
    → blocks (place_each ts s) ≡ blocks s
unfolding place_each
place_each-blocks [] s all = refl
place_each-blocks (t ∷ ts) s (h, all) = place_each-blocks ts (place t s) all ∙ place-blocks t s h

filter-All : (ts : List Encoded) → All (λ t. is_block t ≡ true) ts → filter is_block ts ≡ ts
filter-All [] all = refl
filter-All (t ∷ ts) (h, all) = rw h (ap (◌∷◌ t) (filter-All ts all))

insert-frame :
    (t : Encoded) (ts : List Encoded)
    → (sizes (insert t ts) ≡ t.size + sizes ts) × (length (insert t ts) ≡ 1 + length ts)
unfolding insert
insert-frame t [] = ground arith
insert-frame t (u ∷ us) = ground (arith, insert-frame t us)

sort-sizes : (ts : List Encoded) → (sizes (sort ts) ≡ sizes ts) × (length (sort ts) ≡ length ts)
unfolding sort
sort-sizes [] = (refl, refl)
sort-sizes (t ∷ ts) = ground (arith, sort-sizes ts, insert-frame t (sort ts))

frame-sort : (ts : List Encoded) → frame (sort ts) ≡ frame ts
unfolding frame
frame-sort ts = ground (arith, sort-sizes ts)

module _ (size_of : Dict Json → ℕ) (rules : List Rule) where
  abbrev encoded : List Encoded
  encoded = map (encode size_of) rules

  -- If the payloads of all rules that matched fit the budget together, all are sent, the blocking
  -- ones first, and each group in the order of size.
  pub packed_whole :
      frame (map (encode size_of) rules) ≤ ipc_rule_payload_budget
      → pack_rules_for_ipc size_of rules
        ≡ map (λ t. t.payload) (sort (filter is_block (map (encode size_of) rules)))
          ++ map
              (λ t. t.payload)
              (sort (filter (λ t. not (is_block t)) (map (encode size_of) rules)))
  unfolding pack_rules_for_ipc packed
  packed_whole h =
      let ts = sort (map (encode size_of) rules) in
      let e = frame-sort (map (encode size_of) rules) in
      ap (map (λ t. t.payload)) (
        (place_each-fits ts start start-IsFilled (omega arith)).0
        ∙ sort-blocks_first (map (encode size_of) rules))
      ∙ map-append (λ t. t.payload) (sort (filter is_block (map (encode size_of) rules))) _

  -- If the payloads of the blocking rules that matched fit the budget together, none of them is
  -- dropped, whatever else matched: those kept are all of them, in the order of size.
  pub packed_blocks :
      frame (filter is_block (map (encode size_of) rules)) ≤ ipc_rule_payload_budget
      → (filter is_block (packed size_of rules).out
          ≡ sort (filter is_block (map (encode size_of) rules)))
        × (filter is_block (packed size_of rules).dropped ≡ [])
  unfolding packed
  packed_blocks h =
      let bs = sort (filter is_block encoded) in
      let os = sort (filter (λ t. not (is_block t)) encoded) in
      let (kept, same) =
        place_each-fits bs start start-IsFilled
          (omega (arith, frame-sort (filter is_block encoded))) in
      let split : blocks (place_each (sort encoded) start) ≡ blocks (place_each bs start) =
        ap (λ ts. blocks (place_each ts start)) (sort-blocks_first encoded)
        ∙ ap blocks (place_each-append bs os start)
        ∙ place_each-blocks os (place_each bs start) (others encoded) in
      (
        ap (λ b. b.0) split
            ∙ ap (filter is_block) kept
            ∙ filter-All bs (All-sort-filter is_block encoded),
        ap (λ b. b.1) split ∙ ap (filter is_block) same,
      )
