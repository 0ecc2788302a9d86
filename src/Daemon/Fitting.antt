-- ===== src/Daemon/Fitting.antt =====
-- What packing keeps.
use reqable_mcp.Prelude.{
  ℕ, ◌+◌, ◌-◌, ◌≤◌, ◌<◌, ◌≡◌, refl, ap, Bool, List, [], ◌∷◌, ◌++◌, map, length, filter, All, arith,
  length-append, filter-append,
}
use reqable_mcp.Prelude.Dict.{Dict}
use reqable_mcp.Json.{Json}
use reqable_mcp.Rules.{Rule}
use reqable_mcp.Daemon.Packing.{
  Encoded, sort, Packed, cost, place, place_each, start, encode, packed, ipc_rule_payload_budget,
}
use reqable_mcp.Daemon.Order.{sort-count}

abbrev pub sizes : List Encoded → ℕ
sizes [] = 0
sizes (t ∷ ts) = t.size + sizes ts

-- The length of a JSON list of the payloads: the brackets, the payloads, and the commas between.
unfoldable pub frame : List Encoded → ℕ
frame ts = 2 + sizes ts + (length ts - 1)

pub sizes-append : (ts us : List Encoded) → sizes (ts ++ us) ≡ sizes ts + sizes us
sizes-append [] us = omega arith
sizes-append (t ∷ ts) us = omega (arith, sizes-append ts us)

pub frame-snoc : (out : List Encoded) (t : Encoded) → frame (out ++ t ∷ []) ≡ frame out + cost t out
unfolding frame
frame-snoc [] t = omega arith
frame-snoc (u ∷ us) t = omega (arith, sizes-append us (t ∷ []), length-append us (t ∷ []))

pub frame-le-append : (ts us : List Encoded) → frame ts ≤ frame (ts ++ us)
unfolding frame
frame-le-append ts us = omega (arith, sizes-append ts us, length-append ts us)

-- what the variables of the loop say of one another
pub record IsFilled (s : Packed) : Type 0 where
  pub counted : s.used ≡ frame s.out
  pub fits : s.used ≤ ipc_rule_payload_budget

-- A rule that does not fit beside those that are kept.
abbrev pub TooLarge : List Encoded → Encoded → Type 0
TooLarge out t = ipc_rule_payload_budget < frame out + 1 + t.size

pub place-IsFilled : (t : Encoded) (s : Packed) → IsFilled s → IsFilled (place t s)
unfolding place
place-IsFilled t s f = ground (arith, frame-snoc s.out t)

pub place_each-IsFilled : (ts : List Encoded) (s : Packed) → IsFilled s → IsFilled (place_each ts s)
unfolding place_each
place_each-IsFilled [] s f = f
place_each-IsFilled (t ∷ ts) s f = place_each-IsFilled ts (place t s) (place-IsFilled t s f)

TooLarge-append : (out us ds : List Encoded) → All (TooLarge out) ds → All (TooLarge (out ++ us)) ds
TooLarge-append out us [] all = tt
TooLarge-append out us (d ∷ ds) (h, all) =
    (omega (arith, frame-le-append out us), TooLarge-append out us ds all)

All-snoc :
    (out ds : List Encoded) (t : Encoded)
    → All (TooLarge out) ds
    → TooLarge out t
    → All (TooLarge out) (ds ++ t ∷ [])
All-snoc out [] t all h = (h, tt)
All-snoc out (d ∷ ds) t (k, all) h = (k, All-snoc out ds t all h)

cost-le : (t : Encoded) (out : List Encoded) → cost t out ≤ 1 + t.size
cost-le t [] = omega arith
cost-le t (u ∷ us) = omega arith

place-TooLarge :
    (t : Encoded) (s : Packed)
    → IsFilled s
    → All (TooLarge s.out) s.dropped
    → All (TooLarge (place t s).out) (place t s).dropped
unfolding place
place-TooLarge t s f all = ground (
  arith,
  TooLarge-append s.out (t ∷ []) s.dropped all,
  All-snoc s.out s.dropped t all,
  cost-le t s.out,
)

place_each-TooLarge :
    (ts : List Encoded) (s : Packed)
    → IsFilled s
    → All (TooLarge s.out) s.dropped
    → All (TooLarge (place_each ts s).out) (place_each ts s).dropped
unfolding place_each
place_each-TooLarge [] s f all = all
place_each-TooLarge (t ∷ ts) s f all =
    place_each-TooLarge ts (place t s) (place-IsFilled t s f) (place-TooLarge t s f all)

-- how many of a kind are kept or dropped
abbrev held : (Encoded → Bool) → Packed → ℕ
held p s = length (filter p s.out) + length (filter p s.dropped)

place-held :
    (p : Encoded → Bool) (t : Encoded) (s : Packed)
    → held p (place t s) ≡ held p s + length (filter p (t ∷ []))
unfolding place
place-held p t s = ground (
  arith,
  ap length (filter-append p s.out (t ∷ [])),
  ap length (filter-append p s.dropped (t ∷ [])),
  length-append (filter p s.out) (filter p (t ∷ [])),
  length-append (filter p s.dropped) (filter p (t ∷ [])),
)

place_each-held :
    (p : Encoded → Bool) (ts : List Encoded) (s : Packed)
    → held p (place_each ts s) ≡ held p s + length (filter p ts)
unfolding place_each
place_each-held p [] s = omega arith
place_each-held p (t ∷ ts) s = ground (arith, place_each-held p ts (place t s), place-held p t s)

pub start-IsFilled : IsFilled start
unfolding frame
start-IsFilled = record { counted = refl; fits = omega arith }

module _ (size_of : Dict Json → ℕ) (rules : List Rule) where
  -- Packing keeps or drops each rule that matched, as often as it matched. What it keeps fits the
  -- budget as a JSON list, and no rule that it drops would fit beside what it keeps.
  pub packed_fits :
      (p : Encoded → Bool)
      → let s = packed size_of rules in
        (length (filter p s.out) + length (filter p s.dropped)
          ≡ length (filter p (map (encode size_of) rules)))
        × (frame s.out ≤ ipc_rule_payload_budget)
        × All (TooLarge s.out) s.dropped
  unfolding packed
  packed_fits p =
      let ts = sort (map (encode size_of) rules) in
      let f = place_each-IsFilled ts start start-IsFilled in
      (
        omega (arith, place_each-held p ts start, sort-count p (map (encode size_of) rules)),
        omega (arith, f.counted, f.fits),
        place_each-TooLarge ts start start-IsFilled tt,
      )
