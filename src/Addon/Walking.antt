-- ===== src/Addon/Walking.antt =====
-- The two walks over a document: where the one that writes gets through, the other finds the value.
use reqable_mcp.Prelude.{
  ℕ, zero, suc, ◌<◌, String, ◌≡◌, refl, sym, ap, ◌∙◌, true, false, Option, none, some, List, [],
  ◌∷◌, length, get_elem?, eq_iff, arith, Option-cases, inl, inr,
}
use reqable_mcp.Prelude.Int.{ℤ, pos, negsuc}
use reqable_mcp.Prelude.Dict
use reqable_mcp.Prelude.Dict.{Dict}
use reqable_mcp.Prelude.Dict.Laws.{get-put}
use reqable_mcp.Json.{
  to_dict-of_dict, to_list-of_list, Json, Items, Fields, null, str, arr, obj, to_dict, to_list,
}
use reqable_mcp.Addon.{Runtime}
use reqable_mcp.Addon.Path.{
  set_at, non_null, set_field, set_item, in_range, index, item, descend, walk, enter, put_item,
  put_back, set_index, set_leaf, patch,
}

length-set_at : (xs : List Json) (i : ℕ) (v : Json) → length (set_at xs i v) ≡ length xs
unfolding set_at
length-set_at [] i v = refl
length-set_at (x ∷ xs) zero v = refl
length-set_at (x ∷ xs) (suc i) v = omega (arith, length-set_at xs i v)

get-set_at :
    (xs : List Json) (i : ℕ) (v : Json) → i < length xs → get_elem? (set_at xs i v) i ≡ some v
unfolding set_at
get-set_at [] i v h = absurd (omega arith)
get-set_at (x ∷ xs) zero v h = refl
get-set_at (x ∷ xs) (suc i) v h = get-set_at xs i v (omega arith)

get-set_field :
    (fs : Fields) (k : String) (v : Json) → Dict.get (to_dict (set_field fs k v)) k ≡ some v
get-set_field fs k v =
    ap (λ d. Dict.get d k) (to_dict-of_dict (Dict.put (to_dict fs) k v))
    ∙ ground (arith, get-put (to_dict fs) k v k, eq_iff k k)

in_range-lt : (o : Option ℤ) (n i : ℕ) → in_range o n ≡ some i → i < n
in_range-lt none n i h = absurd (cc)
in_range-lt (some (pos j)) n i h = ground arith
in_range-lt (some (negsuc j)) n i h = absurd (cc)

module _ (rt : Runtime) where
  index-set_item :
      (xs : Items) (i : ℕ) (v : Json) (part : String)
      → index rt (set_item xs i v) part ≡ index rt xs part
  index-set_item xs i v part =
      ap (λ n. in_range (rt.int_of part) n)
        (ap length (to_list-of_list (set_at (to_list xs) i v)) ∙ length-set_at (to_list xs) i v)

  item-set_item :
      (xs : Items) (i : ℕ) (v : Json) (part : String)
      → index rt xs part ≡ some i
      → item rt (set_item xs i v) (index rt (set_item xs i v) part) ≡ some v
  item-set_item xs i v part h =
      ap (item rt (set_item xs i v)) (index-set_item xs i v part ∙ h)
      ∙ ap (λ l. get_elem? l i) (to_list-of_list (set_at (to_list xs) i v))
      ∙ get-set_at (to_list xs) i v (in_range-lt (rt.int_of part) (length (to_list xs)) i h)

  descend-put_item :
      (xs : Items) (o : Option ℕ) (part : String) (v c : Json)
      → index rt xs part ≡ o
      → item rt xs o ≡ some c
      → descend rt (put_item rt xs o v) part ≡ non_null (some v)
  unfolding descend
  descend-put_item xs none part v c h e = absurd (cc)
  descend-put_item xs (some i) part v c h e = ap non_null (item-set_item xs i v part h)

  descend-put_back :
      (cursor : Json) (part next_part : String) (c v : Json)
      → enter rt cursor part next_part ≡ some c
      → descend rt (put_back rt cursor part v) part ≡ non_null (some v)
  unfolding enter put_back descend
  descend-put_back (obj fs) part next_part c v h = ap non_null (get-set_field fs part v)
  descend-put_back (arr xs) part next_part c v h =
      descend-put_item xs (index rt xs part) part v c refl h
  descend-put_back cursor part next_part c v h = absurd (cc)

  descend-set_index :
      (xs : Items) (o : Option ℕ) (leaf : String) (v : Json)
      → index rt xs leaf ≡ o
      → (set_index rt xs o v).0 ≡ true
      → descend rt (set_index rt xs o v).1 leaf ≡ non_null (some v)
  unfolding descend
  descend-set_index xs none leaf v h e = absurd (cc)
  descend-set_index xs (some i) leaf v h e = ap non_null (item-set_item xs i v leaf h)

  descend-set_leaf :
      (cursor : Json) (leaf : String) (v : Json)
      → (set_leaf rt cursor leaf v).0 ≡ true
      → descend rt (set_leaf rt cursor leaf v).1 leaf ≡ non_null (some v)
  unfolding set_leaf descend
  descend-set_leaf (obj fs) leaf v h = ap non_null (get-set_field fs leaf v)
  descend-set_leaf (arr xs) leaf v h = descend-set_index xs (index rt xs leaf) leaf v refl h
  descend-set_leaf cursor leaf v h = absurd (cc)

  walk_via :
      (cursor c v : Json) (part next_part : String) (rest : List String)
      → descend rt cursor part ≡ non_null (some c)
      → walk rt (next_part ∷ rest) c ≡ some v
      → walk rt (part ∷ next_part ∷ rest) cursor ≡ some v
  unfolding walk descend
  walk_via cursor null v part next_part rest d h = absurd (cc)
  walk_via cursor c v part next_part rest d h = rw (d, walk) h

  patch-enter-none :
      (cursor v : Json) (part next_part : String) (rest : List String)
      → enter rt cursor part next_part ≡ none
      → patch rt (part ∷ next_part ∷ rest) cursor v ≡ (false, cursor)
  unfolding patch
  patch-enter-none cursor v part next_part rest e = rw (e, patch) refl

  patch-enter :
      (cursor c v : Json) (part next_part : String) (rest : List String)
      → enter rt cursor part next_part ≡ some c
      → patch rt (part ∷ next_part ∷ rest) cursor v ≡ (
        (patch rt (next_part ∷ rest) c v).0,
        put_back rt cursor part (patch rt (next_part ∷ rest) c v).1,
      )
  unfolding patch
  patch-enter cursor c v part next_part rest e = rw (e, patch) refl

  -- where the walk of `patch` gets through, the other walk finds the text
  pub walk-patch :
      (part : String) (rest : List String) (cursor : Json) (s : String)
      → (patch rt (part ∷ rest) cursor (str s)).0 ≡ true
      → walk rt (part ∷ rest) (patch rt (part ∷ rest) cursor (str s)).1 ≡ some (str s)
  unfolding patch walk
  walk-patch leaf [] cursor s h = rw (descend-set_leaf cursor leaf (str s) h, walk) refl
  walk-patch part (next_part ∷ rest) cursor s h =
      elim (Option-cases (enter rt cursor part next_part)) [
        | inl e ↦
            let stuck = patch-enter-none cursor (str s) part next_part rest e in
            absurd (cc (ap (λ r. r.0) stuck, h))
        | inr (c, e) ↦
            let step = patch-enter cursor c (str s) part next_part rest e in
            let done = sym (ap (λ r. r.0) step) ∙ h in
            let c' = (patch rt (next_part ∷ rest) c (str s)).1 in
            ap (λ r. walk rt (part ∷ next_part ∷ rest) r.1) step
            ∙ walk_via (put_back rt cursor part c') c' (str s) part next_part rest
                (descend-put_back cursor part next_part c c' e) (walk-patch next_part rest c s done)
      ]
