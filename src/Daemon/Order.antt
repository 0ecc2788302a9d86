-- ===== src/Daemon/Order.antt =====
-- The order in which the rules are packed.
use reqable_mcp.Prelude.{
  ◌≡◌, refl, ap, ◌∙◌, Bool, true, false, not, List, [], ◌∷◌, ◌++◌, filter, All, arith, Bool-cases,
  inl, inr, length,
}
use reqable_mcp.Daemon.Packing.{Encoded, is_block, insert, sort}

module _ (t : Encoded) where
  insert-block :
      (bs os : List Encoded)
      → is_block t ≡ true
      → All (λ o. is_block o ≡ false) os
      → insert t (bs ++ os) ≡ insert t bs ++ os
  unfolding insert
  insert-block [] [] block rest = refl
  insert-block [] (o ∷ os) block (other, _) = ground arith
  insert-block (b ∷ bs) os block rest = ground (arith, insert-block bs os block rest)

  insert-other :
      (bs os : List Encoded)
      → is_block t ≡ false
      → All (λ b. is_block b ≡ true) bs
      → insert t (bs ++ os) ≡ bs ++ insert t os
  unfolding insert
  insert-other [] os other all = refl
  insert-other (b ∷ bs) os other (block, all) = ground (arith, insert-other bs os other all)

  All-insert :
      (p : Encoded → Bool) (v : Bool) (ts : List Encoded)
      → p t ≡ v
      → All (λ u. p u ≡ v) ts
      → All (λ u. p u ≡ v) (insert t ts)
  unfolding insert
  All-insert p v [] h all = (h, tt)
  All-insert p v (u ∷ us) h (e, all) = ground (arith, All-insert p v us h all)

pub All-sort-filter :
    (p : Encoded → Bool) (ts : List Encoded) → All (λ u. p u ≡ true) (sort (filter p ts))
unfolding sort
All-sort-filter p [] = tt
All-sort-filter p (t ∷ ts) = elim (Bool-cases (p t)) [
  | inl e ↦ rw e (All-insert t p true (sort (filter p ts)) e (All-sort-filter p ts))
  | inr e ↦ rw e (All-sort-filter p ts)
]

All-others :
    (us : List Encoded) → All (λ u. not (is_block u) ≡ true) us → All (λ u. is_block u ≡ false) us
All-others [] all = tt
All-others (u ∷ us) (h, all) = (ground arith, All-others us all)

pub others :
    (ts : List Encoded) → All (λ u. is_block u ≡ false) (sort (filter (λ u. not (is_block u)) ts))
others ts = All-others _ (All-sort-filter (λ u. not (is_block u)) ts)

-- The sorted rules are the blocking ones, sorted, and then the others, sorted.
pub sort-blocks_first :
    (ts : List Encoded)
    → sort ts ≡ sort (filter is_block ts) ++ sort (filter (λ t. not (is_block t)) ts)
unfolding sort
sort-blocks_first [] = refl
sort-blocks_first (t ∷ ts) =
    let bs = sort (filter is_block ts) in
    let os = sort (filter (λ u. not (is_block u)) ts) in
    elim (Bool-cases (is_block t)) [
      | inl e ↦ rw e (ap (insert t) (sort-blocks_first ts) ∙ insert-block t bs os e (others ts))
      | inr e ↦ rw e (
          ap (insert t) (sort-blocks_first ts)
          ∙ insert-other t bs os e (All-sort-filter is_block ts))
    ]

insert-count :
    (p : Encoded → Bool) (t : Encoded) (ts : List Encoded)
    → length (filter p (insert t ts)) ≡ length (filter p (t ∷ ts))
unfolding insert
insert-count p t [] = refl
insert-count p t (u ∷ us) = ground (arith, insert-count p t us)

-- Sorting keeps how many there are of any kind.
pub sort-count :
    (p : Encoded → Bool) (ts : List Encoded) → length (filter p (sort ts)) ≡ length (filter p ts)
unfolding sort
sort-count p [] = refl
sort-count p (t ∷ ts) = insert-count p t (sort ts) ∙ ground (arith, sort-count p ts)
