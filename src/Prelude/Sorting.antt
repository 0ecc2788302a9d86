-- ===== src/Prelude/Sorting.antt =====
-- Python's `sort(key=...)` on numbers: stable, the least key first.
use Prim.Native.Nat.{ℕ}
use mathlib.Core.Path.{◌≡◌, refl, ap, ◌∙◌}
use mathlib.Core.Logic.{inl, inr}
use mathlib.Core.Bool.{Bool, true, false, not}
use mathlib.Core.List.{List, [], ◌∷◌, ◌++◌}
use native.Mathlib.Omega.{arith}
use reqable_mcp.Prelude.Tests.{leb, ◌==◌, if◌then◌else◌, Bool-cases}
use reqable_mcp.Prelude.Lists.{filter, All}

module _ {ℓ} {A : Type ℓ} (key : A → ℕ) where
  unfoldable pub insert_by : A → List A → List A
  insert_by x [] = x ∷ []
  insert_by x (y ∷ ys) =
      let rest = insert_by x ys in if leb (key x) (key y) then x ∷ y ∷ ys else y ∷ rest

  unfoldable pub sort_by : List A → List A
  unfolding insert_by
  sort_by [] = []
  sort_by (x ∷ xs) = insert_by x (sort_by xs)

  abbrev pub is_first : A → Bool
  is_first x = key x == 0

  insert_by-first : (x : A) (ys : List A) → is_first x ≡ true → insert_by x ys ≡ x ∷ ys
  unfolding insert_by
  insert_by-first x [] h = refl
  insert_by-first x (y ∷ ys) h = ground arith

  insert_by-past :
      (x : A) (zs ys : List A)
      → is_first x ≡ false
      → insert_by x (filter is_first zs ++ ys) ≡ filter is_first zs ++ insert_by x ys
  unfolding insert_by
  insert_by-past x [] ys h = refl
  insert_by-past x (z ∷ zs) ys h = ground (arith, insert_by-past x zs ys h)

  -- What has the key 0 comes first, in the order in which it stood.
  pub sort_by-first :
      (xs : List A) → sort_by xs ≡ filter is_first xs ++ sort_by (filter (λ x. not (is_first x)) xs)
  unfolding sort_by
  sort_by-first [] = refl
  sort_by-first (x ∷ xs) = elim (Bool-cases (is_first x)) [
    | inl e ↦ rw e (ap (insert_by x) (sort_by-first xs) ∙ insert_by-first x _ e)
    | inr e ↦ rw e (ap (insert_by x) (sort_by-first xs) ∙ insert_by-past x xs _ e)
  ]

  All-insert_by : (P : A → Type 0) (x : A) (ys : List A) → P x → All P ys → All P (insert_by x ys)
  unfolding insert_by
  All-insert_by P x [] h all = (h, tt)
  All-insert_by P x (y ∷ ys) h (k, all) = elim (Bool-cases (leb (key x) (key y))) [
    | inl e ↦ rw e (h, (k, all))
    | inr e ↦ rw e (k, All-insert_by P x ys h all)
  ]

  pub All-sort_by : (P : A → Type 0) (xs : List A) → All P xs → All P (sort_by xs)
  unfolding sort_by
  All-sort_by P [] all = tt
  All-sort_by P (x ∷ xs) (h, all) = All-insert_by P x (sort_by xs) h (All-sort_by P xs all)
