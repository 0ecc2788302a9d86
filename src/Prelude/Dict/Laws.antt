-- ===== src/Prelude/Dict/Laws.antt =====
-- How the operations of a dictionary act on each other.
use Prim.Native.Nat.{◌+◌, ◌≤◌}
use Prim.Native.String.{String}
use mathlib.Core.Path.{◌≡◌, refl, ap}
use mathlib.Core.Bool.{Bool, true, false, not}
use mathlib.Core.List.{List, [], ◌∷◌, ◌++◌}
use mathlib.Core.Option.{Option, none, some}
use native.Mathlib.Omega.{arith}
use text.Mathlib.Text.{◌==◌ as str_eq}
use text.Mathlib.TextEquality.{eq_iff}
use reqable_mcp.Prelude.Tests.{if◌then◌else◌}
use reqable_mcp.Prelude.Lists.{length, filter, All}
use reqable_mcp.Prelude.Dict.{
  Dict, get, put, remove, remove_all, keep, values, keys, contains, IsUnique,
}

module _ {ℓ} {V : Type ℓ} where
  pub get-put :
      (d : Dict V) (k : String) (v : V) (j : String)
      → get (put d k v) j ≡ (if str_eq k j then some v else get d j)
  unfolding get put
  get-put [] k v j = refl
  get-put ((i, w) ∷ d) k v j = ground (arith, get-put d k v j, eq_iff i k, eq_iff i j, eq_iff k j)

  pub get-remove :
      (d : Dict V) (k j : String) → get (remove d k) j ≡ (if str_eq k j then none else get d j)
  unfolding get remove
  get-remove [] k j = ground arith
  get-remove ((i, w) ∷ d) k j = ground (arith, get-remove d k j, eq_iff i k, eq_iff i j, eq_iff k j)

  -- an optional value that has to pass a test
  abbrev pub passing : (V → Bool) → Option V → Option V
  passing p none = none
  passing p (some v) = if p v then some v else none

  get-keep_absent :
      (p : V → Bool) (d : Dict V) (k : String) → contains d k ≡ false → get (keep p d) k ≡ none
  unfolding get keep
  get-keep_absent p [] k h = refl
  get-keep_absent p ((i, w) ∷ d) k h = ground (arith, get-keep_absent p d k)

  pub get-keep :
      (p : V → Bool) (d : Dict V) (k : String) → IsUnique d → get (keep p d) k ≡ passing p (get d k)
  unfolding get keep
  get-keep p [] k u = refl
  get-keep p ((i, w) ∷ d) k (absent, u) =
      ground (arith, get-keep p d k u, get-keep_absent p d i absent, eq_iff i k)

  pub remove_absent : (d : Dict V) (k : String) → contains d k ≡ false → remove d k ≡ d
  unfolding get remove
  remove_absent [] k h = refl
  remove_absent ((i, w) ∷ d) k h = ground (arith, remove_absent d k)

  pub IsUnique-put : (d : Dict V) (k : String) (v : V) → IsUnique d → IsUnique (put d k v)
  unfolding put get
  IsUnique-put [] k v u = (refl, tt)
  IsUnique-put ((i, w) ∷ d) k v (absent, u) =
      ground (arith, IsUnique-put d k v u, get-put d k v i, eq_iff i k, eq_iff k i)

  pub IsUnique-remove : (d : Dict V) (k : String) → IsUnique d → IsUnique (remove d k)
  unfolding remove
  IsUnique-remove [] k u = tt
  IsUnique-remove ((i, w) ∷ d) k (absent, u) =
      ground (arith, IsUnique-remove d k u, get-remove d k i)

  pub IsUnique-keep : (p : V → Bool) (d : Dict V) → IsUnique d → IsUnique (keep p d)
  unfolding keep
  IsUnique-keep p [] u = tt
  IsUnique-keep p ((i, w) ∷ d) (absent, u) =
      ground (arith, IsUnique-keep p d u, get-keep_absent p d i absent)

  pub length-put :
      (d : Dict V) (k : String) (v : V)
      → length (put d k v) ≡ (if contains d k then length d else length d + 1)
  unfolding put get
  length-put [] k v = ground arith
  length-put ((i, w) ∷ d) k v = ground (arith, length-put d k v)

  pub length-remove-le : (d : Dict V) (k : String) → length (remove d k) ≤ length d
  unfolding remove
  length-remove-le [] k = omega arith
  length-remove-le ((i, w) ∷ d) k = ground (arith, length-remove-le d k)

  pub length-remove :
      (d : Dict V) (k : String)
      → IsUnique d
      → length d ≡ (if contains d k then length (remove d k) + 1 else length (remove d k))
  unfolding remove get
  length-remove [] k u = refl
  length-remove ((i, w) ∷ d) k (absent, u) =
      ground (arith, length-remove d k u, eq_iff i k, remove_absent d i absent)

  pub length-keep :
      (p : V → Bool) (d : Dict V) → length (keep p d) + length (keep (λ v. not (p v)) d) ≡ length d
  unfolding keep
  length-keep p [] = omega arith
  length-keep p ((i, w) ∷ d) = ground (arith, length-keep p d)

  pub values-keep : (p : V → Bool) (d : Dict V) → values (keep p d) ≡ filter p (values d)
  unfolding keep
  values-keep p [] = refl
  values-keep p ((i, w) ∷ d) = ground (arith, values-keep p d)

  pub length-values : (d : Dict V) → length (values d) ≡ length d
  length-values [] = refl
  length-values ((k, v) ∷ d) = omega (arith, length-values d)

  pub length-keys : (d : Dict V) → length (keys d) ≡ length d
  length-keys [] = refl
  length-keys ((k, v) ∷ d) = omega (arith, length-keys d)

  remove_all-cons :
      (k : String) (v : V) (d : Dict V) (ks : List String)
      → All (λ j. str_eq k j ≡ false) ks
      → remove_all ((k, v) ∷ d) ks ≡ (k, v) ∷ remove_all d ks
  unfolding remove_all remove
  remove_all-cons k v d [] h = refl
  remove_all-cons k v d (j ∷ ks) (ne, h) = rw ne (remove_all-cons k v (remove d j) ks h)

  keys-keep_absent :
      (p : V → Bool) (d : Dict V) (k : String)
      → contains d k ≡ false
      → All (λ j. str_eq k j ≡ false) (keys (keep p d))
  unfolding keep get
  keys-keep_absent p [] k h = tt
  keys-keep_absent p ((i, w) ∷ d) k h =
      ground (arith, keys-keep_absent p d k, eq_iff i k, eq_iff k i)

  -- To collect the keys that fail a test and delete them one by one keeps those that pass.
  pub remove_all-keep :
      (p : V → Bool) (d : Dict V)
      → IsUnique d
      → remove_all d (keys (keep p d)) ≡ keep (λ v. not (p v)) d
  unfolding keep remove_all remove
  remove_all-keep p [] u = refl
  remove_all-keep p ((i, w) ∷ d) (absent, u) = ground (
    arith,
    remove_all-keep p d u,
    remove_all-cons i w d (keys (keep p d)) (keys-keep_absent p d i absent),
    remove_absent d i absent,
    eq_iff i i,
  )

  pub keep-keep :
      (p q : V → Bool) (d : Dict V)
      → ((v : V) → q v ≡ true → p v ≡ true)
      → keep p (keep q d) ≡ keep q d
  unfolding keep
  keep-keep p q [] h = refl
  keep-keep p q ((i, w) ∷ d) h = ground (arith, keep-keep p q d h, h w)

  pub keep_all : (p : V → Bool) (d : Dict V) → length (keep p d) ≡ 0 → keep (λ v. not (p v)) d ≡ d
  unfolding keep
  keep_all p [] h = refl
  keep_all p ((i, w) ∷ d) h = ground (arith, keep_all p d)

  pub put_fresh :
      (d : Dict V) (k : String) (v : V) → contains d k ≡ false → put d k v ≡ d ++ (k, v) ∷ []
  unfolding put get
  put_fresh [] k v h = refl
  put_fresh ((i, w) ∷ d) k v h = ground (arith, put_fresh d k v)

  pub values-append : (d e : Dict V) → values (d ++ e) ≡ values d ++ values e
  values-append [] e = refl
  values-append ((k, v) ∷ d) e = ap (◌∷◌ v) (values-append d e)
