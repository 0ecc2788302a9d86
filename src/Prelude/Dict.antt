-- ===== src/Prelude/Dict.antt =====
-- Python's `dict` with text keys: entries in insertion order, each key once.
pub mod Laws
use Prim.Native.Nat.{ℕ, ◌+◌, ◌≤◌}
use Prim.Native.String.{String}
use mathlib.Core.Path.{◌≡◌, refl, ap}
use mathlib.Core.Logic.{◌⊎◌, inl, inr}
use mathlib.Core.Bool.{Bool, true, false, not, ◌&&◌}
use mathlib.Core.List.{List, [], ◌∷◌, ◌++◌, map}
use mathlib.Core.Option.{Option, none, some}
use native.Mathlib.Omega.{arith}
use text.Mathlib.Text.{◌==◌ as str_eq}
use text.Mathlib.TextEquality.{eq_iff}
use reqable_mcp.Prelude.Tests.{if◌then◌else◌, is_some, Bool-cases}
use reqable_mcp.Prelude.Lists.{length, filter}

abbrev pub Dict {ℓ} : Type ℓ → Type ℓ
Dict V = List (String × V)

module _ {ℓ} {V : Type ℓ} where
  -- d.get(k)
  unfoldable pub get : Dict V → String → Option V
  get [] k = none
  get ((j, v) ∷ d) k = if str_eq j k then some v else get d k

  -- d[k] = v, which keeps the place of a key that is there
  unfoldable pub put : Dict V → String → V → Dict V
  put [] k v = (k, v) ∷ []
  put ((j, w) ∷ d) k v = if str_eq j k then (j, v) ∷ d else (j, w) ∷ put d k v

  -- d.pop(k, None), del d[k]
  unfoldable pub remove : Dict V → String → Dict V
  remove [] k = []
  remove ((j, v) ∷ d) k = let rest = remove d k in if str_eq j k then rest else (j, v) ∷ rest

  -- for k in ks: del d[k]
  unfoldable pub remove_all : Dict V → List String → Dict V
  remove_all d [] = d
  remove_all d (k ∷ ks) = remove_all (remove d k) ks

  -- The entries whose value passes a test.
  unfoldable pub keep : (V → Bool) → Dict V → Dict V
  keep p [] = []
  keep p ((k, v) ∷ d) = let rest = keep p d in if p v then (k, v) ∷ rest else rest

  -- d.values()
  abbrev pub values : Dict V → List V
  values [] = []
  values ((k, v) ∷ d) = v ∷ values d

  abbrev pub keys : Dict V → List String
  keys [] = []
  keys ((k, v) ∷ d) = k ∷ keys d

  -- `k in d`
  abbrev pub contains : Dict V → String → Bool
  contains d k = is_some (get d k)

  -- Each key stands once.
  abbrev pub IsUnique : Dict V → Type 0
  IsUnique [] = Unit
  IsUnique ((k, v) ∷ d) = (contains d k ≡ false) × IsUnique d
