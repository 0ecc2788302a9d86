-- ===== src/Rules.antt =====
-- rules.py: the record `Rule`, its constructor's check, and the tests of one rule. A time is an
-- integer of microseconds, since a time that was read from a file may be anything.
pub mod Record
pub mod Engine
pub mod Report
pub mod Calls
pub mod Index
pub mod Invariant
pub mod Matching
pub mod Checks
pub mod Adding
pub mod Reaping
pub mod Removing
pub mod Saving
mod Tests
use reqable_mcp.Prelude.{
  ℕ, String, Bool, true, false, not, ◌&&◌, ◌||◌, Option, none, some, List, [], ◌∷◌, length, ltb,
  leb, str_eq, is_some, if◌then◌else◌,
}
use reqable_mcp.Prelude.Int.{ℤ, pos, ltb_ℤ, leb_ℤ}
use reqable_mcp.Prelude.Result.{Result, ok, err, value_error}
use reqable_mcp.Json.{Json, Fields, bool, str, to_dict, of_dict, field}
use reqable_mcp.Python.{Python}
use reqable_mcp.Prelude.Dict
use reqable_mcp.Prelude.Dict.{Dict}

pub record Rule : Type 0 where
  pub id : String
  pub kind : String
  pub side : String
  pub host : Option String
  pub path_pattern : Option String
  pub method : Option String
  pub payload : Fields
  pub created_ts : ℤ
  pub expires_ts : Option ℤ
  pub hits : ℤ
  pub status_min : Option ℤ
  pub status_max : Option ℤ
  pub dry_run : Bool

-- what a request or a response is matched by
pub record Flow : Type 0 where
  pub side : String
  pub host : Option String
  pub path : Option String
  pub method : Option String
  pub status : Option ℤ

-- `x or ""`
abbrev pub or_empty : Option String → String
or_empty none = ""
or_empty (some s) = s

-- an empty pattern is not compiled, and counts as none
abbrev pub pattern_of : Option String → Option String
pattern_of none = none
pattern_of (some p) = if str_eq p "" then none else some p

-- a filter that is absent, or a test of its value
abbrev pub admits {ℓ} : {A : Type ℓ} → Option A → (A → Bool) → Bool
admits none test = true
admits (some a) test = test a

-- the bounds on a status that is known
pub status_in : Option ℤ → Option ℤ → Option ℤ → Bool
status_in lo hi none = false
status_in lo hi (some status) =
    if admits lo (λ m. not (ltb_ℤ status m)) then admits hi (λ m. not (ltb_ℤ m status)) else false

module _ (py : Python) where
  open py use {lower, upper, compiles, search}

  -- `__post_init__`
  unfoldable pub post_init : Rule → Result Rule
  post_init r = if admits (pattern_of r.path_pattern) compiles then ok r else err value_error

  unfoldable pub matches : Rule → Flow → Bool
  unfolding status_in
  matches r f =
      if not (str_eq f.side r.side)
      then false
      else if not (admits r.host (λ h. str_eq (lower (or_empty f.host)) h))
      then false
      else if not (admits r.method (λ m. str_eq (upper (or_empty f.method)) m))
      then false
      else if not (admits (pattern_of r.path_pattern) (λ p. search p (or_empty f.path)))
      then false
      else if is_some r.status_min || is_some r.status_max
      then status_in r.status_min r.status_max f.status
      else true

-- `is_expired`, at a time that is given
unfoldable pub is_expired : ℕ → Rule → Bool
is_expired now r = elim r.expires_ts [ none ↦ false | some t ↦ leb_ℤ t (pos now) ]

-- `out.update(payload)`
update : Dict Json → Fields → Dict Json
update d Fields.end = d
update d (field k v fs) = update (Dict.put d k v) fs

unfoldable pub to_addon_payload : Rule → Dict Json
unfolding update
to_addon_payload r =
    let out = ("id", str r.id) ∷ ("kind", str r.kind) ∷ [] in
    update (if r.dry_run then Dict.put out "dry_run" (bool true) else out) r.payload
