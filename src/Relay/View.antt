-- ===== src/Relay/View.antt =====
-- What a client can read from the store at a time: the values whose deadline has not come.
use Prim.Native.String.{len}
use mathlib.Core.Path.{subst}
use reqable_mcp.Prelude.{
  ℕ, ◌+◌, ◌*◌, ◌≤◌, ◌<◌, String, ◌≡◌, ◌↔◌, ◌≢◌, ◌⊎◌, inr, refl, ap, true, false, not, Option, none,
  some, length, ltb, str_eq, eq_iff, arith, if◌then◌else◌,
}
use reqable_mcp.Prelude.Int.{ℤ, pos, pos_part, ◌≤ℤ◌}
use reqable_mcp.Prelude.Result.{ok}
use reqable_mcp.Prelude.Dict
use reqable_mcp.Prelude.Dict.{Dict, IsUnique}
use reqable_mcp.Prelude.Dict.Laws.{
  get-put, get-remove, get-keep, remove_all-keep, length-keep, length-keys, keep-keep,
}
use reqable_mcp.Json.{Json, str}
use reqable_mcp.Relay.{
  RelayEntry, RelayStore, second, max_relay_ttl_seconds, max_relay_value_bytes, max_relay_entries,
  is_expired, is_active, set, get, remove, reap_expired, stats,
}

live : ℕ → Option RelayEntry → Option String
live now none = none
live now (some e) = if is_active now e then some e.value else none

-- The value that a name has at a time.
unfoldable pub view : RelayStore → ℕ → String → Option String
unfolding live
view s now name = live now (Dict.get s.values name)

-- A name that `set` takes for a new entry: it is known already, or there is room for it.
abbrev pub HasRoom : RelayStore → String → Type 0
HasRoom s name = (Dict.contains s.values name ≡ true) ⊎ (length s.values < max_relay_entries)

-- The arguments that `set` accepts.
pub record Accepts (s : RelayStore) (name : String) (value : String) (ttl : ℤ) : Type 0 where
  pub named : name ≢ ""
  pub fits : len value ≤ max_relay_value_bytes
  pub positive : pos 1 ≤ℤ ttl
  pub bounded : ttl ≤ℤ pos max_relay_ttl_seconds
  pub room : HasRoom s name

module _ (s : RelayStore) (name : String) (ttl : ℤ) (now : ℕ) where
  set-of_Accepts : (v : String) → Accepts s name v ttl → (set name (str v) ttl now s).0 ≡ ok tt
  unfolding set
  set-of_Accepts v a = ground (arith, eq_iff name "", a.room)

  Accepts-of_set : (v : String) → (set name (str v) ttl now s).0 ≡ ok tt → Accepts s name v ttl
  unfolding set
  Accepts-of_set v h = record {
    named = ground (arith, eq_iff name "");
    fits = ground arith;
    positive = ground arith;
    bounded = ground arith;
    room = ground arith;
  }

  set_or_unchanged :
      (value : Json) → ((set name value ttl now s).0 ≡ ok tt) ⊎ ((set name value ttl now s).1 ≡ s)
  unfolding set
  set_or_unchanged (str v) = ground arith
  set_or_unchanged value = inr (ground arith)

  -- A value is stored exactly when it is a text, the name is not empty, the text has at most 8192
  -- bytes, the lifetime is between 1 and 3600 seconds, and the name is known or fewer than 256 names
  -- are held; otherwise the store stays as it was.
  pub set-ok_iff :
      (value : Json)
      → ((set name value ttl now s).0 ≡ ok tt
          ↔ ((v : String) × (value ≡ str v) × Accepts s name v ttl))
        × (((set name value ttl now s).0 ≡ ok tt) ⊎ ((set name value ttl now s).1 ≡ s))
  unfolding set
  set-ok_iff (str v) = (
    (
      λ h. (v, refl, Accepts-of_set v h),
      λ (w, e, a). set-of_Accepts v (subst (λ x. Accepts s name x ttl) (cc) a),
    ),
    set_or_unchanged (str v),
  )
  set-ok_iff value =
      ((λ h. absurd (ground arith), λ (w, e, a). absurd (cc)), set_or_unchanged value)

  -- After a value is stored, its name reads as that value until the lifetime has passed and as
  -- nothing from then on, and every other name reads as before.
  pub view-set :
      (v : String) (t : ℕ) (j : String)
      → (set name (str v) ttl now s).0 ≡ ok tt
      → view (set name (str v) ttl now s).1 t j ≡ (
          if str_eq name j
          then (if ltb t (now + pos_part ttl * second) then some v else none)
          else view s t j)
  unfolding set view
  view-set v t j h = ground (
    arith,
    get-put s.values name (record { value = v; expires_ts = now + pos_part ttl * second }) j,
  )

pub view-set_ne :
    (s : RelayStore) (name : String) (value : Json) (ttl : ℤ) (now t : ℕ) (j : String)
    → str_eq name j ≡ false
    → view (set name value ttl now s).1 t j ≡ view s t j
unfolding set view
view-set_ne s name (str v) ttl now t j h = ground (
  arith,
  get-put s.values name (record { value = v; expires_ts = now + pos_part ttl * second }) j,
)
view-set_ne s name _ ttl now t j h = ground arith

module _ (s : RelayStore) (now t : ℕ) (later : now ≤ t) where
  -- A read returns what the name stands for, and changes no read at that time or later.
  pub get-view :
      (name j : String)
      → ((get name now s).0 ≡ view s now name) × (view (get name now s).1 t j ≡ view s t j)
  unfolding get view
  get-view name j = ground (arith, get-remove s.values name j, eq_iff name j)

  pub view-reap_expired :
      (j : String) → IsUnique s.values → view (reap_expired now s).1 t j ≡ view s t j
  unfolding reap_expired view
  view-reap_expired j u =
      rw (remove_all-keep (is_expired now) s.values u)
        (rw (get-keep (λ e. not (is_expired now e)) s.values j u) (ground arith))

-- Deleting expired entries changes no read at that time or later, reports how many entries it took
-- out, and leaves only entries that are active.
pub reap_expired-view :
    (s : RelayStore) (now t : ℕ)
    → now ≤ t
    → IsUnique s.values
    → ((j : String) → view (reap_expired now s).1 t j ≡ view s t j)
      × ((reap_expired now s).0 + length (reap_expired now s).1.values ≡ length s.values)
      × ((stats now (reap_expired now s).1).1 ≡ (stats now (reap_expired now s).1).0)
unfolding reap_expired stats
reap_expired-view s now t later u = (
  λ j. view-reap_expired s now t later j u,
  rw (remove_all-keep (is_expired now) s.values u) (
      omega (
        arith,
        length-keep (is_expired now) s.values,
        length-keys (Dict.keep (is_expired now) s.values),
      )),
  rw (remove_all-keep (is_expired now) s.values u) (
      ap length
        (keep-keep (is_active now) (λ e. not (is_expired now e)) s.values (λ e h. ground arith))),
)

pub view-remove :
    (s : RelayStore) (name : String) (t : ℕ) (j : String)
    → view (remove name s).1 t j ≡ (if str_eq name j then none else view s t j)
unfolding remove view
view-remove s name t j = ground (arith, get-remove s.values name j)
