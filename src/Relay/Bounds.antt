-- ===== src/Relay/Bounds.antt =====
-- What holds of the store after any sequence of calls.
use reqable_mcp.Prelude.{
  ℕ, ◌+◌, ◌*◌, ◌≤◌, String, ◌≡◌, refl, ◌∙◌, true, none, some, List, [], ◌∷◌, length, ltb, eq_iff,
  arith, if◌then◌else◌,
}
use reqable_mcp.Prelude.Int.{ℤ, pos_part}
use reqable_mcp.Prelude.Result.{ok}
use reqable_mcp.Prelude.Dict.{IsUnique}
use reqable_mcp.Prelude.Dict.Laws.{
  length-put, length-remove-le, remove_all-keep, length-keep, IsUnique-put, IsUnique-remove,
  IsUnique-keep,
}
use reqable_mcp.Json.{Json, str}
use reqable_mcp.Relay
use reqable_mcp.Relay.{RelayStore, RelayEntry, empty, second, max_relay_entries, is_expired}
use reqable_mcp.Relay.Runs.{Call, set, get, remove, clear, reap_expired, exec, run, spares, Spares}
use reqable_mcp.Relay.View.{view, get-view, view-set, view-set_ne, view-remove, view-reap_expired}

pub record IsBounded (s : RelayStore) : Type 0 where
  pub unique : IsUnique s.values
  pub few : length s.values ≤ max_relay_entries

set-IsBounded :
    (name : String) (v : Json) (ttl : ℤ) (now : ℕ) (s : RelayStore)
    → IsBounded s
    → IsBounded (Relay.set name v ttl now s).1
unfolding Relay.set
set-IsBounded name (str v) ttl now s b =
    let entry : RelayEntry = record { value = v; expires_ts = now + pos_part ttl * second } in
    ground (arith, IsUnique-put s.values name entry b.unique, length-put s.values name entry)
set-IsBounded name _ ttl now s b = ground arith

exec-IsBounded : (now : ℕ) (c : Call) (s : RelayStore) → IsBounded s → IsBounded (exec now c s)
unfolding exec Relay.get Relay.remove Relay.clear Relay.reap_expired
exec-IsBounded now (set name v ttl) s b = set-IsBounded name v ttl now s b
exec-IsBounded now (get name) s b =
    ground (arith, IsUnique-remove s.values name b.unique, length-remove-le s.values name)
exec-IsBounded now (remove name) s b =
    ground (arith, IsUnique-remove s.values name b.unique, length-remove-le s.values name)
exec-IsBounded now clear s b = record { unique = tt; few = omega arith }
exec-IsBounded now reap_expired s b =
    rw (remove_all-keep (is_expired now) s.values b.unique) (record {
      unique = IsUnique-keep _ s.values b.unique;
      few = omega (arith, length-keep (is_expired now) s.values);
    })

-- Whatever the calls, a store that has each name once and at most 256 names stays so.
pub run-IsBounded :
    (calls : List (ℕ × Call)) (s : RelayStore) → IsBounded s → IsBounded (run calls s)
unfolding run
run-IsBounded [] s b = b
run-IsBounded ((now, c) ∷ calls) s b = run-IsBounded calls (exec now c s) (exec-IsBounded now c s b)

view-exec :
    (name : String) (t now : ℕ) (c : Call) (s : RelayStore)
    → IsBounded s
    → now ≤ t
    → spares name c ≡ true
    → view (exec now c s) t name ≡ view s t name
unfolding exec
view-exec name t now (set j v ttl) s b le h = view-set_ne s j v ttl now t name (ground arith)
view-exec name t now (get j) s b le h = (get-view s now t le j name).1
view-exec name t now (remove j) s b le h = ground (arith, view-remove s j t name)
view-exec name t now clear s b le h = cc
view-exec name t now reap_expired s b le h = view-reap_expired s now t le name b.unique

view-run :
    (name : String) (t : ℕ) (calls : List (ℕ × Call)) (s : RelayStore)
    → IsBounded s
    → Spares name t calls
    → view (run calls s) t name ≡ view s t name
unfolding run
view-run name t [] s b h = refl
view-run name t ((now, c) ∷ calls) s b ((le, h), hs) =
    view-run name t calls (exec now c s) (exec-IsBounded now c s b) hs
    ∙ view-exec name t now c s b le h

-- A token that the store took is what a later read returns, until its lifetime has passed and never
-- after, whatever calls that do not write or delete its name were made in between.
pub token_lifetime :
    (s : RelayStore) (name v : String) (ttl : ℤ) (now t : ℕ) (calls : List (ℕ × Call))
    → IsBounded s
    → (Relay.set name (str v) ttl now s).0 ≡ ok tt
    → Spares name t calls
    → (Relay.get name t (run calls (Relay.set name (str v) ttl now s).1)).0
      ≡ (if ltb t (now + pos_part ttl * second) then some v else none)
token_lifetime s name v ttl now t calls b accepted spared =
    let after = (Relay.set name (str v) ttl now s).1 in
    (get-view (run calls after) t t (omega arith) name name).0
    ∙ view-run name t calls after (set-IsBounded name (str v) ttl now s b) spared
    ∙ ground (arith, view-set s name ttl now v t name accepted, eq_iff name name)
