-- ===== src/DryRun/History.antt =====
-- What the log returns for a rule, from all that was recorded for it.
use native.Mathlib.Decide.{dec_lt}
use mathlib.Core.Path.{subst}
use reqable_mcp.Prelude.{
  suc, ◌-◌, ◌≤◌, ◌<◌, String, ◌≡◌, ◌≢◌, sym, ap, ◌∙◌, true, false, Option, none, some, List, [],
  ◌∷◌, ◌++◌, reverse, append_assoc, append-nil, length, take, drop, last, leb, str_eq, eq_iff,
  arith, if◌then◌else◌, length-append, length-drop, drop-append, drop-one, take_all,
  take-reverse-drop, length-reverse, Bool-cases, inl, inr,
}
use reqable_mcp.Prelude.Int.{ℤ, pos, pos_part, ltb_ℤ}
use reqable_mcp.Prelude.Dict
use reqable_mcp.Prelude.Dict.Laws.{get-put}
use reqable_mcp.DryRun.{
  DryRunEntry, Bucket, DryRunLog, per_rule_limit, append, record_in, add, fetched, fetch,
}

-- Recording a sequence of matches.
unfoldable pub add_all : List (String × DryRunEntry) → DryRunLog → DryRunLog
add_all [] l = l
add_all ((id, entry) ∷ rest) l = add_all rest (add id entry l)

-- The entries of the sequence that are for a rule.
unfoldable pub entries_for : String → List (String × DryRunEntry) → Bucket
entries_for id [] = []
entries_for id ((j, entry) ∷ rest) =
    let more = entries_for id rest in if str_eq j id then entry ∷ more else more

module _ (h : Bucket) (entry : DryRunEntry) where
  append-last_full :
      per_rule_limit ≤ length h
      → append (last per_rule_limit h) entry ≡ last per_rule_limit (h ++ entry ∷ [])
  unfolding append
  append-last_full full =
      let k = length h - per_rule_limit in
      let test : leb per_rule_limit (length (drop k h)) ≡ true = ground (arith, length-drop k h) in
      let index : suc k ≡ length (h ++ entry ∷ []) - per_rule_limit =
        omega (arith, length-append h (entry ∷ [])) in
      rw test (
        ap (drop 1) (sym (drop-append k h (entry ∷ []) (omega arith)))
        ∙ drop-one k (h ++ entry ∷ [])
        ∙ ap (λ n. drop n (h ++ entry ∷ [])) index)

  append-last_room :
      length h < per_rule_limit
      → append (last per_rule_limit h) entry ≡ last per_rule_limit (h ++ entry ∷ [])
  unfolding append
  append-last_room room =
      let all : length h - per_rule_limit ≡ 0 = omega arith in
      let still : length (h ++ entry ∷ []) - per_rule_limit ≡ 0 =
        omega (arith, length-append h (entry ∷ [])) in
      let test : leb per_rule_limit (length h) ≡ false = ground arith in rw (all, still, test)

  append-last : append (last per_rule_limit h) entry ≡ last per_rule_limit (h ++ entry ∷ [])
  append-last = elim (dec_lt (length h) per_rule_limit) [
    | yes room ↦ append-last_room room
    | no full ↦ append-last_full (omega arith)
  ]

-- the log holds the last entries of a history
Holds : DryRunLog → String → Bucket → Type 0
Holds l id h = Dict.get l.buckets id ≡ some (last per_rule_limit h)

add-Holds_self :
    (l : DryRunLog) (id : String) (entry : DryRunEntry) (h : Bucket)
    → id ≢ ""
    → Holds l id h
    → Holds (add id entry l) id (h ++ entry ∷ [])
unfolding Holds add
add-Holds_self l id entry h ne held = rw held (
    ground (
      arith,
      eq_iff id "",
      eq_iff id id,
      append-last h entry,
      get-put l.buckets id (append (last per_rule_limit h) entry) id,
    ))

record_in-other :
    (l : DryRunLog) (id j : String) (entry : DryRunEntry) (o : Option Bucket)
    → str_eq j id ≡ false
    → Dict.get (record_in j entry o l).buckets id ≡ Dict.get l.buckets id
unfolding record_in
record_in-other l id j entry none ne = ground (arith, get-put l.buckets j (append [] entry) id)
record_in-other l id j entry (some b) ne = ground (arith, get-put l.buckets j (append b entry) id)

add-Holds_ne :
    (l : DryRunLog) (id j : String) (entry : DryRunEntry) (h : Bucket)
    → str_eq j id ≡ false
    → Holds l id h
    → Holds (add j entry l) id h
unfolding Holds add
add-Holds_ne l id j entry h ne held =
    ground (arith, record_in-other l id j entry (Dict.get l.buckets j) ne)

add_all-Holds :
    (rest : List (String × DryRunEntry)) (l : DryRunLog) (id : String) (h : Bucket)
    → id ≢ ""
    → Holds l id h
    → Holds (add_all rest l) id (h ++ entries_for id rest)
unfolding add_all entries_for
add_all-Holds [] l id h ne held = rw append-nil held
add_all-Holds ((j, entry) ∷ rest) l id h ne held = elim (Bool-cases (str_eq j id)) [
  | inl same ↦
      let recorded =
        subst (λ k. Holds (add k entry l) id (h ++ entry ∷ [])) (sym ((eq_iff j id).0 same))
          (add-Holds_self l id entry h ne held) in
      rw same (
        subst (Holds (add_all rest (add j entry l)) id) (append_assoc h (entry ∷ []) _)
          (add_all-Holds rest (add j entry l) id (h ++ entry ∷ []) ne recorded))
  | inr other ↦
      rw other (add_all-Holds rest (add j entry l) id h ne (add-Holds_ne l id j entry h other held))
]

-- The newest entries of a history, the newest first: at most 256, and at most `limit` if it is
-- positive.
abbrev pub newest_of : ℤ → Bucket → Bucket
newest_of limit h =
    let kept = take per_rule_limit (reverse h) in
    if ltb_ℤ (pos 0) limit then take (pos_part limit) kept else kept

reverse-last : (h : Bucket) → reverse (last per_rule_limit h) ≡ take per_rule_limit (reverse h)
reverse-last h = elim (dec_lt (length h) per_rule_limit) [
  | yes few ↦
      let all : length h - per_rule_limit ≡ 0 = omega arith in
      rw all (sym (take_all per_rule_limit (reverse h) (omega (arith, length-reverse h))))
  | no many ↦ sym (take-reverse-drop per_rule_limit (length h - per_rule_limit) h (omega arith))
]

-- Once something was recorded for a rule, `fetch` returns the newest of all that was recorded for it
-- since, whatever was recorded for other rules in between.
pub fetch-add_all :
    (rest : List (String × DryRunEntry)) (l : DryRunLog) (id : String) (h : Bucket) (limit : ℤ)
    → id ≢ ""
    → Dict.get l.buckets id ≡ some (last per_rule_limit h)
    → fetch id limit (add_all rest l) ≡ newest_of limit (h ++ entries_for id rest)
unfolding fetch Holds
fetch-add_all rest l id h limit ne held =
    ap (fetched limit) (add_all-Holds rest l id h ne held)
    ∙ ground (arith, reverse-last (h ++ entries_for id rest))
