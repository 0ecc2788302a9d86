-- ===== src/DryRun/Bounds.antt =====
-- The log stays within its limits.
use reqable_mcp.Prelude.{
  ◌*◌, ◌≤◌, String, ◌≡◌, refl, Option, none, some, List, [], ◌∷◌, ◌++◌, length, arith,
  length-append, length-drop,
}
use reqable_mcp.Prelude.Dict
use reqable_mcp.Prelude.Dict.{Dict, IsUnique}
use reqable_mcp.Prelude.Dict.Laws.{length-put, length-remove-le, IsUnique-put, IsUnique-remove}
use reqable_mcp.DryRun
use reqable_mcp.DryRun.{
  DryRunEntry, Bucket, DryRunLog, per_rule_limit, total_rules_limit, append, record_in, total,
  stats,
}

-- No bucket is above its limit.
abbrev pub AreShort : Dict Bucket → Type 0
AreShort [] = Unit
AreShort ((id, b) ∷ d) = (length b ≤ per_rule_limit) × AreShort d

pub record IsBounded (l : DryRunLog) : Type 0 where
  pub unique : IsUnique l.buckets
  pub few : length l.buckets ≤ total_rules_limit
  pub short : AreShort l.buckets

length-append_entry :
    (b : Bucket) (entry : DryRunEntry)
    → length b ≤ per_rule_limit
    → length (append b entry) ≤ per_rule_limit
unfolding append
length-append_entry b entry h =
    ground (arith, length-drop 1 (b ++ entry ∷ []), length-append b (entry ∷ []))

AreShort-put :
    (d : Dict Bucket) (id : String) (b : Bucket)
    → AreShort d
    → length b ≤ per_rule_limit
    → AreShort (Dict.put d id b)
unfolding Dict.put
AreShort-put [] id b s h = (h, tt)
AreShort-put ((j, c) ∷ d) id b (k, s) h = ground (arith, AreShort-put d id b s h)

AreShort-remove : (d : Dict Bucket) (id : String) → AreShort d → AreShort (Dict.remove d id)
unfolding Dict.remove
AreShort-remove [] id s = tt
AreShort-remove ((j, c) ∷ d) id (k, s) = ground (arith, AreShort-remove d id s)

length-get-le :
    (d : Dict Bucket) (id : String) (b : Bucket)
    → AreShort d
    → Dict.get d id ≡ some b
    → length b ≤ per_rule_limit
unfolding Dict.get
length-get-le [] id b s h = cc
length-get-le ((j, c) ∷ d) id b (k, s) h = ground (arith, length-get-le d id b s)

total-le : (d : Dict Bucket) → AreShort d → total d ≤ per_rule_limit * length d
total-le [] s = omega arith
total-le ((j, b) ∷ d) (k, s) = omega (arith, total-le d s)

record_in-IsBounded :
    (id : String) (entry : DryRunEntry) (o : Option Bucket) (l : DryRunLog)
    → Dict.get l.buckets id ≡ o
    → IsBounded l
    → IsBounded (record_in id entry o l)
unfolding record_in
record_in-IsBounded id entry none l g b =
    let fits = length-append_entry [] entry (omega arith) in
    ground (
      arith,
      IsUnique-put l.buckets id (append [] entry) b.unique,
      length-put l.buckets id (append [] entry),
      AreShort-put l.buckets id (append [] entry) b.short fits,
    )
record_in-IsBounded id entry (some c) l g b =
    let fits = length-append_entry c entry (length-get-le l.buckets id c b.short g) in
    ground (
      arith,
      IsUnique-put l.buckets id (append c entry) b.unique,
      length-put l.buckets id (append c entry),
      AreShort-put l.buckets id (append c entry) b.short fits,
    )

add-IsBounded :
    (id : String) (entry : DryRunEntry) (l : DryRunLog)
    → IsBounded l
    → IsBounded (DryRun.add id entry l)
unfolding DryRun.add
add-IsBounded id entry l b =
    ground (arith, record_in-IsBounded id entry (Dict.get l.buckets id) l refl b)

clear-IsBounded : (o : Option String) (l : DryRunLog) → IsBounded l → IsBounded (DryRun.clear o l).1
unfolding DryRun.clear
clear-IsBounded none l b = record { unique = tt; few = omega arith; short = tt }
clear-IsBounded (some id) l b = record {
  unique = IsUnique-remove l.buckets id b.unique;
  few = omega (arith, length-remove-le l.buckets id, b.few);
  short = AreShort-remove l.buckets id b.short;
}

pub data Call : Type 0 where
  add : String → DryRunEntry → Call
  clear : Option String → Call

unfoldable pub run : List Call → DryRunLog → DryRunLog
run [] l = l
run (Call.add id entry ∷ calls) l = run calls (DryRun.add id entry l)
run (Call.clear id ∷ calls) l = run calls (DryRun.clear id l).1

-- Whatever is recorded and cleared, a log within its limits stays so: at most 64 rules, at most 256
-- entries for each, and so at most 16384 entries.
pub log_bounds :
    (calls : List Call) (l : DryRunLog)
    → IsBounded l
    → IsBounded (run calls l) × ((stats (run calls l)).1 ≤ 16384)
unfolding run stats
log_bounds [] l b = (b, omega (arith, total-le l.buckets b.short, b.few))
log_bounds (Call.add id entry ∷ calls) l b =
    log_bounds calls (DryRun.add id entry l) (add-IsBounded id entry l b)
log_bounds (Call.clear id ∷ calls) l b =
    log_bounds calls (DryRun.clear id l).1 (clear-IsBounded id l b)
