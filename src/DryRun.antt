-- ===== src/DryRun.antt =====
-- dry_run.py: `DryRunLog`, the matches of dry-run rules, at most 256 for each of at most 64 rules. A
-- `deque` is the list of its entries, the oldest first.
pub mod History
pub mod Bounds
mod Tests
use reqable_mcp.Prelude.{
  ℕ, ◌+◌, String, Bool, Option, none, some, List, [], ◌∷◌, ◌++◌, reverse, length, take, drop, leb,
  str_eq, if◌then◌else◌,
}
use reqable_mcp.Prelude.Int.{ℤ, pos, pos_part, ltb_ℤ}
use reqable_mcp.Prelude.Dict
use reqable_mcp.Prelude.Dict.{Dict}

abbrev pub per_rule_limit : ℕ
per_rule_limit = 256

abbrev pub total_rules_limit : ℕ
total_rules_limit = 64

pub record DryRunEntry : Type 0 where
  pub ts : ℕ
  pub uid : String
  pub host : String
  pub path : String
  pub method : String
  pub side : String

abbrev pub Bucket : Type 0
Bucket = List DryRunEntry

pub record DryRunLog : Type 0 where
  pub buckets : Dict Bucket

abbrev pub empty : DryRunLog
empty = record { buckets = [] }

-- `append` to a `deque(maxlen=PER_RULE_LIMIT)`: a full one loses its oldest entry
unfoldable pub append : Bucket → DryRunEntry → Bucket
append b entry = if leb per_rule_limit (length b) then drop 1 (b ++ entry ∷ []) else b ++ entry ∷ []

unfoldable pub record_in : String → DryRunEntry → Option Bucket → DryRunLog → DryRunLog
unfolding append
record_in id entry (some b) l = record l { buckets = Dict.put l.buckets id (append b entry) }
record_in id entry none l =
    if leb total_rules_limit (length l.buckets)
    then l
    else record l { buckets = Dict.put l.buckets id (append [] entry) }

-- `record`, with the entry that it makes
unfoldable pub add : String → DryRunEntry → DryRunLog → DryRunLog
unfolding record_in
add id entry l = if str_eq id "" then l else record_in id entry (Dict.get l.buckets id) l

abbrev pub newest : ℤ → Bucket → Bucket
newest limit b = if ltb_ℤ (pos 0) limit then take (pos_part limit) (reverse b) else reverse b

abbrev pub fetched : ℤ → Option Bucket → Bucket
fetched limit none = []
fetched limit (some b) = newest limit b

unfoldable pub fetch : String → ℤ → DryRunLog → Bucket
fetch id limit l = fetched limit (Dict.get l.buckets id)

abbrev counts : Dict Bucket → Dict ℕ
counts [] = []
counts ((id, b) ∷ d) = (id, length b) ∷ counts d

unfoldable pub fetch_all : DryRunLog → Dict ℕ
fetch_all l = counts l.buckets

abbrev pub total : Dict Bucket → ℕ
total [] = 0
total ((id, b) ∷ d) = length b + total d

unfoldable pub clear : Option String → DryRunLog → ℕ × DryRunLog
clear (some id) l = (
  elim (Dict.get l.buckets id) [ none ↦ 0 | some b ↦ length b ],
  record l { buckets = Dict.remove l.buckets id },
)
clear none l = (total l.buckets, record l { buckets = [] })

-- the number of rules and of entries
unfoldable pub stats : DryRunLog → ℕ × ℕ
stats l = (length l.buckets, total l.buckets)
