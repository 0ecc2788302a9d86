-- ===== src/Install/Latest.antt =====
-- Which backup is the latest.
use reqable_mcp.Prelude.{
  ℕ, ◌≤◌, String, ◌≡◌, refl, sym, ap, ◌∙◌, false, Option, none, some, List, [], ◌∷◌, ◌++◌, sort_by,
  insert_by, arith, leb, Bool-cases, inl, inr, All,
}
use reqable_mcp.Prelude.Dict
use reqable_mcp.Prelude.Dict.{Dict}
use reqable_mcp.Prelude.Dict.Laws.{put_fresh, values-append}
use reqable_mcp.Install.{File}
use reqable_mcp.Install.Undoing.{latest, find_latest_backup}

latest-cons : (x : File) (l : List File) (f : File) → latest l ≡ some f → latest (x ∷ l) ≡ some f
latest-cons x l f h = rw h refl

not_behind : {P : Type 0} (a b c : ℕ) → leb a b ≡ false → b ≡ c → a ≤ c → P
not_behind a b c h e le = absurd (ground arith)

latest-insert_by :
    (x f : File) (l : List File)
    → x.mtime ≤ f.mtime
    → latest l ≡ some f
    → latest (insert_by (λ g. g.mtime) x l) ≡ some f
unfolding insert_by
latest-insert_by x f [] le h = absurd (cc)
latest-insert_by x f (y ∷ l) le h = elim (Bool-cases (leb x.mtime y.mtime)) [
  | inl before ↦ rw before (latest-cons x (y ∷ l) f h)
  | inr after ↦ rw after (behind (latest l) refl (latest-insert_by x f l le) after)
]
  where
    behind :
        (o : Option File)
        → latest l ≡ o
        → (latest l ≡ some f → latest (insert_by (λ g. g.mtime) x l) ≡ some f)
        → leb x.mtime y.mtime ≡ false
        → latest (y ∷ insert_by (λ g. g.mtime) x l) ≡ some f
    behind none e deeper after =
        let found : Path (Option File) (some y) (some f) =
          sym (ap (λ o. elim o as (λ _. Option File) [ none ↦ some y | some g ↦ some g ]) e) ∙ h in
        let last_one : y ≡ f = cc in
        let same_time : y.mtime ≡ f.mtime = ap (λ g. g.mtime) last_one in
        not_behind x.mtime y.mtime f.mtime after same_time le
    behind (some g) e deeper after =
        let same : latest l ≡ some f = e ∙ (sym (latest-cons y l g e) ∙ h) in
        latest-cons y (insert_by (λ k. k.mtime) x l) f (deeper same)

-- the newest of the backups is the one behind the others
latest-sort_by :
    (fs : List File) (f : File)
    → All (λ g. g.mtime ≤ f.mtime) fs
    → latest (sort_by (λ g. g.mtime) (fs ++ f ∷ [])) ≡ some f
unfolding sort_by insert_by
latest-sort_by [] f all = refl
latest-sort_by (g ∷ fs) f (le, all) =
    latest-insert_by g f (sort_by (λ h. h.mtime) (fs ++ f ∷ [])) le (latest-sort_by fs f all)

-- A backup of a new name that is not older than the others is the latest.
pub find_latest_backup-put :
    (backups : Dict File) (name : String) (f : File)
    → Dict.contains backups name ≡ false
    → All (λ g. g.mtime ≤ f.mtime) (Dict.values backups)
    → find_latest_backup (Dict.put backups name f) ≡ some f
unfolding find_latest_backup
find_latest_backup-put backups name f fresh all =
    ap (λ d. latest (sort_by (λ g. g.mtime) (Dict.values d))) (put_fresh backups name f fresh)
    ∙ ap (λ fs. latest (sort_by (λ g. g.mtime) fs)) (values-append backups ((name, f) ∷ []))
    ∙ latest-sort_by (Dict.values backups) f all
