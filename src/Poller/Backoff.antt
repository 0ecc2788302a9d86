-- ===== src/Poller/Backoff.antt =====
-- How long the loop waits between two rounds.
use reqable_mcp.Prelude.{
  ℕ, zero, suc, ◌≤◌, ◌≡◌, refl, sym, ap, ◌∙◌, List, [], ◌∷◌, arith, Bool-cases, inl, inr, length,
  ◌==◌, if◌then◌else◌, min, get_elem?,
}
use reqable_mcp.Prelude.Result.{Result, ok, err, Error}
use reqable_mcp.WaitQueue.{Capture}
use reqable_mcp.Poller.Decode.{Setting}
use reqable_mcp.Poller.Scan.{Scanned, captures_of, scan_once}
use reqable_mcp.Poller.Loop.{
  Poller, Reading, failed, moved, after_scan, attempt, poll, idle_backoff_ms, or_2000, backoff_ms,
}
use reqable_mcp.Poller.Exact.{scan_once-IsStored}
use reqable_mcp.Poller.Raising.{scan_once-raised}

length-captures_of : (recs : List (ℕ × Capture)) → length (captures_of recs) ≡ length recs
length-captures_of [] = refl
length-captures_of ((ob_id, rec) ∷ recs) = ap suc (length-captures_of recs)

saturated : (n : ℕ) → backoff_ms (suc (suc (suc (suc (suc n))))) ≡ 2000
unfolding backoff_ms
saturated n =
    let top : min (suc (suc (suc (suc (suc n))))) 5 ≡ 5 = omega arith in
    ap (λ i. or_2000 (get_elem? idle_backoff_ms i)) top

-- The wait between two rounds is at least 250 ms and at most 2 s, and it does not fall while the poller is
-- idle.
pub backoff_ms-bounds :
    (n : ℕ) → (250 ≤ backoff_ms n) × (backoff_ms n ≤ 2000) × (backoff_ms n ≤ backoff_ms (suc n))
unfolding backoff_ms
backoff_ms-bounds zero = (omega arith, omega arith, omega arith)
backoff_ms-bounds (suc zero) = (omega arith, omega arith, omega arith)
backoff_ms-bounds (suc (suc zero)) = (omega arith, omega arith, omega arith)
backoff_ms-bounds (suc (suc (suc zero))) = (omega arith, omega arith, omega arith)
backoff_ms-bounds (suc (suc (suc (suc zero)))) = (omega arith, omega arith, omega arith)
backoff_ms-bounds (suc (suc (suc (suc (suc n))))) = (
  omega (arith, saturated n),
  omega (arith, saturated n),
  omega (arith, saturated n, saturated (suc n)),
)

failed-idle : (t : Result ℕ) (q : Poller) → (failed t q).idle_streak ≡ suc q.idle_streak
failed-idle (err y) q = refl
failed-idle (ok m) q = refl

-- The idle streak after a round that began with one, by what was handed on.
abbrev pub streak : ℕ → List Capture → ℕ
streak idle [] = suc idle
streak idle (c ∷ cs) = 0

after_scan-idle :
    (cur : ℕ) (r : Reading) (s : Scanned) (p : Poller)
    → ((n : ℕ) → s.0 ≡ ok n → n ≡ length s.2)
    → ((x : Error) → s.0 ≡ err x → s.2 ≡ [])
    → (after_scan cur r s p).0.idle_streak ≡ streak p.idle_streak (after_scan cur r s p).1
after_scan-idle cur r (ok n, src, []) p f g = ground (arith, f n refl)
after_scan-idle cur r (ok n, src, c ∷ cs) p f g = ground (arith, f n refl)
after_scan-idle cur r (err x, src, recs) p f g =
    rw (g x refl) (failed-idle r.txnid_again (record p { source = src }))

module _ (e : Setting) where
  attempt-idle :
      (r : Reading) (txnid : Result ℕ) (p : Poller)
      → (attempt e r txnid p).0.idle_streak ≡ streak p.idle_streak (attempt e r txnid p).1
  unfolding attempt
  attempt-idle r (err x) p = failed-idle r.txnid_again p
  attempt-idle r (ok cur) p =
      let s = scan_once e r.entries r.now p.source in
      elim (Bool-cases (moved cur p.last_txnid)) [
        | inl new ↦ rw new (
            after_scan-idle cur r s p
              (λ n h.
                let (recs, _, stored, _) =
                  scan_once-IsStored e r.entries r.now p.source s.1 n s.2 (λ i. (h i, s.1, s.2)) in
                stored.count ∙ sym (length-captures_of _ ∙ refl) ∙ ap length (sym stored.callback))
              (λ x h.
                (scan_once-raised e r.entries r.now p.source s.1 x s.2 (λ i. (h i, s.1, s.2))).3))
        | inr still ↦ rw still refl
      ]

  -- A round that hands captures on is followed by the shortest wait, and any other round, one that raises
  -- included, makes the next wait the one of a longer idle streak.
  pub poll-backoff_ms :
      (r : Reading) (p : Poller)
      → backoff_ms (poll e r p).0.idle_streak
        ≡ (if length (poll e r p).1 == 0 then backoff_ms (suc p.idle_streak) else 250)
  unfolding poll backoff_ms
  poll-backoff_ms r p =
      ap backoff_ms (attempt-idle r r.txnid p) ∙ by_handed (attempt e r r.txnid p).1
    where
      by_handed :
          (cs : List Capture)
          → backoff_ms (streak p.idle_streak cs)
            ≡ (if length cs == 0 then backoff_ms (suc p.idle_streak) else 250)
      by_handed [] = refl
      by_handed (c ∷ cs) = ground arith
