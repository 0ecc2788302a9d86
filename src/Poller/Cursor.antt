-- ===== src/Poller/Cursor.antt =====
-- The cursor that a scan leaves.
use reqable_mcp.Prelude.{
  ℕ, ◌≤◌, ◌≡◌, ◌⊎◌, inl, inr, refl, sym, List, [], ◌∷◌, All, arith, ltb, Bool-cases,
}
use reqable_mcp.WaitQueue.{Capture}
use reqable_mcp.Poller.Scan.{max_ob}

-- one of the records has the id
abbrev pub Reaches : ℕ → List (ℕ × Capture) → Type 0
Reaches m [] = ⊥
Reaches m ((ob_id, rec) ∷ recs) = (ob_id ≡ m) ⊎ Reaches m recs

-- An id that is no less than the old cursor and the ids of the records, and is one of them.
pub record IsGreatest (base : ℕ) (recs : List (ℕ × Capture)) (m : ℕ) : Type 0 where
  pub forward : base ≤ m
  pub bounds : All (λ r. r.0 ≤ m) recs
  pub reached : (m ≡ base) ⊎ Reaches m recs

pub max_ob-IsGreatest :
    (base : ℕ) (recs : List (ℕ × Capture)) → IsGreatest base recs (max_ob base recs)
unfolding max_ob
max_ob-IsGreatest base [] = record { forward = omega arith; bounds = tt; reached = inl refl }
max_ob-IsGreatest base ((ob_id, rec) ∷ recs) = elim (Bool-cases (ltb base ob_id)) [
  | inl more ↦
      let rest = max_ob-IsGreatest ob_id recs in
      rw more (record {
        forward = ground (arith, rest.forward);
        bounds = (rest.forward, rest.bounds);
        reached = inr (elim rest.reached [ inl here ↦ inl (sym here) | inr there ↦ inr there ]);
      })
  | inr less ↦
      let rest = max_ob-IsGreatest base recs in
      rw less (record {
        forward = rest.forward;
        bounds = (ground (arith, rest.forward), rest.bounds);
        reached = elim rest.reached [ inl here ↦ inl here | inr there ↦ inr (inr there) ];
      })
]
