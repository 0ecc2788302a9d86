-- ===== src/RuleTools/Segments.antt =====
-- The paths that `_validate_field_path` accepts, by the parts at which the hook splits them.
use Prim.Native.Char.{Char, code}
use Prim.Native.String.{count}
use mathlib.Core.Path.{subst}
use reqable_mcp.Prelude.{
  ◌≤◌, String, ◌≡◌, ◌≢◌, ◌↔◌, refl, sym, ◌∙◌, Bool, true, false, not, ◌&&◌, List, [], ◌∷◌, All,
  ◌==◌, eq_iff, arith, if◌then◌else◌, Bool-cases, inl, inr,
}
use reqable_mcp.Prelude.Result.{ok}
use reqable_mcp.Addon.Path.{split_dots}
use reqable_mcp.RuleTools.Checks.{starts_with_dot, has_empty_part, validate_field_path}

abbrev is_full : String → Bool
is_full String.[] = false
is_full (String.◌∷◌ c s) = true

abbrev all_full : List String → Bool
all_full [] = true
all_full (w ∷ ws) = is_full w && all_full ws

-- the first part and the others, told by the first character and the places of the dots
record Parts (s : String) : Type 0 where
  pub head : String
  pub tail : List String
  pub split : split_dots s ≡ head ∷ tail
  pub head_full : is_full head ≡ is_full s && not (starts_with_dot s)
  pub tail_full : all_full tail ≡ not (has_empty_part s)

dots : (b r : Bool) → not b && not r ≡ not (if b then true else r)
dots true r = refl
dots false r = refl

one_part : (c : Char) → Parts (String.◌∷◌ c String.[])
unfolding split_dots has_empty_part
one_part c = elim (Bool-cases (code c == 46)) [
  | inl h ↦ record {
    head = "";
    tail = "" ∷ [];
    split = rw h refl;
    head_full = rw h refl;
    tail_full = rw h refl;
  }
  | inr h ↦ record {
    head = String.◌∷◌ c String.[];
    tail = [];
    split = rw h refl;
    head_full = rw h refl;
    tail_full = rw h refl;
  }
]

Parts-of : (s : String) → Parts s
unfolding split_dots has_empty_part
Parts-of String.[] = record {
  head = "";
  tail = [];
  split = refl;
  head_full = refl;
  tail_full = refl;
}
Parts-of (String.◌∷◌ c String.[]) = one_part c
Parts-of (String.◌∷◌ c (String.◌∷◌ d s)) =
    let p = Parts-of (String.◌∷◌ d s) in
    elim (Bool-cases (code c == 46)) [
      | inl h ↦ record {
        head = "";
        tail = p.head ∷ p.tail;
        split = rw (h, p.split) refl;
        head_full = rw h refl;
        tail_full =
            rw (h, p.head_full, p.tail_full)
              (dots (code d == 46) (has_empty_part (String.◌∷◌ d s)));
      }
      | inr h ↦ record {
        head = String.◌∷◌ c p.head;
        tail = p.tail;
        split = rw (h, p.split) refl;
        head_full = rw h refl;
        tail_full = rw (h, p.tail_full) refl;
      }
    ]

is_full_iff : (w : String) → (is_full w ≡ true) ↔ (w ≢ "")
is_full_iff String.[] = (λ h. cc, λ ne. absurd (ne refl))
is_full_iff (String.◌∷◌ c s) = (λ h e. cc, λ ne. refl)

all_full_iff : (ws : List String) → (all_full ws ≡ true) ↔ All (λ w. w ≢ "") ws
all_full_iff [] = (λ h. tt, λ h. refl)
all_full_iff (w ∷ ws) = (
  λ h. ((is_full_iff w).0 (ground arith), (all_full_iff ws).0 (ground arith)),
  λ (full, rest). rw ((is_full_iff w).1 full) ((all_full_iff ws).1 rest),
)

-- what `_validate_field_path` asks of a path, in its words
accepts_iff :
    (path : String)
    → (validate_field_path path ≡ ok tt) ↔ (
        (count path ≤ 256)
        × (is_full path && not (starts_with_dot path) ≡ true)
        × (not (has_empty_part path) ≡ true))
unfolding validate_field_path
accepts_iff path = ground (arith, eq_iff path "", is_full_iff path)

-- `patch_body_field` accepts exactly the paths of at most 256 characters that the hook splits into
-- parts of which none is empty.
pub field_path_iff :
    (path : String)
    → (validate_field_path path ≡ ok tt)
      ↔ ((count path ≤ 256) × All (λ w. w ≢ "") (split_dots path))
field_path_iff path =
    let p = Parts-of path in
    (
      λ h.
          let (short, head, tail) = (accepts_iff path).0 h in
          (
            short,
            rw p.split (
              (is_full_iff p.head).0 (p.head_full ∙ head),
              (all_full_iff p.tail).0 (p.tail_full ∙ tail),
            ),
          ),
      λ (short, all).
          let (head, tail) = subst (All (λ w. w ≢ "")) p.split all in
          (accepts_iff path).1 (
            short,
            sym p.head_full ∙ (is_full_iff p.head).1 head,
            sym p.tail_full ∙ (all_full_iff p.tail).1 tail,
          ),
    )
