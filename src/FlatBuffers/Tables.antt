-- ===== src/FlatBuffers/Tables.antt =====
-- When a table parses, and what its fields are.
use mathlib.Core.Path.{subst}
use reqable_mcp.Prelude.{
  ℕ, zero, suc, ◌+◌, ◌-◌, ◌*◌, ◌/◌, ◌≤◌, ◌≡◌, inl, inr, refl, ◌∙◌, Bool, true, false, not, ◌&&◌,
  ◌||◌, Option, none, some, List, [], length, take, drop, arith, if◌then◌else◌, leb, ltb, ◌==◌,
  Bool-cases,
}
use reqable_mcp.Prelude.Int.{ℤ, pos, negsuc}
use reqable_mcp.Prelude.Result.{ok, err, value_error}
use reqable_mcp.FlatBuffers.{
  Bytes, value, u16, Table, field_at, add_field, read_fields, parse_vtable, at_vtable,
  looks_at_vtable,
}
use reqable_mcp.FlatBuffers.Words.{word_within}

-- The two bytes at an offset, as a number.
abbrev pub half : Bytes → ℕ → ℕ
half buf off = value (take 2 (drop off buf))

-- Where the field of a slot stands, by the vtable: nowhere if the slot holds 0.
abbrev pub slot : Bytes → ℕ → ℕ → ℕ → Option ℕ
slot buf table_off vt fid =
    let rel = half buf (vt + 4 + fid * 2) in if rel == 0 then none else some (table_off + rel)

module _ (buf : Bytes) (table_off vt : ℕ) where
  pub fields_from : ℕ → ℕ → List (ℕ × ℕ)
  unfolding add_field
  fields_from fid zero = []
  fields_from fid (suc left) =
      add_field fid table_off (half buf (vt + 4 + fid * 2)) (fields_from (suc fid) left)

  read_fields_within :
      (fid left : ℕ)
      → vt + 4 + (fid + left) * 2 ≤ length buf
      → read_fields buf table_off vt fid left ≡ ok (fields_from fid left)
  unfolding read_fields fields_from u16
  read_fields_within fid zero h = refl
  read_fields_within fid (suc left) h =
      rw (word_within 2 buf (vt + 4 + fid * 2) (omega arith))
        (rw (read_fields_within (suc fid) left (omega arith)))

  field_at-fields_from :
      (j fid left : ℕ)
      → field_at j (fields_from fid left)
        ≡ (if leb fid j && ltb j (fid + left) then slot buf table_off vt j else none)
  unfolding field_at fields_from
  field_at-fields_from j fid zero = ground arith
  field_at-fields_from j fid (suc left) = ground (arith, field_at-fields_from j (suc fid) left)

  -- the vtable is one: its header and its slots are in the buffer
  abbrev pub is_vtable : Bool
  is_vtable =
      not (ltb (length buf) (vt + 4))
      && not (ltb (half buf vt) 4 || ltb (length buf) (vt + half buf vt))

  unfoldable pub table_at : Table
  table_at = record {
    table_off = table_off;
    vtable_off = vt;
    vtable_size = half buf vt;
    table_size = half buf (vt + 2);
    fields = fields_from 0 ((half buf vt - 4) / 2);
  }

  parse_vtable-within :
      vt + 4 ≤ length buf
      → parse_vtable buf table_off vt ≡ (if is_vtable then ok table_at else err value_error)
  unfolding parse_vtable table_at u16
  parse_vtable-within h =
      let header : ltb (length buf) (vt + 4) ≡ false = ground arith in
      rw header (
        rw (word_within 2 buf vt (omega arith)) (
          rw (word_within 2 buf (vt + 2) (omega arith))
            (elim (Bool-cases (ltb (half buf vt) 4 || ltb (length buf) (vt + half buf vt))) [
              | inl bad ↦ rw bad
              | inr good ↦
                  rw good (rw (read_fields_within 0 ((half buf vt - 4) / 2) (ground arith)))
            ])))

  pub parse_vtable-eq :
      parse_vtable buf table_off vt ≡ (if is_vtable then ok table_at else err value_error)
  parse_vtable-eq = elim (Bool-cases (ltb (length buf) (vt + 4))) [
    | inl short ↦ unfold parse_vtable in rw short
    | inr long ↦ parse_vtable-within (ground arith)
  ]

  pub looks_at_vtable-eq : looks_at_vtable buf (pos vt) ≡ ok (is_vtable && leb (half buf vt) 1024)
  unfolding looks_at_vtable u16
  looks_at_vtable-eq = elim (Bool-cases (ltb (length buf) (vt + 4))) [
    | inl short ↦ rw short
    | inr long ↦ rw long (rw (word_within 2 buf vt (ground arith)) (ground arith))
  ]

-- What is known of a table that parsed: its vtable lies in the buffer, and a slot has a field exactly
-- where the vtable has the slot and holds another number than 0, which is then the field's offset from
-- the table.
pub record IsParsed (buf : Bytes) (off : ℕ) (t : Table) : Type 0 where
  pub table : t.table_off ≡ off
  pub header : 4 ≤ t.vtable_size
  pub within : t.vtable_off + t.vtable_size ≤ length buf
  pub fields :
      (fid : ℕ)
      → field_at fid t.fields
        ≡ (if ltb fid ((t.vtable_size - 4) / 2) then slot buf off t.vtable_off fid else none)

table_at-IsParsed :
    (buf : Bytes) (off vt : ℕ)
    → is_vtable buf off vt ≡ true
    → IsParsed buf off (table_at buf off vt)
unfolding table_at
table_at-IsParsed buf off vt h = record {
  table = refl;
  header = ground arith;
  within = ground arith;
  fields = λ fid. field_at-fields_from buf off vt fid 0 ((half buf vt - 4) / 2) ∙ ground arith;
}

pub at_vtable-IsParsed :
    (buf : Bytes) (off : ℕ) (v : ℤ) (t : Table) → at_vtable buf off v ≡ ok t → IsParsed buf off t
unfolding at_vtable
at_vtable-IsParsed buf off (pos vt) t h = elim (Bool-cases (is_vtable buf off vt)) [
  | inl good ↦
      let same : table_at buf off vt ≡ t = ground (arith, parse_vtable-eq buf off vt) in
      subst (IsParsed buf off) same (table_at-IsParsed buf off vt good)
  | inr bad ↦ absurd (ground (arith, parse_vtable-eq buf off vt))
]
at_vtable-IsParsed buf off (negsuc n) t h = cc
