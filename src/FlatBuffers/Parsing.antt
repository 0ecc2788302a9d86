-- ===== src/FlatBuffers/Parsing.antt =====
-- `parse_table` on every buffer, and the test `looks_like_table`.
use reqable_mcp.Prelude.{
  ℕ, ◌+◌, ◌≤◌, ◌<◌, ◌≡◌, ◌≢◌, ◌↔◌, inl, inr, sym, ◌∙◌, true, false, ◌&&◌, length, take, drop, arith,
  leb, ltb, Bool-cases,
}
use reqable_mcp.Prelude.Int.{ℤ, pos, negsuc}
use reqable_mcp.Prelude.Result.{ok, err, struct_error, >>=-eq-ok}
use reqable_mcp.FlatBuffers.{
  Bytes, value, u32, i32, signed, Table, vtable_of, at_vtable, parse_table, looks_at_vtable,
  looks_like_table, false_on_error,
}
use reqable_mcp.FlatBuffers.Words.{word_within, word_past}
use reqable_mcp.FlatBuffers.Tables.{
  half, is_vtable, table_at, parse_vtable-eq, looks_at_vtable-eq, IsParsed, at_vtable-IsParsed,
}

module _ (buf : Bytes) (off : ℕ) where
  -- where the vtable should be
  abbrev target : ℤ
  target = vtable_of off (signed 32 (value (take 4 (drop off buf))))

  i32_within : off + 4 ≤ length buf → i32 buf off ≡ ok (signed 32 (value (take 4 (drop off buf))))
  unfolding i32 u32
  i32_within h = rw (word_within 4 buf off h)

  i32_past : length buf < off + 4 → i32 buf off ≡ err struct_error
  unfolding i32 u32
  i32_past h = rw (word_past 4 buf off h)

  parse_table_within : off + 4 ≤ length buf → parse_table buf off ≡ at_vtable buf off target
  unfolding parse_table
  parse_table_within h = rw (i32_within h)

  parse_table_past : length buf < off + 4 → parse_table buf off ≡ err struct_error
  unfolding parse_table
  parse_table_past h = rw (i32_past h)

  at_vtable-ne-struct_error : (v : ℤ) → at_vtable buf off v ≢ err struct_error
  unfolding at_vtable
  at_vtable-ne-struct_error (pos vt) h = ground (arith, parse_vtable-eq buf off vt)
  at_vtable-ne-struct_error (negsuc n) h = cc

  -- `parse_table` raises `struct.error` exactly when the table's first four bytes are not all in the
  -- buffer; past them it never reads outside, and returns a table or raises `ValueError`.
  pub parse_table-struct_error_iff :
      (parse_table buf off ≡ err struct_error) ↔ (length buf < off + 4)
  parse_table-struct_error_iff = (
    λ h. elim (Bool-cases (ltb (length buf) (off + 4))) [
      | inl past ↦ ground arith
      | inr within ↦
          absurd (at_vtable-ne-struct_error target (sym (parse_table_within (ground arith)) ∙ h))
    ],
    parse_table_past,
  )

  -- A table that parses has its whole vtable in the buffer, and its fields are those of the vtable.
  pub parse_table-IsParsed : (t : Table) → parse_table buf off ≡ ok t → IsParsed buf off t
  unfolding parse_table
  parse_table-IsParsed t h =
      let (diff, _, h') = >>=-eq-ok (i32 buf off) _ h in
      at_vtable-IsParsed buf off (vtable_of off diff) t h'

  looks_at-parsed :
      (vt : ℕ)
      → false_on_error (looks_at_vtable buf (pos vt)) ≡ true
      → (t : Table) × (at_vtable buf off (pos vt) ≡ ok t) × (t.vtable_size ≤ 1024)
  unfolding false_on_error at_vtable table_at
  looks_at-parsed vt h =
      let good : is_vtable buf off vt && leb (half buf vt) 1024 ≡ true =
        ground (arith, looks_at_vtable-eq buf off vt) in
      (table_at buf off vt, ground (arith, parse_vtable-eq buf off vt), ground arith)

  parsed-looks_at :
      (vt : ℕ) (t : Table)
      → at_vtable buf off (pos vt) ≡ ok t
      → t.vtable_size ≤ 1024
      → false_on_error (looks_at_vtable buf (pos vt)) ≡ true
  unfolding false_on_error at_vtable table_at
  parsed-looks_at vt t h le =
      ground (arith, looks_at_vtable-eq buf off vt, parse_vtable-eq buf off vt)

  -- the two readings of the vtable agree
  looks_at_iff :
      (v : ℤ)
      → (false_on_error (looks_at_vtable buf v) ≡ true)
        ↔ ((t : Table) × (at_vtable buf off v ≡ ok t) × (t.vtable_size ≤ 1024))
  looks_at_iff (pos vt) = (looks_at-parsed vt, λ (t, h, le). parsed-looks_at vt t h le)
  looks_at_iff (negsuc n) =
      unfold false_on_error at_vtable looks_at_vtable in
      (λ h. absurd (cc), λ (t, h, _). absurd (cc))

  looks_like_table_within :
      off + 4 ≤ length buf → looks_like_table buf off ≡ false_on_error (looks_at_vtable buf target)
  unfolding looks_like_table
  looks_like_table_within h = rw (i32_within h) (ground arith)

  looks_like_table_past : length buf < off + 4 → looks_like_table buf off ≡ false
  unfolding looks_like_table
  looks_like_table_past h = ground arith

  -- The test `looks_like_table` passes exactly where `parse_table` returns a table whose vtable has at
  -- most 1024 bytes; so where it passes, `parse_table` does not raise.
  pub looks_like_table_iff :
      (looks_like_table buf off ≡ true)
      ↔ ((t : Table) × (parse_table buf off ≡ ok t) × (t.vtable_size ≤ 1024))
  looks_like_table_iff = elim (Bool-cases (ltb (length buf) (off + 4))) [
    | inl past ↦ (
      λ h. absurd (ground (arith, looks_like_table_past (ground arith))),
      λ (t, e, _). absurd (ground (arith, parse_table_past (ground arith))),
    )
    | inr within ↦
        rw (parse_table_within (ground arith))
          (rw (looks_like_table_within (ground arith)) (looks_at_iff target))
  ]
