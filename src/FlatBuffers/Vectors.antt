-- ===== src/FlatBuffers/Vectors.antt =====
-- Reading back the vectors that were written.
use reqable_mcp.Prelude.{
  suc, ◌+◌, ◌<◌, ◌≡◌, refl, sym, ap, ◌∙◌, [], ◌∷◌, ◌++◌, append_assoc, length, drop, arith,
  length-append, take-append, take_all,
}
use reqable_mcp.Prelude.Result.{ok}
use reqable_mcp.FlatBuffers.{Bytes, u32, word, deref_uoffset, read_bytes, read_bytes_field}
use reqable_mcp.FlatBuffers.Words.{bytes_of, length-bytes_of, bound, word-bytes_of}

-- A byte vector as it is laid out: its length, then its bytes.
abbrev pub vector : Bytes → Bytes
vector bytes = bytes_of 4 (length bytes) ++ bytes

drop-vector :
    (before bytes after : Bytes)
    → drop (length before + 4) (before ++ (vector bytes ++ after)) ≡ bytes ++ after
unfolding bytes_of
drop-vector [] bytes after = refl
drop-vector (b ∷ before) bytes after =
    let next : suc (length before) + 4 ≡ suc (length before + 4) = omega arith in
    rw next (drop-vector before bytes after)

word-vector :
    (before bytes after : Bytes)
    → length bytes < bound 4
    → word 4 (before ++ (vector bytes ++ after)) (length before) ≡ ok (length bytes)
word-vector before bytes after h =
    ap (λ rest. word 4 (before ++ rest) (length before)) (append_assoc _ bytes after)
    ∙ word-bytes_of 4 (length bytes) before (bytes ++ after) h

read_bytes-vector :
    (before bytes after : Bytes)
    → length bytes < bound 4
    → read_bytes (before ++ (vector bytes ++ after)) (length before) ≡ ok bytes
unfolding read_bytes u32
read_bytes-vector before bytes after h = rw (word-vector before bytes after h) (
    rw (drop-vector before bytes after) (
      ap ok (
        take-append (length bytes) bytes after (omega arith)
        ∙ take_all (length bytes) bytes (omega arith))))

module _ (before between bytes after : Bytes) where
  -- a buffer with an offset, and the vector that it points to further on
  abbrev pub pointed : Bytes
  pointed = before ++ (bytes_of 4 (4 + length between) ++ (between ++ (vector bytes ++ after)))

  abbrev ahead : Bytes
  ahead = before ++ (bytes_of 4 (4 + length between) ++ between)

  pointed-ahead : pointed ≡ ahead ++ (vector bytes ++ after)
  pointed-ahead = simp append_assoc

  length-ahead : length ahead ≡ length before + (4 + length between)
  length-ahead = omega (
    arith,
    length-append before (bytes_of 4 (4 + length between) ++ between),
    length-append (bytes_of 4 (4 + length between)) between,
    length-bytes_of 4 (4 + length between),
  )

  -- Bytes laid out as a length and the bytes themselves are read back through the offset that points
  -- to them, whatever stands before, between and after.
  pub read_bytes_field-vector :
      4 + length between < bound 4
      → length bytes < bound 4
      → read_bytes_field pointed (length before) ≡ ok bytes
  unfolding read_bytes_field deref_uoffset u32
  read_bytes_field-vector near short = rw (word-bytes_of 4 (4 + length between) before _ near) (
      ap (read_bytes pointed) (sym length-ahead)
      ∙ ap (λ buf. read_bytes buf (length ahead)) pointed-ahead
      ∙ read_bytes-vector ahead bytes after short)
