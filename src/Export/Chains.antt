-- ===== src/Export/Chains.antt =====
-- Undoing a chain of codecs.
use mathlib.Core.List.{reverse-cons}
use reqable_mcp.Prelude.{
  ◌≡◌, refl, sym, ap, ◌∙◌, String, false, ◌||◌, some, List, [], ◌∷◌, ◌++◌, append_assoc, append-nil,
  reverse, length, All, ◌==◌, str_eq,
}
use reqable_mcp.Prelude.Result.{ok}
use reqable_mcp.FlatBuffers.{Bytes}
use reqable_mcp.Values.{Text}
use reqable_mcp.Export.{Codecs, undone, decode_one, codecs_of, undo_each, walk_content_encoding}

-- The codecs applied one after the other, each by an encoder.
unfoldable pub encode_all : (String → Bytes → Bytes) → List String → Bytes → Bytes
encode_all encode [] bytes = bytes
encode_all encode (codec ∷ codecs) bytes = encode_all encode codecs (encode codec bytes)

module _ (t : Text) (c : Codecs) where
  -- the codec undoes its encoder
  abbrev pub Undoes : (String → Bytes → Bytes) → String → Type 0
  Undoes encode codec =
      (bytes : Bytes) → decode_one t c (encode codec bytes) codec ≡ ok (undone bytes)

  undo_each-encode_all :
      (encode : String → Bytes → Bytes) (codecs rest : List String) (bytes : Bytes)
      (applied : List String)
      → All (Undoes encode) codecs
      → undo_each t c (reverse codecs ++ rest) (encode_all encode codecs bytes) applied
        ≡ undo_each t c rest bytes (applied ++ reverse codecs)
  unfolding undo_each encode_all
  undo_each-encode_all encode [] rest bytes applied all =
      ap (undo_each t c rest bytes) (sym (append-nil applied))
  undo_each-encode_all encode (codec ∷ codecs) rest bytes applied (undoes, all) =
      let inner = encode codec bytes in
      let list : reverse (codec ∷ codecs) ++ rest ≡ reverse codecs ++ (codec ∷ rest) =
        ap (λ l. l ++ rest) (reverse-cons codec codecs)
        ∙ append_assoc (reverse codecs) (codec ∷ []) rest in
      let chain : (applied ++ reverse codecs) ++ codec ∷ [] ≡ applied ++ reverse (codec ∷ codecs) =
        append_assoc applied (reverse codecs) (codec ∷ [])
        ∙ ap (λ l. applied ++ l) (sym (reverse-cons codec codecs)) in
      ap (λ l. undo_each t c l (encode_all encode codecs inner) applied) list
      ∙ undo_each-encode_all encode codecs (codec ∷ rest) inner applied all
      ∙ rw (undoes bytes) refl
      ∙ ap (undo_each t c rest bytes) chain

  -- A body that was encoded with each of the codecs of its header in turn is decoded to what it was, and the
  -- chain tells the codecs from the last to the first; if each codec undoes its encoder, the header is not
  -- empty, and neither is the encoded body.
  pub walk_content_encoding-encode_all :
      (encode : String → Bytes → Bytes) (content_encoding : String) (bytes : Bytes)
      → All (Undoes encode) (codecs_of t c content_encoding)
      → str_eq content_encoding ""
          || length (encode_all encode (codecs_of t c content_encoding) bytes) == 0
        ≡ false
      → walk_content_encoding t c
          (encode_all encode (codecs_of t c content_encoding) bytes)
          (some content_encoding)
        ≡ ok (record {
          out = bytes;
          applied = reverse (codecs_of t c content_encoding);
          failed = false;
        })
  unfolding walk_content_encoding
  walk_content_encoding-encode_all encode content_encoding bytes all present =
      let codecs = codecs_of t c content_encoding in
      rw present (
        ap (λ l. undo_each t c l (encode_all encode codecs bytes) [])
          (sym (append-nil (reverse codecs)))
        ∙ undo_each-encode_all encode codecs [] bytes [] all
        ∙ (unfold undo_each in refl))
