-- ===== src/Addon/RoundTrip.antt =====
-- A value that was written at a path is what is read there.
use Prim.Native.Char.{code}
use mathlib.Core.Path.{subst}
use reqable_mcp.Prelude.{
  String, ◌≡◌, ◌≢◌, refl, ap, ◌∙◌, Bool, true, false, some, List, [], ◌∷◌, str_eq, eq_iff, arith,
  Bool-cases, inl, inr, ◌==◌,
}
use reqable_mcp.Json.{Json, str, arr, obj}
use reqable_mcp.Addon.{Runtime, Payload, parsed}
use reqable_mcp.Addon.Path.{split_dots, descend, walk, patch}
use reqable_mcp.Addon.Body.{
  container, document, extract_from_json_body, write_back, patch_json_body,
}
use reqable_mcp.Addon.Walking.{walk-patch}

split_dots-cons : (s : String) → (w : String) × (ws : List String) × (split_dots s ≡ w ∷ ws)
unfolding split_dots
split_dots-cons String.[] = ("", [], refl)
split_dots-cons (String.◌∷◌ c s) =
    let (w, ws, e) = split_dots-cons s in
    elim (Bool-cases (code c == 46)) [
      | inl h ↦ ("", split_dots s, rw h refl)
      | inr h ↦ (String.◌∷◌ c w, ws, rw (h, e) refl)
    ]

module _ (rt : Runtime) where
  walked-container :
      (part : String) (rest : List String) (doc v : Json)
      → walk rt (part ∷ rest) doc ≡ some v
      → container (some doc) ≡ some doc
  unfolding walk descend
  walked-container part rest (obj fs) v h = refl
  walked-container part rest (arr xs) v h = refl
  walked-container part rest doc v h = absurd (cc)

  document-write_back :
      {P : Type 0} (body : Payload P) (doc : Json)
      → container (some doc) ≡ some doc
      → rt.loads (rt.dumps doc) ≡ some doc
      → document rt (write_back rt body (true, doc)).1 ≡ some doc
  unfolding document write_back
  document-write_back (parsed fs) (obj gs) c h = refl
  document-write_back body doc c h = rw h c

  module _ (path s : String) (doc : Json) where
    abbrev written : Bool × Json
    written = patch rt (split_dots path) doc (str s)

    walk-written : written.0 ≡ true → walk rt (split_dots path) written.1 ≡ some (str s)
    walk-written h =
        let (part, rest, e) = split_dots-cons path in
        rw e (walk-patch rt part rest doc s (subst (λ ps. (patch rt ps doc (str s)).0 ≡ true) e h))

    container-written : written.0 ≡ true → container (some written.1) ≡ some written.1
    container-written h =
        let (part, rest, e) = split_dots-cons path in
        walked-container part rest written.1 (str s)
          (subst (λ ps. walk rt ps written.1 ≡ some (str s)) e (walk-written h))

    extract-document :
        {P : Type 0} (body : Payload P)
        → str_eq path "" ≡ false
        → document rt body ≡ some written.1
        → written.0 ≡ true
        → extract_from_json_body rt body path ≡ some s
    unfolding extract_from_json_body
    extract-document body ne d h = rw (ne, d, walk-written h) refl

    patch-document :
        {P : Type 0} (body : Payload P)
        → str_eq path "" ≡ false
        → document rt body ≡ some doc
        → patch_json_body rt body path (str s) ≡ write_back rt body written
    unfolding patch_json_body
    patch-document body ne d = rw (ne, d) refl

    -- A text that a rule writes into a JSON body at a path that is not empty is what is read from the
    -- body at that path, if the document that was written is read back.
    pub extract-patch :
        {P : Type 0} (body : Payload P)
        → document rt body ≡ some doc
        → path ≢ ""
        → written.0 ≡ true
        → rt.loads (rt.dumps written.1) ≡ some written.1
        → extract_from_json_body rt (patch_json_body rt body path (str s)).1 path ≡ some s
    extract-patch body d ne h read_back =
        let no : str_eq path "" ≡ false = ground (arith, eq_iff path "") in
        let done : written ≡ (true, written.1) = ap (λ b. (b, written.1)) h in
        ap (λ r. extract_from_json_body rt r.1 path)
          (patch-document body no d ∙ ap (write_back rt body) done)
        ∙ extract-document (write_back rt body (true, written.1)).1 no
            (document-write_back body written.1 (container-written h) read_back) h
