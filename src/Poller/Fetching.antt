-- ===== src/Poller/Fetching.antt =====
-- The read of one capture by its id: it gives the JSON that a scan made the record of.
use mathlib.Core.Path.{subst}
use reqable_mcp.Prelude.{
  ℕ, ◌+◌, ◌*◌, ◌/◌, ◌%◌, ◌≤◌, ◌<◌, ◌^◌, String, ◌≡◌, refl, sym, ap, ◌∙◌, Bool, true, false, Option,
  none, some, [], ◌∷◌, arith, leb, ltb, ◌==◌, length, str_eq, if◌then◌else◌,
}
use reqable_mcp.Prelude.Result.{Result, ok, err, ◌>>=◌}
use reqable_mcp.Json.{Json}
use reqable_mcp.FlatBuffers.{
  Bytes, Table, u64, root_table_offset, parse_table, read_bytes_field, read_string_field,
}
use reqable_mcp.WaitQueue.{Capture}
use reqable_mcp.Poller.{project_record}
use reqable_mcp.Poller.Decode.{
  Setting, Parts, to_bytes, big_endian, fetch_record, unpack, read_parts, parts_of, json_of,
  counted, decode_value, projected, field_of, field_of?, or_zero, or_empty, none_on_error,
}

-- The number of four bytes, the first of them the highest.
abbrev pub number_of : ℕ → ℕ → ℕ → ℕ → ℕ
number_of a b c d = ((a * 256 + b) * 256 + c) * 256 + d

number_of-less : (a b c d : ℕ) → a < 256 → b < 256 → c < 256 → d < 256 → number_of a b c d < 256 ^ 4
number_of-less a b c d ha hb hc hd = omega arith

not_less : (m n : ℕ) → n < m → leb m n ≡ false
not_less m n h = ground arith

high_bytes : (n d : ℕ) → d < 256 → (n * 256 + d) / 256 ≡ n
high_bytes n d h = omega arith

low_byte : (n d : ℕ) → d < 256 → (n * 256 + d) % 256 ≡ d
low_byte n d h = omega arith

last_byte : (d : ℕ) → d < 256 → d % 256 ≡ d
last_byte d h = omega arith

-- a test that ends the `try` with nothing, and did not
skipped_test :
    {A : Type 0} (b : Bool) (r : Result (Option A)) (x : A)
    → (if b then ok none else r) ≡ ok (some x)
    → (b ≡ false) × (r ≡ ok (some x))
skipped_test true r x h = absurd (cc)
skipped_test false r x h = (refl, h)

-- a step that returned
with_ok :
    {R S : Type 0} (P : Type 0) (r : Result R) (f : R → Result S) {s : S}
    → (r >>= f) ≡ ok s
    → ((x : R) → r ≡ ok x → f x ≡ ok s → P)
    → P
with_ok P (err x) f h k = absurd (cc)
with_ok P (ok x) f h k = k x refl h

-- the JSON of the parts
last_part :
    (r : Result Json) (i j : ℕ) (u v : String) (s t : ℕ) (json : Json)
    → Path (Result (Option Parts)) (do x ← r; ok (some (i, u, s, x))) (ok (some (j, v, t, json)))
    → r ≡ ok json
last_part (err x) i j u v s t json h = absurd (cc)
last_part (ok x) i j u v s t json h = let same : x ≡ json = cc in ap ok same

big_endian-number_of :
    (a b c d : ℕ)
    → a < 256
    → b < 256
    → c < 256
    → d < 256
    → big_endian 4 (number_of a b c d) ≡ a ∷ b ∷ c ∷ d ∷ []
unfolding big_endian
big_endian-number_of a b c d ha hb hc hd =
    rw (high_bytes ((a * 256 + b) * 256 + c) d hd, low_byte ((a * 256 + b) * 256 + c) d hd)
      (rw (high_bytes (a * 256 + b) c hc, low_byte (a * 256 + b) c hc)
        (rw (high_bytes a b hb, low_byte a b hb) (ap (λ x. x ∷ b ∷ c ∷ d ∷ []) (last_byte a ha))))

module _ (e : Setting) (value : Bytes) where
  open e use {columns}

  -- the data of a value that holds some
  abbrev HasData : Option ℕ → Json → Type 0
  HasData o json =
      (off : ℕ) × (o ≡ some off)
      × (blob : Bytes) × (read_bytes_field value off ≡ ok blob)
      × ((length blob == 0) ≡ false)
      × (unpack e blob ≡ ok json)

  read_parts-HasData :
      (t : Table) (i o : Option ℕ) (ob_id : ℕ) (uid : String) (ts : ℕ) (json : Json)
      → read_parts e value t i o ≡ ok (some (ob_id, uid, ts, json))
      → HasData o json
  unfolding read_parts
  read_parts-HasData t none o ob_id uid ts json h = absurd (cc)
  read_parts-HasData t (some i) none ob_id uid ts json h = absurd (cc)
  read_parts-HasData t (some i) (some off) ob_id uid ts json h =
      let P = HasData (some off) json in
      with_ok P (u64 value i) _ h (λ _ _ h₁.
        with_ok P (or_empty (read_string_field e.codec.decode value) (field_of columns.vt_uid t)) _
          h₁
          (λ name _ h₂.
            with_ok P (or_zero (u64 value) (field_of? columns.vt_timestamp t)) _
              (skipped_test (str_eq name "") _ _ h₂).1
              (λ _ _ h₃. with_ok P (read_bytes_field value off) _ h₃ (λ blob read h₄. (
                off,
                refl,
                blob,
                read,
                (skipped_test (length blob == 0) _ _ h₄).0,
                last_part (unpack e blob) _ ob_id _ uid _ ts json
                    (skipped_test (length blob == 0) _ _ h₄).1,
              )))))

  data_json :
      (o : Option ℕ) (json : Json)
      → HasData o json
      → Path
          (Result (Option Json))
          (elim o [
            | none ↦ ok none
            | some off ↦ do
              blob ← read_bytes_field value off
              if length blob == 0 then ok none else (do json ← unpack e blob; ok (some json))
          ])
          (ok (some json))
  data_json none json (off, there, _, _, _, _) = absurd (cc)
  data_json (some off) json (off', there, blob, read, full, unpacked) =
      let same : off' ≡ off = cc in
      rw (sym (ap (read_bytes_field value) same) ∙ read) (rw full (rw unpacked refl))

  json_of-parts_of :
      (ob_id : ℕ) (uid : String) (ts : ℕ) (json : Json)
      → parts_of e value ≡ ok (some (ob_id, uid, ts, json))
      → json_of e value ≡ ok (some json)
  unfolding parts_of json_of
  json_of-parts_of ob_id uid ts json h =
      let P = json_of e value ≡ ok (some json) in
      with_ok P (root_table_offset value) _ h (λ root h₁ h₂.
        with_ok P (parse_table value root) _ h₂ (λ t h₃ h₄. rw h₁ (
          rw h₃ (
            data_json (field_of columns.vt_dbdata t) json (
              read_parts-HasData t (field_of columns.vt_id t) (field_of columns.vt_dbdata t) ob_id
                uid ts json h₄)))))

  -- the parts that a record was made of
  abbrev IsMadeOf : Result (Option Parts) → ℕ × Capture → Type 0
  IsMadeOf r found =
      (uid : String) × (ts : ℕ) × (json : Json) × (r ≡ ok (some (found.0, uid, ts, json)))
      × (project_record e.py e.text found.0 uid ts json ≡ ok found.1)

  counted-parts :
      (r : Result (Option Parts)) (found : ℕ × Capture)
      → (counted e r).1 ≡ ok (some found)
      → IsMadeOf r found
  unfolding projected
  counted-parts (err x) found h = absurd (cc)
  counted-parts (ok none) found h = absurd (cc)
  counted-parts (ok (some (ob_id, uid, ts, json))) found h =
      with_ok _ (projected e (ob_id, uid, ts, json)) _ h (λ made h₁ h₂.
        with_ok _ (project_record e.py e.text ob_id uid ts json) _ h₁ (λ rec h₃ h₄.
          let same : (ob_id, rec) ≡ found = cc in
          subst (IsMadeOf (ok (some (ob_id, uid, ts, json)))) same (uid, ts, json, refl, h₃)))

  -- What a scan makes a record of, `fetch_record` gives back by its id: if the value of the key that ends in
  -- the four bytes of an id is long enough and is decoded to a record, then `fetch_record` of the id returns
  -- JSON, whatever the other keys hold, and the record is the projection of this JSON.
  pub fetch_record-decoded :
      (lookup : Bytes → Option Bytes) (a b c d : ℕ) (found : ℕ × Capture)
      → a < 256
      → b < 256
      → c < 256
      → d < 256
      → lookup (0x18 ∷ 0 ∷ 0 ∷ 0x2c ∷ a ∷ b ∷ c ∷ d ∷ []) ≡ some value
      → 32 ≤ length value
      → (decode_value e value).1 ≡ ok (some found)
      → (uid : String) × (ts : ℕ) × (json : Json) × (fetch_record e lookup (number_of a b c d)
          ≡ ok (some json))
        × (project_record e.py e.text found.0 uid ts json ≡ ok found.1)
  unfolding fetch_record to_bytes decode_value
  fetch_record-decoded lookup a b c d found ha hb hc hd there long decoded =
      let (uid, ts, json, parts, projection) = counted-parts (parts_of e value) found decoded in
      let small : leb (256 ^ 4) (number_of a b c d) ≡ false =
        not_less _ _ (omega (arith, number_of-less a b c d ha hb hc hd)) in
      let smaller : leb (256 ^ 8) (number_of a b c d) ≡ false =
        not_less _ _ (omega (arith, number_of-less a b c d ha hb hc hd)) in
      let enough : ltb (length value) 32 ≡ false = ground arith in
      (
        uid,
        ts,
        json,
        rw small (
            rw smaller (
              rw (big_endian-number_of a b c d ha hb hc hd) (
                rw there (
                  rw enough
                    (ap ok (ap none_on_error (json_of-parts_of found.0 uid ts json parts))))))),
        projection,
      )
