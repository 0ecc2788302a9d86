-- ===== src/Bodies/Reading.antt =====
-- When the reading of a response body raises.
use reqable_mcp.Prelude.{
  ◌≡◌, ◌↔◌, ◌≢◌, refl, ap, ◌∙◌, String, Bool, ◌&&◌, is_some, true, false, Option, none, some,
  Bool-cases, inl, inr, arith,
}
use reqable_mcp.Prelude.Result.{Result, err, Error, os_error}
use reqable_mcp.FlatBuffers.{Bytes}
use reqable_mcp.Values.{Text}
use reqable_mcp.Bodies.{
  BodyLookup, res, filename, read_file, is_gzip, or_raw, unzipped, first_body, get_response_raw,
  get_response_body,
}

or_raw-err_iff :
    (raw : Bytes) (r : Result Bytes) (x : Error)
    → (or_raw raw r ≡ err x) ↔ ((r ≡ err x) × (x ≢ os_error))
or_raw-err_iff raw r x = ground arith

module _ (t : Text) (open_file : String → Result Bytes) (decompress : Bytes → Result Bytes) where
  -- a raw body that looks like gzip and whose decompression raises something else than an `OSError`
  abbrev pub IsBroken : Option Bytes → Error → Type 0
  IsBroken o x =
      (raw : Bytes) × (o ≡ some raw)
      × (is_gzip raw ≡ true)
      × (decompress raw ≡ err x)
      × (x ≢ os_error)

  unzipped-err_iff :
      (o : Option Bytes) (x : Error) → (unzipped t open_file decompress o ≡ err x) ↔ IsBroken o x
  unzipped-err_iff none x = (λ h. absurd (cc), λ (raw, e, _, _, _). absurd (cc))
  unzipped-err_iff (some raw) x = elim (Bool-cases (is_gzip raw)) [
    | inl gz ↦ rw gz (
      λ h. let (d, ne) = (or_raw-err_iff raw (decompress raw) x).0 h in (raw, refl, gz, d, ne),
      λ (b, e, _, d, ne).
          let same : raw ≡ b = cc in
          (or_raw-err_iff raw (decompress raw) x).1 (ap decompress same ∙ d, ne),
    )
    | inr plain ↦ rw plain (
      λ h. absurd (cc),
      λ (b, e, gz, _, _).
          let same : raw ≡ b = cc in
          let gz' : is_gzip raw ≡ true = ap is_gzip same ∙ gz in absurd (cc),
    )
  ]

  -- Reading the body of a response raises exactly where the decoded file is not asked for or not there, the
  -- file as it was on the wire begins like gzip, and its decompression raises something else than an
  -- `OSError`.
  pub get_response_body-err_iff :
      (l : BodyLookup) (prefer : Bool) (x : Error)
      → (get_response_body t open_file decompress l prefer ≡ err x) ↔ (
          (prefer && is_some (read_file open_file (filename t l res true)) ≡ false)
          × IsBroken (get_response_raw t open_file decompress l) x)
  unfolding get_response_body get_response_raw
  get_response_body-err_iff l false x =
      let both = unzipped-err_iff (read_file open_file (filename t l res false)) x in
      (λ h. (refl, both.0 h), λ (_, broken). both.1 broken)
  get_response_body-err_iff l true x = by_decoded (read_file open_file (filename t l res true))
    where
      by_decoded :
          (o : Option Bytes)
          → (first_body t open_file decompress o
                (unzipped t open_file decompress (read_file open_file (filename t l res false)))
              ≡ err x)
            ↔ ((is_some o ≡ false) × IsBroken (read_file open_file (filename t l res false)) x)
      by_decoded none =
          let both = unzipped-err_iff (read_file open_file (filename t l res false)) x in
          (λ h. (refl, both.0 h), λ (_, broken). both.1 broken)
      by_decoded (some bytes) = (λ h. absurd (cc), λ (h, _). absurd (cc))
