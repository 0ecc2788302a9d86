-- ===== src/Poller/Fresh.antt =====
-- The cursor: what one stretch of polling hands on is newer than all that an earlier one did.
use reqable_mcp.Prelude.{
  ℕ, ◌≤◌, ◌<◌, String, ◌≡◌, refl, ap, Option, none, some, List, [], ◌∷◌, filter, arith, Bool-cases,
  inl, inr, All, All-map,
}
use reqable_mcp.Prelude.Int.{pos}
use reqable_mcp.Prelude.Result.{Result, ok, err, OnOk, OnOk-bind, OnOk-then}
use reqable_mcp.Prelude.Dict
use reqable_mcp.Json.{Json, int}
use reqable_mcp.Python.{Python}
use reqable_mcp.FlatBuffers.{Bytes}
use reqable_mcp.Values.{Text, at, section}
use reqable_mcp.WaitQueue.{Capture}
use reqable_mcp.Poller.{
  Sections, sections, headers_in, url, project_sections, project_record, find_header, cut_160,
}
use reqable_mcp.Poller.Decode.{Setting, Parts, projected, parts_of, counted, decode_value}
use reqable_mcp.Poller.Scan.{captures_of}
use reqable_mcp.Poller.Exact.{decode_all, gather, newer}

-- the ObjectBox id of a record
abbrev pub HasId : ℕ × Capture → Type 0
HasId (ob_id, rec) = at rec "ob_id" ≡ int (pos ob_id)

project_sections-HasId :
    (py : Python) (t : Text) (s : Sections) (ob_id : ℕ) (uid : String) (ts : ℕ)
    → OnOk (λ rec. at rec "ob_id" ≡ int (pos ob_id)) (project_sections py t s ob_id uid ts)
unfolding project_sections Dict.get
project_sections-HasId py t s ob_id uid ts =
    let P = λ (rec : Capture). at rec "ob_id" ≡ int (pos ob_id) in
    OnOk-bind P (find_header py t (headers_in py t s s.req) "content-type") _ (λ req_mime.
      OnOk-bind P (find_header py t (headers_in py t s s.res) "content-type") _ (λ res_mime.
        OnOk-bind P (cut_160 (url py t s)) _
          (λ short. OnOk-bind P (section (at s.top "appInfo")) _ (λ app. refl))))

module _ (e : Setting) where
  projected-HasId : (parts : Parts) → OnOk HasId (projected e parts)
  unfolding projected project_record
  projected-HasId (ob_id, uid, ts, value) =
      OnOk-then (λ rec. at rec "ob_id" ≡ int (pos ob_id)) HasId
        (project_record e.py e.text ob_id uid ts value) _
        (OnOk-bind (λ rec. at rec "ob_id" ≡ int (pos ob_id)) (sections value) _
          (λ s. project_sections-HasId e.py e.text s ob_id uid ts))
        (λ rec h. h)

  -- the record that is decoded, if there is one, has its id
  abbrev FoundId : Option (ℕ × Capture) → Type 0
  FoundId none = Unit
  FoundId (some rec) = HasId rec

  counted-HasId : (r : Result (Option Parts)) → OnOk FoundId (counted e r).1
  counted-HasId (err x) = tt
  counted-HasId (ok none) = tt
  counted-HasId (ok (some parts)) =
      OnOk-then HasId FoundId (projected e parts) _ (projected-HasId parts) (λ rec h. h)

  gather-HasId :
      (d : ℕ × Result (Option (ℕ × Capture))) (rest : ℕ × Result (List (ℕ × Capture)))
      → OnOk FoundId d.1
      → OnOk (All HasId) rest.1
      → OnOk (All HasId) (gather d rest).1
  gather-HasId (n, err x) rest h k = tt
  gather-HasId (n, ok none) (m, rest) h k = k
  gather-HasId (n, ok (some rec)) (m, rest) h k =
      OnOk-then (All HasId) (All HasId) rest _ k (λ recs hs. (h, hs))

  pub decode_all-HasId : (values : List Bytes) → OnOk (All HasId) (decode_all e values).1
  unfolding decode_all decode_value
  decode_all-HasId [] = tt
  decode_all-HasId (value ∷ values) =
      gather-HasId (decode_value e value) (decode_all e values) (counted-HasId (parts_of e value))
        (decode_all-HasId values)

-- the ObjectBox id that a capture holds
abbrev nat_of : Json → ℕ
nat_of (int (pos n)) = n
nat_of _ = 0

abbrev pub id_of : Capture → ℕ
id_of rec = nat_of (at rec "ob_id")

-- ids that are above one bound and not above another
abbrev pub Within : ℕ → ℕ → List Capture → Type 0
Within low high = All (λ c. (low < id_of c) × (id_of c ≤ high))

pub Within-raise :
    (low high top : ℕ) (cs : List Capture) → high ≤ top → Within low high cs → Within low top cs
Within-raise low high top cs le h = All-map (λ c (a, b). (a, omega arith)) cs h

pub Within-lower :
    (low base high : ℕ) (cs : List Capture) → base ≤ low → Within low high cs → Within base high cs
Within-lower low base high cs le h = All-map (λ c (a, b). (omega arith, b)) cs h

numbered : (ob_id : ℕ) (rec : Capture) → HasId (ob_id, rec) → id_of rec ≡ ob_id
numbered ob_id rec h = ap nat_of h

pub fresh-Within :
    (low top : ℕ) (recs : List (ℕ × Capture))
    → All HasId recs
    → All (λ r. r.0 ≤ top) (filter (newer low) recs)
    → Within low top (captures_of (filter (newer low) recs))
fresh-Within low top [] h = λ _. tt
fresh-Within low top ((ob_id, rec) ∷ recs) (h, hs) = elim (Bool-cases (newer low (ob_id, rec))) [
  | inl new ↦ rw new (λ (b, bs). (
    (ground (arith, numbered ob_id rec h), ground (arith, numbered ob_id rec h)),
    fresh-Within low top recs hs bs,
  ))
  | inr old ↦ rw old (fresh-Within low top recs hs)
]
