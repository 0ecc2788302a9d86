-- ===== src/Ipc/Framing.antt =====
-- How the bytes of a frame come back from the chunks in which they arrive.
use reqable_mcp.Prelude.{
  ℕ, ◌+◌, ◌≤◌, ◌≡◌, refl, ap, ◌∙◌, true, false, ◌||◌, some, List, [], ◌∷◌, ◌++◌, length, All, arith,
  length-append, append_assoc, append-nil, Bool-cases, inl, inr,
}
use reqable_mcp.Ipc.{Bytes, Loaded, newline, max_message_bytes, strip, request_of, decode_message}
use reqable_mcp.Ipc.Server.{End, has_newline, read_more, read_line}

abbrev pub join : List Bytes → Bytes
join [] = []
join (c ∷ cs) = c ++ join cs

-- Chunks are not empty, and `recv(4096)` returns at most 4096 bytes.
abbrev pub IsChunk : Bytes → Type 0
IsChunk c = (1 ≤ length c) × (length c ≤ 4096)

no_bytes : (bs : Bytes) → length bs ≡ 0 → bs ≡ []
no_bytes [] h = refl
no_bytes (b ∷ bs) h = absurd (omega arith)

-- a chunk with the newline is the end of the frame
last_chunk :
    (c rest body : Bytes)
    → has_newline c ≡ true
    → has_newline body ≡ false
    → c ++ rest ≡ body ++ newline ∷ []
    → rest ≡ []
last_chunk [] rest body h n e = absurd (cc)
last_chunk (b ∷ c) rest [] h n e = no_bytes rest (omega (arith, ap length e, length-append c rest))
last_chunk (b ∷ c) rest (d ∷ body) h n e =
    let head : b ≡ d = cc in last_chunk c rest body (ground arith) (ground arith) (cc)

-- one without it is a part of the body
part_of_body :
    (c rest body : Bytes)
    → has_newline c ≡ false
    → c ++ rest ≡ body ++ newline ∷ []
    → (left : Bytes) × (body ≡ c ++ left) × (rest ≡ left ++ newline ∷ [])
part_of_body [] rest body h e = (body, refl, e)
part_of_body (b ∷ c) rest [] h e = let head : b ≡ newline = cc in absurd (ground arith)
part_of_body (b ∷ c) rest (d ∷ body) h e =
    let (left, same, rest_same) = part_of_body c rest body (ground arith) (cc) in
    let head : d ≡ b = cc in (left, ap (◌∷◌ d) same ∙ ap (λ x. x ∷ (c ++ left)) head, rest_same)

has_newline-append : (a b : Bytes) → has_newline (a ++ b) ≡ has_newline a || has_newline b
has_newline-append [] b = refl
has_newline-append (x ∷ a) b = ground (arith, has_newline-append a b)

read_more-bound :
    (chunks : List Bytes) (buf : Bytes) (end : End) (line : Bytes)
    → All IsChunk chunks
    → length buf ≤ max_message_bytes
    → read_more buf chunks end ≡ some line
    → length line ≤ max_message_bytes + 4096
unfolding read_more
read_more-bound [] [] End.closed line all short h = absurd (cc)
read_more-bound [] (b ∷ buf) End.closed line all short h =
    let same : b ∷ buf ≡ line = cc in omega (arith, ap length same)
read_more-bound [] buf End.failed line all short h = absurd (cc)
read_more-bound ([] ∷ chunks) buf end line ((some_bytes, _), all) short h = absurd (omega arith)
read_more-bound ((b ∷ bs) ∷ chunks) buf end line ((_, small), all) short h =
    ground (arith, length-append buf (b ∷ bs), read_more-bound chunks (buf ++ b ∷ bs) end line all)

read_more-step :
    (buf : Bytes) (b : ℕ) (bs : Bytes) (chunks : List Bytes) (end : End)
    → has_newline (b ∷ bs) ≡ false
    → length (buf ++ b ∷ bs) ≤ max_message_bytes
    → read_more buf ((b ∷ bs) ∷ chunks) end ≡ read_more (buf ++ b ∷ bs) chunks end
unfolding read_more
read_more-step buf b bs chunks end on short = ground arith

-- the loop, with a part of the frame in the buffer
read_more-frame :
    (chunks : List Bytes) (buf body : Bytes) (end : End)
    → All IsChunk chunks
    → has_newline body ≡ false
    → join chunks ≡ body ++ newline ∷ []
    → length buf + length body + 1 ≤ max_message_bytes
    → read_more buf chunks end ≡ some (buf ++ join chunks)
unfolding read_more
read_more-frame [] buf body end all n e short =
    absurd (omega (arith, ap length e, length-append body (newline ∷ [])))
read_more-frame ([] ∷ chunks) buf body end ((some_bytes, _), all) n e short = absurd (omega arith)
read_more-frame ((b ∷ bs) ∷ chunks) buf body end (_, all) n e short =
    elim (Bool-cases (has_newline (b ∷ bs))) [
      | inl ends ↦
          let nothing_left = last_chunk (b ∷ bs) (join chunks) body ends n e in
          rw (ends, nothing_left, append-nil bs) refl
      | inr on ↦
          let (left, same, rest) = part_of_body (b ∷ bs) (join chunks) body on e in
          let grown : length (buf ++ b ∷ bs) + length left ≡ length buf + length body =
            omega
              (arith, ap length same, length-append (b ∷ bs) left, length-append buf (b ∷ bs)) in
          let fresh : has_newline left ≡ false =
            ground (arith, ap has_newline same, has_newline-append (b ∷ bs) left) in
          read_more-step buf b bs chunks end on (omega arith)
          ∙ read_more-frame chunks (buf ++ b ∷ bs) left end all fresh rest (omega arith)
          ∙ ap some (append_assoc buf (b ∷ bs) (join chunks))
    ]

-- What is read of a connection is never longer than the cap by more than one chunk, however much the
-- peer sends.
pub read_line-bound :
    (chunks : List Bytes) (end : End) (line : Bytes)
    → All IsChunk chunks
    → read_line chunks end ≡ some line
    → length line ≤ max_message_bytes + 4096
unfolding read_line
read_line-bound chunks end line all h = read_more-bound chunks [] end line all (omega arith) h

strip-newline : (body : Bytes) → strip (body ++ newline ∷ []) ≡ body
unfolding strip
strip-newline [] = refl
strip-newline (b ∷ []) = refl
strip-newline (b ∷ c ∷ body) = ap (◌∷◌ b) (strip-newline (c ∷ body))

decode_stripped :
    (loads : Bytes → Loaded) (line : Bytes) (b : ℕ) (body : Bytes)
    → length line ≤ max_message_bytes
    → strip line ≡ b ∷ body
    → decode_message loads line ≡ request_of (loads (b ∷ body))
unfolding decode_message
decode_stripped loads line b body short h = rw h (ground arith)

decode-frame :
    (loads : Bytes → Loaded) (body : Bytes)
    → length body + 1 ≤ max_message_bytes
    → 1 ≤ length body
    → decode_message loads (body ++ newline ∷ []) ≡ request_of (loads body)
unfolding decode_message
decode-frame loads (b ∷ body) short some_bytes =
    decode_stripped loads ((b ∷ body) ++ newline ∷ []) b body
      (omega (arith, length-append (b ∷ body) (newline ∷ []))) (strip-newline (b ∷ body))
decode-frame loads [] short some_bytes = absurd (omega arith)

-- A frame within the cap is read as it was sent, however it is cut into chunks, and decoded as the
-- value that its body stands for.
pub read_line-frame :
    (loads : Bytes → Loaded) (chunks : List Bytes) (body : Bytes) (end : End)
    → All IsChunk chunks
    → has_newline body ≡ false
    → join chunks ≡ body ++ newline ∷ []
    → 1 ≤ length body
    → length body + 1 ≤ max_message_bytes
    → (read_line chunks end ≡ some (body ++ newline ∷ []))
      × (decode_message loads (body ++ newline ∷ []) ≡ request_of (loads body))
unfolding read_line
read_line-frame loads chunks body end all n e some_bytes short = (
  read_more-frame chunks [] body end all n e (omega arith) ∙ ap some e,
  decode-frame loads body short some_bytes,
)
