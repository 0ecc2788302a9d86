-- ===== src/FlatBuffers/Words.antt =====
-- Reading back the integers that were written.
use reqable_mcp.Prelude.{
  ℕ, zero, suc, ◌+◌, ◌-◌, ◌*◌, ◌/◌, ◌%◌, ◌^◌, ◌≤◌, ◌<◌, ◌≡◌, refl, ap, ◌∙◌, true, [], ◌∷◌, ◌++◌,
  length, take, drop, arith, length-append, take-append, take_all, leb,
}
use reqable_mcp.Prelude.Int.{ℤ, pos, negsuc, pos_part, neg_part}
use reqable_mcp.Prelude.Result.{ok, err, struct_error}
use reqable_mcp.FlatBuffers.{Bytes, value, word, u32, signed, i32}

-- The bytes of a number, the lowest first.
unfoldable pub bytes_of : ℕ → ℕ → Bytes
bytes_of zero v = []
bytes_of (suc n) v = (v % 256) ∷ bytes_of n (v / 256)

pub length-bytes_of : (n v : ℕ) → length (bytes_of n v) ≡ n
unfolding bytes_of
length-bytes_of zero v = refl
length-bytes_of (suc n) v = ap suc (length-bytes_of n (v / 256))

-- powers of 256, as products
abbrev pub bound : ℕ → ℕ
bound zero = 1
bound (suc n) = 256 * bound n

value-bytes_of : (n v : ℕ) → v < bound n → value (bytes_of n v) ≡ v
unfolding bytes_of value
value-bytes_of zero v h = omega arith
value-bytes_of (suc n) v h = omega (arith, value-bytes_of n (v / 256) (omega arith))

drop-length : (xs ys : Bytes) → drop (length xs) (xs ++ ys) ≡ ys
drop-length [] ys = refl
drop-length (x ∷ xs) ys = drop-length xs ys

-- A number that fits is read back from where its bytes stand, whatever stands before and after.
pub word-bytes_of :
    (n v : ℕ) (before after : Bytes)
    → v < bound n
    → word n (before ++ (bytes_of n v ++ after)) (length before) ≡ ok v
unfolding word
word-bytes_of n v before after h =
    let written = bytes_of n v in
    let fits : leb (length before + n) (length (before ++ (written ++ after))) ≡ true = ground (
      arith,
      length-append before (written ++ after),
      length-append written after,
      length-bytes_of n v,
    ) in
    let taken : take n (written ++ after) ≡ written =
      take-append n written after (omega (arith, length-bytes_of n v))
      ∙ take_all n written (omega (arith, length-bytes_of n v)) in
    rw fits (rw (drop-length before (written ++ after)) (rw taken (ap ok (value-bytes_of n v h))))

-- The bit pattern of an integer in 32 bits.
abbrev pub pattern32 : ℤ → ℕ
pattern32 z = (pos_part z + 2 ^ 32 - neg_part z) % 2 ^ 32

signed-pattern32 : (z : ℤ) → pos_part z < 2 ^ 31 → neg_part z ≤ 2 ^ 31 → signed 32 (pattern32 z) ≡ z
unfolding signed
signed-pattern32 (pos n) h k = ground arith
signed-pattern32 (negsuc n) h k = ground arith

-- A signed integer of 32 bits is read back from where its bit pattern stands.
pub i32-bytes_of :
    (z : ℤ) (before after : Bytes)
    → pos_part z < 2 ^ 31
    → neg_part z ≤ 2 ^ 31
    → i32 (before ++ (bytes_of 4 (pattern32 z) ++ after)) (length before) ≡ ok z
unfolding i32 u32
i32-bytes_of z before after h k =
    rw (word-bytes_of 4 (pattern32 z) before after (omega arith)) (ap ok (signed-pattern32 z h k))

-- a read within the buffer, and one past its end
pub word_within :
    (n : ℕ) (buf : Bytes) (off : ℕ)
    → off + n ≤ length buf
    → word n buf off ≡ ok (value (take n (drop off buf)))
unfolding word
word_within n buf off h = ground arith

pub word_past :
    (n : ℕ) (buf : Bytes) (off : ℕ) → length buf < off + n → word n buf off ≡ err struct_error
unfolding word
word_past n buf off h = ground arith
