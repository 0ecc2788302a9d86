-- ===== src/Query/Quoting.antt =====
-- A quoted text is one word of the shell, and the word is the text.
use reqable_mcp.Prelude.{
  String, ◌≡◌, refl, sym, ap, ◌∙◌, Bool, ◌||◌, Option, none, some, str_eq, eq_iff, if◌then◌else◌,
  Bool-cases, inl, inr,
}
use reqable_mcp.Query.{is_quote, append, escaped, quoted}

-- How the shell reads a word: outside of quotes, inside single quotes, or behind a backslash.
pub data Mode : Type 0 where
  outside inside behind : Mode

abbrev pub with_char : String → Option (String × String) → Option (String × String)
with_char c none = none
with_char String.[] (some (word, rest)) = some (word, rest)
with_char (String.◌∷◌ c s) (some (word, rest)) = some (String.◌∷◌ c word, rest)

abbrev pub is_blank : String → Bool
is_blank s = str_eq s " " || str_eq s "\n"

-- The word that a text begins with, and what stands behind it; a quote that is not closed gives none.
unfoldable pub read_word : Mode → String → Option (String × String)
read_word outside String.[] = some (String.[], String.[])
read_word inside String.[] = none
read_word behind String.[] = none
read_word inside (String.◌∷◌ c s) =
    let more = read_word inside s in
    let after = read_word outside s in
    if is_quote (String.◌∷◌ c String.[]) then after else with_char (String.◌∷◌ c String.[]) more
read_word behind (String.◌∷◌ c s) = with_char (String.◌∷◌ c String.[]) (read_word outside s)
read_word outside (String.◌∷◌ c s) =
    let more = read_word outside s in
    let quote = read_word inside s in
    let next = read_word behind s in
    if is_quote (String.◌∷◌ c String.[])
    then quote
    else if str_eq (String.◌∷◌ c String.[]) "\\"
    then next
    else if is_blank (String.◌∷◌ c String.[])
    then some (String.[], String.◌∷◌ c s)
    else with_char (String.◌∷◌ c String.[]) more

-- The end of the text, or a blank.
pub data IsEnd : String → Type 0 where
  nothing : IsEnd ""
  space : (s : String) → IsEnd (append " " s)

abbrev with_text : String → Option (String × String) → Option (String × String)
with_text String.[] o = o
with_text (String.◌∷◌ c s) o = with_char (String.◌∷◌ c String.[]) (with_text s o)

read_word-escaped :
    (s rest : String)
    → read_word inside (append (append (escaped s) "'") rest) ≡ with_text s (read_word outside rest)
unfolding read_word escaped append
read_word-escaped String.[] rest = refl
read_word-escaped (String.◌∷◌ c s) rest = elim (Bool-cases (is_quote (String.◌∷◌ c String.[]))) [
  | inl quote ↦ rw quote (
      ap (with_char "'") (read_word-escaped s rest)
      ∙ ap (λ q. with_char q (with_text s (read_word outside rest)))
          (sym ((eq_iff (String.◌∷◌ c String.[]) "'").0 quote)))
  | inr other ↦
      rw other (rw other (ap (with_char (String.◌∷◌ c String.[])) (read_word-escaped s rest)))
]

with_text-end : (s rest : String) → with_text s (some ("", rest)) ≡ some (s, rest)
with_text-end String.[] rest = refl
with_text-end (String.◌∷◌ c s) rest = rw (with_text-end s rest) refl

-- Whatever a text holds, quotes included, the shell reads its quoted form as one word, and the word is the
-- text, where a blank or nothing stands behind it.
pub read_word-quoted :
    (s rest : String) → IsEnd rest → read_word outside (append (quoted s) rest) ≡ some (s, rest)
unfolding read_word quoted append
read_word-quoted s rest nothing = read_word-escaped s "" ∙ with_text-end s ""
read_word-quoted s rest (space t) =
    read_word-escaped s (append " " t) ∙ with_text-end s (append " " t)
