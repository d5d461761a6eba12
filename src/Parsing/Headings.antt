-- ===== src/Parsing/Headings.antt =====
-- Headings and titles in apps/server/internal/knowledge/biz/parsing.go.
use rago_desk.Base.{
  ℕ, zero, suc, ◌+◌, Bool, not, ◌&&◌, ◌||◌, Option, none, some, List, [], ◌∷◌, ltb, leb, ◌==◌,
  nat_eq, text_eq, if◌then◌else◌, null, any, length, take, Text, codes, trim, has_prefix,
  split_lines, drop_while, Unicode,
}
use rago_desk.Iam.Permissions.{cut_suffix}
use rago_desk.Chunking.Build.{DocumentBlock}

-- `\d` and `\s` of the package `regexp`.
unfoldable pub is_ascii_digit : ℕ → Bool
is_ascii_digit c = leb b'0' c && leb c b'9'

unfoldable pub is_ascii_space : ℕ → Bool
is_ascii_space c = c == 9 || c == 10 || c == 12 || c == 13 || c == 32

-- `(?:\.\d+)*`: what stands behind the groups. Every group takes two runes at least, so the length
-- of the text is enough fuel.
unfoldable pub skip_groups : ℕ → Text → Text
skip_groups zero s = s
skip_groups (suc fuel) [] = []
skip_groups (suc fuel) (c ∷ []) = c ∷ []
skip_groups (suc fuel) (c ∷ d ∷ s) =
    let rest = skip_groups fuel (drop_while is_ascii_digit s) in
    if c == b'.' && is_ascii_digit d then rest else c ∷ d ∷ s

-- `[)\.]?`
unfoldable pub skip_mark : Text → Text
skip_mark [] = []
skip_mark (c ∷ s) = if c == b')' || c == b'.' then s else c ∷ s

-- `\s+(.+)$`
unfoldable pub spaced_rest : Text → Option Text
spaced_rest [] = none
spaced_rest (c ∷ s) =
    let rest = drop_while is_ascii_space s in
    if not (is_ascii_space c) || null rest || any (λ r. r == 10) rest then none else some rest

-- `^\s*\d+(?:\.\d+)*[)\.]?\s+(.+)$`: the group that it captures. No part can match again what stands
-- behind it, so the longest match of each part is the only one.
unfoldable pub numbered_heading : Text → Option Text
numbered_heading line =
    let s = drop_while is_ascii_space line in
    let digits = drop_while is_ascii_digit s in
    if length digits == length s
    then none
    else spaced_rest (skip_mark (skip_groups (length digits) digits))

unfoldable pub hash_heading : Text → Text
hash_heading trimmed =
    if has_prefix (codes "#") trimmed then trim (drop_while (λ c. c == b'#') trimmed) else []

module _ ⦃u : Unicode⦄ where
  unfoldable pub count_letters : Text → ℕ
  count_letters [] = 0
  count_letters (r ∷ s) = (if u.is_letter r then 1 else 0) + count_letters s

  unfoldable pub is_all_caps_heading : Text → Bool
  is_all_caps_heading line =
      not (ltb 80 (length line))
      && not (any (λ r. u.is_letter r && u.is_lower r) line)
      && leb 3 (count_letters line)

  abbrev pub captured : Option Text → Text
  captured none = []
  captured (some s) = trim s

  unfoldable pub detect_heading : Text → Option Text
  detect_heading line =
      let trimmed = trim line in
      let numbered = captured (numbered_heading trimmed) in
      let labelled = captured (cut_suffix (codes ":") trimmed) in
      if null trimmed
      then none
      else if not (null (hash_heading trimmed))
      then some (hash_heading trimmed)
      else if ltb 120 (length trimmed)
      then none
      else if not (null numbered)
      then some numbered
      else if leb (length trimmed) 80 && not (null labelled)
      then some labelled
      else if is_all_caps_heading trimmed
      then some trimmed
      else none

  unfoldable pub has_letter_or_digit : Text → Bool
  has_letter_or_digit = any (λ r. u.is_letter r || u.is_digit r)

  unfoldable pub shorten_title : Text → ℕ → Text
  shorten_title s max = if leb (length (trim s)) max then trim s else trim (take max (trim s))

  unfoldable pub title_of_lines : List Text → Option Text
  title_of_lines [] = none
  title_of_lines (line ∷ lines) =
      let later = title_of_lines lines in
      if null (trim line) || not (has_letter_or_digit (trim line))
      then later
      else some (shorten_title (trim line) 120)

  unfoldable pub infer_title_from_blocks : List DocumentBlock → Text
  infer_title_from_blocks [] = []
  infer_title_from_blocks (block ∷ blocks) =
      let later = infer_title_from_blocks blocks in
      elim (title_of_lines (split_lines block.text)) [ none ↦ later | some title ↦ title ]
