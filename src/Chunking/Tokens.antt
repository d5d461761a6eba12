-- ===== src/Chunking/Tokens.antt =====
-- The tokens of apps/server/internal/knowledge/biz/chunking.go: a CJK rune, or a run of letters
-- and digits. Also the functions that cut a text by its tokens, and `detectLanguage`.
use rago_desk.Base.{
  ℕ, zero, suc, ◌+◌, ◌-◌, Bool, not, ◌&&◌, ◌||◌, Option, none, some, List, [], ◌∷◌, ltb, leb, ◌==◌,
  if◌then◌else◌, length, get_or, null, take, drop, Text, codes, trim, Unicode, nat_eq, ℤ, ltℤ,
  is_pos, pos_part,
}

-- The function reads the comparisons from left to right, as the source does.
unfoldable pub is_cjk : ℕ → Bool
is_cjk r =
    (leb 0x4E00 r && leb r 0x9FFF)
    || (leb 0x3400 r && leb r 0x4DBF)
    || (leb 0x20000 r && leb r 0x2A6DF)

unfoldable pub clamp_int : ℤ → ℤ → ℤ → ℤ
clamp_int v lo hi = if ltℤ v lo then lo else if ltℤ hi v then hi else v

pub record TokenSpan : Type 0 where
  pub start : ℕ
  pub end : ℕ

-- `chunkSize` and `step` of `splitByTokens` behind its tests.
unfoldable pub part_size : ℤ → ℕ → ℕ
part_size chunk_size tokens = if is_pos chunk_size then pos_part chunk_size else tokens

unfoldable pub part_step : ℕ → ℤ → ℕ
part_step size overlap =
    let kept = if leb size (pos_part overlap) then size - 1 else pos_part overlap in
    if leb size kept then size else size - kept

module _ ⦃u : Unicode⦄ where
  unfoldable pub is_word : ℕ → Bool
  is_word r = u.is_letter r || u.is_digit r

  -- Both loops of `tokenizeSpans` in one pass: `some start` while the inner loop runs. A rune that
  -- ends the inner loop is looked at again by the outer one.
  unfoldable pub scan : Option ℕ → Text → ℕ → List TokenSpan
  scan none [] i = []
  scan (some start) [] i = record { start = start; end = i } ∷ []
  scan none (r ∷ rest) i =
      let cjk = record { start = i; end = i + 1 } ∷ scan none rest (i + 1) in
      let word = scan (some i) rest (i + 1) in
      let skip = scan none rest (i + 1) in
      if is_cjk r then cjk else if is_word r then word else skip
  scan (some start) (r ∷ rest) i =
      let cjk =
        record { start = start; end = i }
        ∷ record { start = i; end = i + 1 }
        ∷ scan none rest (i + 1) in
      let word = scan (some start) rest (i + 1) in
      let skip = record { start = start; end = i } ∷ scan none rest (i + 1) in
      if is_cjk r then cjk else if is_word r then word else skip

  unfoldable pub tokenize_spans : Text → List TokenSpan
  tokenize_spans runes = scan none runes 0

  unfoldable pub estimate_token_count : Text → ℕ
  estimate_token_count s = length (tokenize_spans s)

  -- The span at a position; the callers stay below the number of spans.
  abbrev pub span_at : List TokenSpan → ℕ → TokenSpan
  span_at ts i = get_or ts i (record { start = 0; end = 0 })

  unfoldable pub tail_by_tokens : Text → ℕ → Text
  tail_by_tokens s tokens =
      let spans = tokenize_spans s in
      if tokens == 0 || null s
      then []
      else if null spans
      then []
      else if leb (length spans) tokens
      then trim s
      else trim (drop (span_at spans (length spans - tokens)).start s)

  -- runes[from:to]
  abbrev pub slice : Text → ℕ → ℕ → Text
  slice runes from to = take (to - from) (drop from runes)

  -- The loop of `splitByTokens`. Each round moves `start` up by `step`, which is positive, so as
  -- many rounds as there are tokens are enough.
  unfoldable pub split_loop : Text → List TokenSpan → ℕ → ℕ → ℕ → ℕ → List Text
  split_loop runes tokens chunk_size step zero start = []
  split_loop runes tokens chunk_size step (suc fuel) start =
      let n = length tokens in
      let stop = if ltb n (start + chunk_size) then n else start + chunk_size in
      let part = slice runes (span_at tokens start).start (span_at tokens (stop - 1)).end in
      let rest = split_loop runes tokens chunk_size step fuel (start + step) in
      let round = part ∷ (if stop == n then [] else rest) in if ltb start n then round else []

  unfoldable pub split_by_tokens : Text → ℤ → ℤ → List Text
  split_by_tokens s chunk_size overlap =
      let tokens = tokenize_spans s in
      let size = part_size chunk_size (length tokens) in
      if null tokens
      then []
      else split_loop s tokens size (part_step size overlap) (length tokens) 0

-- detectLanguage: `latin` counts letters and digits up to U+00FF.
module _ ⦃u : Unicode⦄ where
  unfoldable pub count_scripts : Text → ℕ → ℕ → ℕ × ℕ
  unfolding is_cjk is_word
  count_scripts [] cjk latin = (cjk, latin)
  count_scripts (r ∷ s) cjk latin =
      let is_latin = leb r 0xff && is_word r in
      count_scripts s (if is_cjk r then cjk + 1 else cjk)
        (if not (is_cjk r) && is_latin then latin + 1 else latin)

  unfoldable pub detect_language : Text → Text
  unfolding count_scripts
  detect_language s =
      let (cjk, latin) = count_scripts s 0 0 in
      if leb 10 cjk && leb latin cjk
      then codes "zh"
      else if leb 10 latin && ltb cjk latin
      then codes "en"
      else []
