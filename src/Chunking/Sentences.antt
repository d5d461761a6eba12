-- ===== src/Chunking/Sentences.antt =====
-- Sentences and segments of apps/server/internal/knowledge/biz/chunking.go.
use rago_desk.Base.{
  ℕ, ◌+◌, Bool, not, ◌&&◌, ◌||◌, List, [], ◌∷◌, ◌++◌, ltb, ◌==◌, if◌then◌else◌, null, Text, codes,
  trim, Unicode, nat_eq, ℤ, pos, pos_part,
}
use rago_desk.Chunking.Tokens.{clamp_int, estimate_token_count, split_by_tokens}

-- strings.Join
unfoldable pub join : Text → List Text → Text
join sep [] = []
join sep (p ∷ []) = p
join sep (p ∷ q ∷ ps) = p ++ (sep ++ join sep (q ∷ ps))

unfoldable pub is_sentence_boundary : ℕ → Bool
is_sentence_boundary r =
    r == b'.'
    || r == b'!'
    || r == b'?'
    || r == b';'
    || r == 0x3002
    || r == 0xff01
    || r == 0xff1f
    || r == 0xff1b
    || r == 10
    || r == 13

-- `flush` of `splitBySentences`: the trimmed buffer goes to the output unless it is empty.
unfoldable pub flush_sentence : List Text → Text → List Text
flush_sentence out buf = if null (trim buf) then out else out ++ trim buf ∷ []

unfoldable pub sentence_loop : Text → List Text → Text → List Text
sentence_loop [] out buf = flush_sentence out buf
sentence_loop (r ∷ text) out buf =
    let ended = is_sentence_boundary r in
    sentence_loop text (if ended then flush_sentence out (buf ++ r ∷ []) else out)
      (if ended then [] else buf ++ r ∷ [])

unfoldable pub split_by_sentences : Text → List Text
split_by_sentences text = sentence_loop text [] []

-- The variables that the loop of `splitBlockSegments` and its `flush` share.
pub record SegmentState : Type 0 where
  pub segments : List Text
  pub buf : List Text
  pub token_count : ℕ

unfoldable pub flush_segment : SegmentState → SegmentState
flush_segment s = if null s.buf then s else record {
  segments = s.segments ++ trim (join (codes " ") s.buf) ∷ [];
  buf = [];
  token_count = 0;
}

-- The parts of a sentence that is longer than a segment, trimmed, without the empty ones.
unfoldable pub nonempty_parts : List Text → List Text
nonempty_parts [] = []
nonempty_parts (p ∷ ps) = if null (trim p) then nonempty_parts ps else trim p ∷ nonempty_parts ps

module _ ⦃u : Unicode⦄ where
  unfoldable pub append_sentence : SegmentState → Text → ℕ → SegmentState
  append_sentence s sentence tokens = record s {
    buf = s.buf ++ sentence ∷ [];
    token_count = s.token_count + tokens;
  }

  -- One round of `splitBlockSegments`.
  unfoldable pub add_sentence : ℕ → SegmentState → Text → SegmentState
  add_sentence max_tokens s raw =
      let sentence = trim raw in
      let tokens = estimate_token_count sentence in
      let flushed = flush_segment s in
      let parts = nonempty_parts (split_by_tokens sentence (pos max_tokens) (pos 0)) in
      if null sentence
      then s
      else if ltb max_tokens tokens
      then record flushed { segments = flushed.segments ++ parts }
      else if ltb max_tokens (s.token_count + tokens) && not (null s.buf)
      then append_sentence flushed sentence tokens
      else append_sentence s sentence tokens

  unfoldable pub segment_loop : ℕ → SegmentState → List Text → SegmentState
  segment_loop max_tokens s [] = flush_segment s
  segment_loop max_tokens s (x ∷ xs) = segment_loop max_tokens (add_sentence max_tokens s x) xs

  unfoldable pub split_block_segments : Text → ℤ → List Text
  split_block_segments text max_tokens =
      let limit = pos_part (clamp_int max_tokens (pos 64) (pos 8192)) in
      let start : SegmentState = record { segments = []; buf = []; token_count = 0 } in
      (segment_loop limit start (split_by_sentences text)).segments
