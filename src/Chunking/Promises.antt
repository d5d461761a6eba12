-- ===== src/Chunking/Promises.antt =====
-- What `BuildChunks` and `splitByTokens` promise their callers.
use rago_desk.Base.{
  ℕ, ◌+◌, ◌-◌, ◌≤◌, ◌<◌, ◌≡◌, refl, List, [], ◌∷◌, arith, All, All-map, Text, Unicode, ℤ, pos,
  pos_part, is_pos, false,
}
use rago_desk.Chunking.Tokens.{clamp_int, estimate_token_count, split_by_tokens}
use rago_desk.Chunking.Build.{
  DocumentMeta, DocumentBlock, DocChunk, ChunkEnv, Builder, empty_builder, block_loop, build_chunks,
}
use rago_desk.Chunking.TokenCount.{token_sum, estimate-starts}
use rago_desk.Chunking.Spans.{AllAt}
use rago_desk.Chunking.Pieces.{parts-Bounded, parts-total}
use rago_desk.Chunking.Invariant.{ChunkFits, Numbered, content_sum}
use rago_desk.Chunking.Rounds.{block_sum, blocks-Sound, empty-Sound, Keeps}

-- The chunk size in force, for a configured one.
abbrev pub size_of : ℤ → ℕ
size_of chunk_size = pos_part (clamp_int chunk_size (pos 64) (pos 8192))

abbrev pub overlap_of : ℤ → ℤ → ℕ
overlap_of chunk_size overlap = pos_part (clamp_int overlap (pos 0) (pos (size_of chunk_size - 1)))

size_bounds : (chunk_size : ℤ) → (64 ≤ size_of chunk_size) × (size_of chunk_size ≤ 8192)
unfolding clamp_int
size_bounds chunk_size = ground arith

no_overlap : (chunk_size overlap : ℤ) → is_pos overlap ≡ false → overlap_of chunk_size overlap ≡ 0
unfolding clamp_int
no_overlap chunk_size overlap h = ground arith

module _ ⦃u : Unicode⦄ where
  -- The tokens that the chunks say they have, and the tokens of the blocks.
  abbrev pub chunk_total : List DocChunk → ℕ
  chunk_total [] = 0
  chunk_total (c ∷ out) = c.token_count + chunk_total out

  abbrev pub block_total : List DocumentBlock → ℕ
  block_total [] = 0
  block_total (x ∷ xs) = estimate_token_count x.text + block_total xs

  abbrev pub text_total : List Text → ℕ
  text_total [] = 0
  text_total (p ∷ ps) = estimate_token_count p + text_total ps

  chunk_total-sum :
      (n : ℕ) (out : List DocChunk) → All (ChunkFits n) out → chunk_total out ≡ content_sum out
  unfolding token_sum
  chunk_total-sum n [] h = refl
  chunk_total-sum n (c ∷ out) (f, h) =
      omega (arith, f.counted, estimate-starts c.content, chunk_total-sum n out h)

  block_total-sum : (xs : List DocumentBlock) → block_total xs ≡ block_sum xs
  unfolding block_sum
  block_total-sum [] = refl
  block_total-sum (x ∷ xs) = omega (arith, estimate-starts x.text, block_total-sum xs)

  text_total-sum : (ps : List Text) → text_total ps ≡ token_sum ps
  unfolding token_sum
  text_total-sum [] = refl
  text_total-sum (p ∷ ps) = omega (arith, estimate-starts p, text_total-sum ps)

  -- For a positive size, every part of `splitByTokens` has at most that many tokens, whatever the
  -- overlap.
  pub split_by_tokens-bounded :
      (s : Text) (n : ℕ) (overlap : ℤ)
      → 0 < n
      → All (λ p. estimate_token_count p ≤ n) (split_by_tokens s (pos n) overlap)
  split_by_tokens-bounded s n overlap h =
      All-map _ _ (λ p le. omega (arith, estimate-starts p, le)) _ (parts-Bounded s n overlap h)

  -- For a positive size and no overlap, the parts have exactly the tokens of the text.
  pub split_by_tokens-exact :
      (s : Text) (n : ℕ)
      → 0 < n
      → text_total (split_by_tokens s (pos n) (pos 0)) ≡ estimate_token_count s
  split_by_tokens-exact s n h = omega (
    arith,
    parts-total s n h,
    text_total-sum (split_by_tokens s (pos n) (pos 0)),
    estimate-starts s,
  )

module _ ⦃u : Unicode⦄ (env : ChunkEnv) (blocks : List DocumentBlock) (meta : DocumentMeta)
    (doc_version_id : Text) (chunk_size overlap : ℤ) where
  final : Builder
  final =
      block_loop env (size_of chunk_size) (overlap_of chunk_size overlap) meta doc_version_id
        empty_builder blocks

  final-Sound :
      Keeps env meta doc_version_id
        (size_of chunk_size)
        (overlap_of chunk_size overlap)
        (0 + block_sum blocks)
        final
      × (final.state.tokens ≡ 0)
  unfolding final
  final-Sound =
      let (lo, hi) = size_bounds chunk_size in
      blocks-Sound env meta doc_version_id (size_of chunk_size) (overlap_of chunk_size overlap) hi 0
        empty_builder blocks lo
        (empty-Sound env meta doc_version_id (size_of chunk_size) (overlap_of chunk_size overlap))

  -- Whatever the configured size and overlap, every chunk holds at least one token and at most as
  -- many as the clamped chunk size, and its token count is that of its content.
  pub build_chunks-Fit :
      All
        (ChunkFits (size_of chunk_size))
        (build_chunks env blocks meta doc_version_id chunk_size overlap)
  unfolding build_chunks final
  build_chunks-Fit = final-Sound.0.chunks

  -- The chunks are numbered 0, 1, 2, … in order (modulo 2^32), and a chunk's ID is made of the
  -- document version and its own number alone.
  pub build_chunks-Numbered :
      AllAt
        (Numbered env doc_version_id)
        0
        (build_chunks env blocks meta doc_version_id chunk_size overlap)
  unfolding build_chunks final
  build_chunks-Numbered = final-Sound.0.numbered

  -- Whatever the configured size and overlap, the chunks have together at least as many tokens as the
  -- blocks.
  pub build_chunks-keeps_tokens :
      block_total blocks
      ≤ chunk_total (build_chunks env blocks meta doc_version_id chunk_size overlap)
  unfolding build_chunks final
  build_chunks-keeps_tokens =
      let (v, empty) = final-Sound in
      omega (
        arith,
        v.kept,
        v.counted,
        empty,
        block_total-sum blocks,
        chunk_total-sum (size_of chunk_size) final.out v.chunks,
      )

  -- With an overlap that is not positive, the chunks have exactly as many tokens as the blocks.
  pub build_chunks-exact :
      is_pos overlap ≡ false
      → chunk_total (build_chunks env blocks meta doc_version_id chunk_size overlap)
        ≡ block_total blocks
  unfolding build_chunks final
  build_chunks-exact h =
      let (v, empty) = final-Sound in
      omega (
        arith,
        v.exact (no_overlap chunk_size overlap h),
        v.counted,
        empty,
        block_total-sum blocks,
        chunk_total-sum (size_of chunk_size) final.out v.chunks,
      )
