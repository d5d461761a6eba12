-- ===== src/Chunking/Invariant.antt =====
-- The invariant of the builder, and the flush of a chunk.
use rago_desk.Base.{
  ℕ, suc, ◌+◌, ◌≤◌, ◌<◌, ◌%◌, ◌^◌, ◌≡◌, refl, ◌∙◌, inl, inr, false, List, [], ◌∷◌, ◌++◌, map, arith,
  Bool-cases, ◌==◌, nat_eq, null, length, length-append, All, All-append, Text, codes, Unicode,
}
use rago_desk.Chunking.Tokens.{estimate_token_count}
use rago_desk.Chunking.Sentences.{join}
use rago_desk.Chunking.Build.{
  DocumentMeta, DocChunk, ChunkEnv, ChunkState, Builder, empty_state, new_chunk,
  deterministic_chunk_id, chunk_content, flush_chunk_with_content,
}
use rago_desk.Chunking.TokenCount.{
  starts, token_sum, estimate-starts, starts-trim, starts-join_lines,
}
use rago_desk.Chunking.Spans.{AllAt}
use rago_desk.Chunking.Segments.{starts-null}

module _ {A : Type 0} (P : ℕ → A → Type 0) where
  pub AllAt-snoc :
      (k i : ℕ) (xs : List A) (x : A)
      → i ≡ k + length xs
      → AllAt P k xs
      → P i x
      → AllAt P k (xs ++ x ∷ [])
  AllAt-snoc k i [] x e h p = let same : i ≡ k = omega arith in (rw (← same) p, tt)
  AllAt-snoc k i (y ∷ xs) x e h p = (h.0, AllAt-snoc (suc k) i xs x (omega arith) h.1 p)

module _ ⦃u : Unicode⦄ where
  -- The tokens of all chunks.
  abbrev pub content_sum : List DocChunk → ℕ
  content_sum out = token_sum (map (λ (c : DocChunk). c.content) out)

  -- What a chunk promises: its count is that of its content, which is not empty and fits.
  pub record ChunkFits (n : ℕ) (c : DocChunk) : Type 0 where
    pub counted : c.token_count ≡ estimate_token_count c.content
    pub not_empty : 0 < c.token_count
    pub fits : c.token_count ≤ n

  -- Chunks are numbered in order, modulo 2^32, and named after their number.
  abbrev pub Numbered : ChunkEnv → Text → ℕ → DocChunk → Type 0
  Numbered env doc_version_id j c =
      (c.chunk_index ≡ j % 2 ^ 32)
      × (c.id ≡ deterministic_chunk_id env doc_version_id c.chunk_index)

  pub record IsSound (env : ChunkEnv) (doc_version_id : Text) (n overlap total : ℕ) (b : Builder)
      : Type 0 where
    pub counted : b.state.tokens ≡ token_sum b.state.parts
    pub room : b.state.tokens ≤ n
    pub chunks : All (ChunkFits n) b.out
    pub numbered : AllAt (Numbered env doc_version_id) 0 b.out
    pub next : b.index ≡ length b.out % 2 ^ 32
    pub kept : total ≤ content_sum b.out + token_sum b.state.parts
    pub exact : overlap ≡ 0 → content_sum b.out + token_sum b.state.parts ≡ total

  content_sum-append :
      (out : List DocChunk) (c : DocChunk)
      → content_sum (out ++ c ∷ []) ≡ content_sum out + starts false c.content
  unfolding token_sum
  content_sum-append [] c = omega arith
  content_sum-append (d ∷ out) c = omega (arith, content_sum-append out c)

  module _ (env : ChunkEnv) (meta : DocumentMeta) (doc_version_id : Text) (n overlap : ℕ) where
    abbrev pub Sound : ℕ → Builder → Type 0
    Sound = IsSound env doc_version_id n overlap

    pub content_tokens : (parts : List Text) → starts false (chunk_content parts) ≡ token_sum parts
    unfolding chunk_content
    content_tokens parts = starts-trim (join (codes "\n\n") parts) ∙ starts-join_lines parts

    new_chunk-ChunkFits :
        (s : ChunkState) (i : ℕ) (x : Text)
        → starts false x ≡ s.tokens
        → 0 < s.tokens
        → s.tokens ≤ n
        → n ≤ 8192
        → ChunkFits n (new_chunk env meta doc_version_id s i x)
    unfolding new_chunk
    new_chunk-ChunkFits s i x e some_tokens room hi = record {
      counted = omega (arith, estimate-starts x);
      not_empty = omega (arith, estimate-starts x);
      fits = omega (arith, estimate-starts x);
    }

    content_not_null :
        (b : Builder)
        → b.state.tokens ≡ token_sum b.state.parts
        → 0 < b.state.tokens
        → null (chunk_content b.state.parts) ≡ false
    content_not_null b e h = elim (Bool-cases (null (chunk_content b.state.parts))) [
      | inl f ↦
          absurd (
            omega
              (arith, starts-null (chunk_content b.state.parts) f, content_tokens b.state.parts))
      | inr f ↦ f
    ]

    -- The builder behind a flush that writes a chunk.
    flushed-Sound :
        (total : ℕ) (b : Builder)
        → n ≤ 8192
        → 0 < b.state.tokens
        → Sound total b
        → Sound total (record {
          out =
              b.out
              ++ new_chunk env meta doc_version_id b.state b.index (chunk_content b.state.parts)
                ∷ [];
          state = empty_state;
          index = (b.index + 1) % 2 ^ 32;
        })
    unfolding new_chunk token_sum
    flushed-Sound total b hi some_tokens v =
        let content = chunk_content b.state.parts in
        let chunk = new_chunk env meta doc_version_id b.state b.index content in
        let tokens = content_tokens b.state.parts in
        record {
          counted = refl;
          room = omega arith;
          chunks = All-append _ b.out _ v.chunks (
            new_chunk-ChunkFits b.state b.index content (omega (arith, v.counted, tokens))
                some_tokens v.room hi,
            tt,
          );
          numbered =
              AllAt-snoc _ 0 (length b.out) b.out chunk (omega arith) v.numbered (v.next, refl);
          next = omega (arith, v.next, length-append {0} b.out (chunk ∷ []));
          kept = omega (arith, v.kept, content_sum-append b.out chunk, tokens);
          exact = λ z. omega (arith, v.exact z, content_sum-append b.out chunk, tokens);
        }

    -- A flush keeps the invariant and leaves no open chunk.
    pub flush-Sound :
        (total : ℕ) (b : Builder)
        → n ≤ 8192
        → Sound total b
        → Sound total (flush_chunk_with_content env meta doc_version_id b).0
          × ((flush_chunk_with_content env meta doc_version_id b).0.state.tokens ≡ 0)
    unfolding flush_chunk_with_content
    flush-Sound total b hi v = elim (Bool-cases (b.state.tokens == 0)) [
      | inl e ↦ rw (flush_chunk_with_content, e) (v, ground arith)
      | inr e ↦
          rw (flush_chunk_with_content, e, content_not_null b v.counted (ground arith))
            (flushed-Sound total b hi (ground arith) v, refl)
    ]
