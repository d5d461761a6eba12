-- ===== src/Chunking/Rounds.antt =====
-- The rounds of `buildChunksFromBlocks` and the invariant of the builder.
use rago_desk.Base.{
  ℕ, ◌+◌, ◌≤◌, ◌<◌, ◌≡◌, refl, sym, ap, ◌∙◌, inl, inr, Bool, true, false, not, ◌&&◌, List, [], ◌∷◌,
  arith, Bool-cases, ltb, nat_eq, if◌then◌else◌, null, Text, trim, Unicode, pos,
}
use rago_desk.Chunking.Tokens.{estimate_token_count, tail_by_tokens}
use rago_desk.Chunking.Sentences.{split_block_segments}
use rago_desk.Chunking.Build.{
  DocumentMeta, DocumentBlock, ChunkEnv, ChunkState, Builder, empty_builder, add_part, flush_chunk,
  flush_chunk_with_content, start_overlap, make_room, enter_block, add_segment, add_segments,
  is_structure_boundary, add_block, block_loop,
}
use rago_desk.Chunking.TokenCount.{
  starts, token_sum, estimate-starts, starts-trim, token_sum-append,
}
use rago_desk.Chunking.Segments.{Short, token_sum-one, null-trim}
use rago_desk.Chunking.Cuts.{segments_sound}
use rago_desk.Chunking.Invariant.{Sound, flush-Sound}

-- The tokens of the blocks.
module _ ⦃u : Unicode⦄ where
  unfoldable pub block_sum : List DocumentBlock → ℕ
  block_sum [] = 0
  block_sum (x ∷ xs) = starts false x.text + block_sum xs

  -- A part adds its tokens, and those of an empty one are none.
  add_part-tokens :
      (s : ChunkState) (x : Text)
      → s.tokens ≡ token_sum s.parts
      → ((add_part s x).tokens ≡ s.tokens + starts false x)
        × (token_sum (add_part s x).parts ≡ s.tokens + starts false x)
  unfolding add_part
  add_part-tokens s x e = ground (
    arith,
    null-trim x,
    starts-trim x,
    estimate-starts (trim x),
    token_sum-append s.parts (trim x ∷ []),
    token_sum-one (trim x),
  )

  module _ (env : ChunkEnv) (meta : DocumentMeta) (doc_version_id : Text) (n overlap : ℕ) where
    abbrev pub Keeps : ℕ → Builder → Type 0
    Keeps = Sound env meta doc_version_id n overlap

    Keeps-resize : (total kept : ℕ) (b : Builder) → total ≡ kept → Keeps total b → Keeps kept b
    Keeps-resize total kept b e v = record {
      counted = v.counted;
      room = v.room;
      chunks = v.chunks;
      numbered = v.numbered;
      next = v.next;
      kept = omega (arith, v.kept);
      exact = λ z. v.exact z ∙ e;
    }

    -- A builder whose open chunk is replaced by one with `more` more tokens.
    grow-Sound :
        (total more kept : ℕ) (b : Builder) (s : ChunkState)
        → Keeps total b
        → s.tokens ≡ b.state.tokens + more
        → token_sum s.parts ≡ b.state.tokens + more
        → b.state.tokens + more ≤ n
        → kept ≤ total + more
        → (overlap ≡ 0 → kept ≡ total + more)
        → Keeps kept (record b { state = s })
    grow-Sound total more kept b s v tokens parts fits low same = record {
      counted = omega arith;
      room = omega arith;
      chunks = v.chunks;
      numbered = v.numbered;
      next = v.next;
      kept = omega (arith, v.kept, v.counted);
      exact = λ z. omega (arith, v.exact z, v.counted, same z);
    }

    module _ (hi : n ≤ 8192) where
      overlap-Sound :
          (total k : ℕ) (content section : Text) (page : ℕ) (b : Builder)
          → k ≤ n
          → Keeps total b
          → b.state.tokens ≡ 0
          → let s = start_overlap n overlap k content section page b.state in
            Keeps total (record b { state = s }) × (s.tokens + k ≤ n)
      unfolding start_overlap
      overlap-Sound total k content section page b fits v empty =
          let text = tail_by_tokens content overlap in
          let opened = record (b.state) { section = section; page_no = page } in
          let added = add_part-tokens opened text v.counted in
          elim (Bool-cases
            (ltb 0 overlap && not (null text) && not (ltb n (estimate_token_count text + k)))) [
              | inl c ↦ rw c (
                grow-Sound total (starts false text) total b (add_part opened text) v added.0
                    added.1 (omega (arith, small text c)) (omega arith)
                    (λ z. absurd (omega (arith, some_overlap text c))),
                omega (arith, added.0, small text c),
              )
              | inr c ↦ rw c (v, omega arith)
            ]
        where
          small :
              (text : Text)
              → (ltb 0 overlap && not (null text) && not (ltb n (estimate_token_count text + k)))
                ≡ true
              → starts false text + k ≤ n
          small text c = ground (arith, estimate-starts text)

          some_overlap :
              (text : Text)
              → (ltb 0 overlap && not (null text) && not (ltb n (estimate_token_count text + k)))
                ≡ true
              → 0 < overlap
          some_overlap text c = ground arith

      room-Sound :
          (total k : ℕ) (b : Builder)
          → k ≤ n
          → Keeps total b
          → Keeps total (make_room env n overlap meta doc_version_id k b)
            × ((make_room env n overlap meta doc_version_id k b).state.tokens + k ≤ n)
      unfolding make_room
      room-Sound total k b fits v =
          elim (Bool-cases (ltb 0 b.state.tokens && ltb n (b.state.tokens + k))) [
            | inl c ↦
                let flushed = flush_chunk_with_content env meta doc_version_id b in
                let (w, empty) = flush-Sound env meta doc_version_id n overlap total b hi v in
                rw c (overlap-Sound total k flushed.1 flushed.2 flushed.3 flushed.0 fits w empty)
            | inr c ↦ rw c (v, ground arith)
          ]

      enter_block-tokens :
          (block : DocumentBlock) (s : ChunkState)
          → ((enter_block block s).tokens ≡ s.tokens) × ((enter_block block s).parts ≡ s.parts)
      unfolding enter_block
      enter_block-tokens block s = ground arith

      segment-Sound :
          (total : ℕ) (block : DocumentBlock) (b : Builder) (raw : Text)
          → starts false raw ≤ n
          → Keeps total b
          → Keeps
              (total + starts false raw)
              (add_segment env n overlap meta doc_version_id block b raw)
      unfolding add_segment
      segment-Sound total block b raw fits v =
          let k = estimate_token_count (trim raw) in
          let size = estimate-starts (trim raw) in
          let (w, low) = room-Sound total k b (omega (arith, size, starts-trim raw)) v in
          let roomy = make_room env n overlap meta doc_version_id k b in
          let entered = enter_block block roomy.state in
          let (tokens, parts) = enter_block-tokens block roomy.state in
          let grown =
            add_part-tokens entered (trim raw) (tokens ∙ w.counted ∙ sym (ap token_sum parts)) in
          elim (Bool-cases (null (trim raw))) [
            | inl e ↦ rw e (Keeps-resize total _ b (omega (arith, null-trim raw e)) v)
            | inr e ↦ rw e (
                grow-Sound total (starts false raw) _ roomy (add_part entered (trim raw)) w
                  (omega (arith, grown.0, tokens, starts-trim raw))
                  (omega (arith, grown.1, tokens, starts-trim raw))
                  (omega (arith, low, size, starts-trim raw)) (omega arith) (λ z. refl))
          ]

      segments-Sound :
          (total : ℕ) (block : DocumentBlock) (b : Builder) (xs : List Text)
          → Short n xs
          → Keeps total b
          → Keeps (total + token_sum xs) (add_segments env n overlap meta doc_version_id block b xs)
      unfolding add_segments token_sum
      segments-Sound total block b [] h v = Keeps-resize total _ b (omega arith) v
      segments-Sound total block b (x ∷ xs) (hx, h) v = Keeps-resize _ _ _ (omega arith) (
          segments-Sound (total + starts false x) block _ xs h (segment-Sound total block b x hx v))

      cut-Sound :
          (total : ℕ) (b : Builder) (c : Bool)
          → Keeps total b
          → Keeps total (if c then flush_chunk env meta doc_version_id b else b)
      unfolding flush_chunk
      cut-Sound total b true v = (flush-Sound env meta doc_version_id n overlap total b hi v).0
      cut-Sound total b false v = v

      block-Sound :
          (total : ℕ) (b : Builder) (block : DocumentBlock)
          → 64 ≤ n
          → Keeps total b
          → Keeps
              (total + starts false block.text)
              (add_block env n overlap meta doc_version_id b block)
      unfolding add_block
      block-Sound total b block lo v =
          let (short, sum) = segments_sound (trim block.text) n lo hi in
          elim (Bool-cases (null (trim block.text))) [
            | inl e ↦ rw e (Keeps-resize total _ b (omega (arith, null-trim block.text e)) v)
            | inr e ↦ rw e (
                Keeps-resize _ _ _ (omega (arith, sum, starts-trim block.text)) (
                  segments-Sound total block _ (split_block_segments (trim block.text) (pos n))
                    short (cut-Sound total b (is_structure_boundary b.state block) v)))
          ]

      -- The invariant holds at the end, and no chunk is left open.
      pub blocks-Sound :
          (total : ℕ) (b : Builder) (xs : List DocumentBlock)
          → 64 ≤ n
          → Keeps total b
          → Keeps (total + block_sum xs) (block_loop env n overlap meta doc_version_id b xs)
            × ((block_loop env n overlap meta doc_version_id b xs).state.tokens ≡ 0)
      unfolding block_loop block_sum
      blocks-Sound total b [] lo v = elim (Bool-cases (ltb 0 b.state.tokens)) [
        | inl e ↦
            let (w, empty) = flush-Sound env meta doc_version_id n overlap total b hi v in
            rw e (unfold flush_chunk in (Keeps-resize total _ _ (omega arith) w, empty))
        | inr e ↦ rw e (Keeps-resize total _ b (omega arith) v, ground arith)
      ]
      blocks-Sound total b (x ∷ xs) lo v =
          let (w, empty) =
            blocks-Sound (total + starts false x.text) _ xs lo (block-Sound total b x lo v) in
          (Keeps-resize _ _ _ (omega arith) w, empty)

    pub empty-Sound : Keeps 0 empty_builder
    unfolding token_sum
    empty-Sound = record {
      counted = refl;
      room = omega arith;
      chunks = tt;
      numbered = tt;
      next = refl;
      kept = omega arith;
      exact = λ z. refl;
    }
