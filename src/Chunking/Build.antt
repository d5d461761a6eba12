-- ===== src/Chunking/Build.antt =====
-- The chunks of apps/server/internal/knowledge/biz/chunking.go, and the types that it shares with
-- metadata.go and knowledge.go beside it.
use rago_desk.Base.{
  ℕ, zero, suc, ◌+◌, ◌-◌, ◌/◌, ◌%◌, ◌^◌, Bool, not, ◌&&◌, ◌||◌, List, [], ◌∷◌, ◌++◌, ltb, ◌==◌,
  if◌then◌else◌, null, Text, codes, trim, Unicode, nat_eq, text_eq, ℤ, pos, pos_part,
}
use rago_desk.Chunking.Tokens.{clamp_int, estimate_token_count, tail_by_tokens, detect_language}
use rago_desk.Chunking.Sentences.{join, split_block_segments}

pub record DocumentMeta : Type 0 where
  pub title : Text
  pub source_uri : Text
  pub source_type : Text

pub record DocumentBlock : Type 0 where
  pub text : Text
  pub section : Text
  pub page_no : ℕ

-- An int32 is its bit pattern, a number below 2^32.
pub record DocChunk : Type 0 where
  pub id : Text
  pub chunk_index : ℕ
  pub content : Text
  pub token_count : ℕ
  pub content_hash : Text
  pub language : Text
  pub section : Text
  pub page_no : ℕ
  pub source_uri : Text
  pub created_at : ℕ

-- uuid.NewSHA1 in the namespace OID, the hex digest of SHA-256, and the clock at the flush of each
-- chunk.
pub record ChunkEnv : Type 0 where
  pub uuid_sha1 : Text → Text
  pub sha256_hex : Text → Text
  pub clock : ℕ → ℕ

pub record ChunkState : Type 0 where
  pub parts : List Text
  pub tokens : ℕ
  pub section : Text
  pub page_no : ℕ

abbrev pub empty_state : ChunkState
empty_state = record { parts = []; tokens = 0; section = []; page_no = 0 }

-- `%d` of a number that is below 10^fuel.
unfoldable pub decimal : ℕ → ℕ → Text
decimal zero n = []
decimal (suc fuel) n =
    let rest = decimal fuel (n / 10) in (if ltb n 10 then [] else rest) ++ (b'0' + n % 10) ∷ []

unfoldable pub format_int32 : ℕ → Text
unfolding decimal
format_int32 n = if ltb n (2 ^ 31) then decimal 10 n else b'-' ∷ decimal 10 (2 ^ 32 - n)

unfoldable pub is_structure_boundary : ChunkState → DocumentBlock → Bool
is_structure_boundary state block =
    not (state.tokens == 0)
    && ((not (block.page_no == 0) && (state.page_no == 0 || not (state.page_no == block.page_no)))
        || (not (null block.section)
            && (null state.section || not (state.section == block.section))))

-- The output, the open chunk and the index of the next chunk.
pub record Builder : Type 0 where
  pub out : List DocChunk
  pub state : ChunkState
  pub index : ℕ

module _ ⦃u : Unicode⦄ where
  unfoldable pub add_part : ChunkState → Text → ChunkState
  add_part s raw =
      let text = trim raw in
      if null text
      then s
      else record s { parts = s.parts ++ text ∷ []; tokens = s.tokens + estimate_token_count text }

  -- The open chunk after a flush for want of room: it begins with the tail of the flushed content,
  -- if that leaves room for the segment.
  unfoldable pub start_overlap : ℕ → ℕ → ℕ → Text → Text → ℕ → ChunkState → ChunkState
  start_overlap chunk_size overlap segment_tokens content section page_no state =
      let overlap_text = tail_by_tokens content overlap in
      let opened = record state { section = section; page_no = page_no } in
      if ltb 0 overlap
        && not (null overlap_text)
        && not (ltb chunk_size (estimate_token_count overlap_text + segment_tokens))
      then add_part opened overlap_text
      else state

  -- The section and page of a chunk are those of the block that begins it.
  unfoldable pub enter_block : DocumentBlock → ChunkState → ChunkState
  enter_block block s =
      if s.tokens == 0 then record s { section = block.section; page_no = block.page_no } else s

abbrev pub empty_builder : Builder
empty_builder = record { out = []; state = empty_state; index = 0 }

-- The text of a chunk: its parts, with an empty line between them.
unfoldable pub chunk_content : List Text → Text
chunk_content parts = trim (join (codes "\n\n") parts)

module _ ⦃u : Unicode⦄ (env : ChunkEnv) where
  unfoldable pub deterministic_chunk_id : Text → ℕ → Text
  unfolding format_int32
  deterministic_chunk_id doc_version_id chunk_index =
      env.uuid_sha1 (doc_version_id ++ (b':' ∷ format_int32 chunk_index))

  unfoldable pub new_chunk : DocumentMeta → Text → ChunkState → ℕ → Text → DocChunk
  new_chunk meta doc_version_id state index content = record {
    id = deterministic_chunk_id doc_version_id index;
    chunk_index = index;
    content = content;
    token_count = estimate_token_count content % 2 ^ 32;
    content_hash = env.sha256_hex content;
    language = detect_language content;
    section = state.section;
    page_no = state.page_no;
    source_uri = meta.source_uri;
    created_at = env.clock index;
  }

  -- `flushChunkWithContent`: the builder, and the content, section and page of the chunk.
  unfoldable pub flush_chunk_with_content :
      DocumentMeta → Text → Builder → Builder × Text × Text × ℕ
  flush_chunk_with_content meta doc_version_id b =
      let content = chunk_content b.state.parts in
      let chunk = new_chunk meta doc_version_id b.state b.index content in
      if b.state.tokens == 0
      then (b, [], [], 0)
      else if null content
      then (record b { state = empty_state }, [], [], 0)
      else (
        record { out = b.out ++ chunk ∷ []; state = empty_state; index = (b.index + 1) % 2 ^ 32 },
        content,
        b.state.section,
        b.state.page_no,
      )

  unfoldable pub flush_chunk : DocumentMeta → Text → Builder → Builder
  flush_chunk meta doc_version_id b = (flush_chunk_with_content meta doc_version_id b).0

  -- `state.tokens > 0 && state.tokens+segmentTokens > chunkSize`: flush and overlap.
  unfoldable pub make_room : ℕ → ℕ → DocumentMeta → Text → ℕ → Builder → Builder
  make_room chunk_size overlap meta doc_version_id segment_tokens b =
      let (flushed, content, section, page_no) = flush_chunk_with_content meta doc_version_id b in
      if ltb 0 b.state.tokens && ltb chunk_size (b.state.tokens + segment_tokens)
      then record flushed {
        state =
            start_overlap chunk_size overlap segment_tokens content section page_no flushed.state;
      }
      else b

  -- One round of the inner loop.
  unfoldable pub add_segment :
      ℕ → ℕ → DocumentMeta → Text → DocumentBlock → Builder → Text → Builder
  add_segment chunk_size overlap meta doc_version_id block b raw =
      let segment = trim raw in
      let roomy =
        make_room chunk_size overlap meta doc_version_id (estimate_token_count segment) b in
      if null segment
      then b
      else record roomy { state = add_part (enter_block block roomy.state) segment }

  unfoldable pub add_segments :
      ℕ → ℕ → DocumentMeta → Text → DocumentBlock → Builder → List Text → Builder
  add_segments chunk_size overlap meta doc_version_id block b [] = b
  add_segments chunk_size overlap meta doc_version_id block b (x ∷ xs) =
      add_segments chunk_size overlap meta doc_version_id block
        (add_segment chunk_size overlap meta doc_version_id block b x) xs

  -- One round of the outer loop.
  unfoldable pub add_block : ℕ → ℕ → DocumentMeta → Text → Builder → DocumentBlock → Builder
  add_block chunk_size overlap meta doc_version_id b block =
      let raw_text = trim block.text in
      let cut =
        if is_structure_boundary b.state block then flush_chunk meta doc_version_id b else b in
      let segments = split_block_segments raw_text (pos chunk_size) in
      if null raw_text
      then b
      else add_segments chunk_size overlap meta doc_version_id block cut segments

  unfoldable pub block_loop : ℕ → ℕ → DocumentMeta → Text → Builder → List DocumentBlock → Builder
  block_loop chunk_size overlap meta doc_version_id b [] =
      if ltb 0 b.state.tokens then flush_chunk meta doc_version_id b else b
  block_loop chunk_size overlap meta doc_version_id b (x ∷ xs) =
      block_loop chunk_size overlap meta doc_version_id
        (add_block chunk_size overlap meta doc_version_id b x) xs

  unfoldable pub build_chunks : List DocumentBlock → DocumentMeta → Text → ℤ → ℤ → List DocChunk
  build_chunks blocks meta doc_version_id chunk_size overlap =
      let size = pos_part (clamp_int chunk_size (pos 64) (pos 8192)) in
      let kept = pos_part (clamp_int overlap (pos 0) (pos (size - 1))) in
      (block_loop size kept meta doc_version_id empty_builder blocks).out
