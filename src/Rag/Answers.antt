-- ===== src/Rag/Answers.antt =====
-- The steps from the ranking to the answer: apps/server/internal/rag/biz/steps_rerank.go, steps_generate.go
-- and pipeline.go.
use rago_desk.Base.{
  ℕ, suc, ◌/◌, Bool, true, ◌&&◌, ◌||◌, Option, none, some, List, [], ◌∷◌, ◌++◌, ltb, ◌==◌, nat_eq,
  text_eq, if◌then◌else◌, null, map, length, take, drop, Text, codes, trim, to_lower, contains_text,
  Unicode, pos, pos_part, Result, ok, err, Exec, pure, ◌>>=◌,
}
use rago_desk.Chunking.Build.{format_int32}
use rago_desk.Documents.Uploads.{last_index}
use rago_desk.Rerank.Order.{ScoredChunk, sanitize_string_list, apply_rerank_order}
use rago_desk.Rag.Types.{
  Floats, MessageRequest, Ranked, ChunkMeta, Reference, MessageResponse, RagOptions, utf8,
  truncate_text,
}
use rago_desk.Rag.Context.{ChunkMap, build_prompt}
use rago_desk.Rag.Scoring.{
  fields_by, max_float32, combine_scores, overlap_score, compute_confidence, sort_ranked,
}
use rago_desk.Rag.Retrieval.{
  Engine, RagContext, unless_refused, init_context, resolve_context, embed_context,
  retrieve_context, load_chunks_context,
}

-- `chunks[id]`, which is empty on a key that is missing.
unfoldable pub meta_of : Option ChunkMeta → ChunkMeta
meta_of (some meta) = meta
meta_of none = record {
  chunk_id = [];
  document_id = [];
  document_version_id = [];
  kb_id = [];
  content = [];
  section = [];
  page_no = 0;
  source_uri = [];
}

unfoldable pub pick_string : Text → Text → Text
pick_string primary fallback = if null (trim primary) then fallback else primary

unfoldable pub first_index : ℕ → Text → Option ℕ
first_index c [] = none
first_index c (d ∷ s) =
    let later = first_index c s in
    if d == c then some 0 else elim later [ none ↦ none | some i ↦ some (suc i) ]

-- `text[start : end+1]` where `end > start`.
unfoldable pub bracketed : Text → Option Text
bracketed text = elim (first_index 91 text) [
  | none ↦ none
  | some start ↦ elim (last_index 93 text) [
    | none ↦ none
    | some end ↦ if ltb start end then some (drop start (take (suc end) text)) else none
  ]
]

unfoldable pub is_separator : ℕ → Bool
is_separator r = r == 10 || r == 13 || r == 44 || r == 59 || r == 32

module _ {F : Type 0} where
  unfoldable pub passages : ℕ → List (Ranked F) → ChunkMap → List ℕ
  passages index [] chunks = []
  passages index (item ∷ ranked) chunks =
      let meta = meta_of (chunks item.result.chunk_id) in
      codes "["
      ++ format_int32 index
      ++ codes "] chunk_id="
      ++ utf8 item.result.chunk_id
      ++ (if null meta.section then [] else codes " section=" ++ utf8 meta.section)
      ++ codes "\n"
      ++ truncate_text meta.content 400
      ++ codes "\n\n"
      ++ passages (suc index) ranked chunks

  unfoldable pub build_cross_encoder_prompt : Text → List (Ranked F) → ChunkMap → List ℕ
  build_cross_encoder_prompt question ranked chunks =
      codes "Rank the following passages by relevance to the question. "
      ++ codes "Return a JSON array of chunk_id in descending order.\n\n"
      ++ codes "Question: "
      ++ utf8 (trim question)
      ++ codes "\n\nPassages:\n"
      ++ passages 1 ranked chunks

  -- The chunks with what is read and what is moved along.
  unfoldable pub reorder : List Text → List (Ranked F) → List (Ranked F)
  reorder order ranked =
      map (λ (x : ScoredChunk (Ranked F)). x.scores)
        (apply_rerank_order order
          (map (λ (r : Ranked F). record { chunk_id = r.result.chunk_id; scores = r }) ranked))

  unfoldable pub references_from : ℕ → List (Ranked F) → ChunkMap → List (Reference F)
  references_from rank [] chunks = []
  references_from rank (item ∷ ranked) chunks =
      let meta = meta_of (chunks item.result.chunk_id) in
      record {
        document_id = pick_string meta.document_id item.result.document_id;
        document_version_id = pick_string meta.document_version_id item.result.document_version_id;
        chunk_id = item.result.chunk_id;
        score = item.score;
        rank = rank;
        snippet = truncate_text meta.content 200;
      }
      ∷ references_from (suc rank) ranked chunks

  unfoldable pub build_references : List (Ranked F) → ChunkMap → List (Reference F)
  build_references ranked chunks = references_from 1 ranked chunks

module _ ⦃u : Unicode⦄ {W F : Type 0} (fl : Floats F) (opts : RagOptions F)
    (engine : Engine W F) where
  unfoldable pub rescore : RagContext F → Ranked F → Ranked F
  rescore rc chunk =
      let meta = meta_of (rc.chunks chunk.result.chunk_id) in
      let plain = overlap_score fl rc.normalized meta.content in
      let section = overlap_score fl rc.normalized meta.section in
      let text_score =
        if fl.lt (fl.of_nat 0) section
        then max_float32 fl plain (fl.mul section (fl.lit (codes "1.2")))
        else plain in
      record chunk {
        text_score = text_score;
        score = combine_scores fl chunk.vector_score text_score opts.rerank_weight;
      }

  unfoldable pub rerank_context : RagContext F → Exec W (RagContext F)
  rerank_context =
      unless_refused λ rc. pure (record rc { ranked = sort_ranked fl (map (rescore rc) rc.ranked) })

  unfoldable pub parse_rerank_order : Text → List Text
  parse_rerank_order raw =
      let text = trim raw in
      let parts = sanitize_string_list (fields_by is_separator [] text) in
      let inner : List Text = elim (bracketed text) [
        | none ↦ parts
        | some array ↦ elim (engine.parse_json array) [
          | none ↦ parts
          | some parsed ↦ sanitize_string_list parsed
        ]
      ] in
      if null text then [] else elim (engine.parse_json text) [
        | none ↦ inner
        | some parsed ↦ sanitize_string_list parsed
      ]

  -- `llmTimeoutMs / 5` between 1200 and 2500, and no longer than what remains to the deadline.
  unfoldable pub cross_timeout : Option ℕ → ℕ
  cross_timeout remaining =
      let fifth = pos_part opts.llm_timeout_ms / 5 in
      let timeout = if ltb fifth 1200 then 1200 else if ltb 2500 fifth then 2500 else fifth in
      elim remaining [ none ↦ timeout | some left ↦ if ltb left timeout then left else timeout ]

  unfoldable pub cross_prompt : RagContext F → List ℕ
  cross_prompt rc = build_cross_encoder_prompt rc.req.message (take 8 rc.ranked) rc.chunks

  unfoldable pub ask_order : ℕ → RagContext F → Exec W (RagContext F)
  ask_order timeout rc =
      engine.generate (pos timeout) (record {
        system = codes "You are a ranking model that orders passages by relevance to a question.";
        prompt = cross_prompt rc;
        temperature = fl.of_nat 0;
        max_tokens = pos 256;
      })
      >>= λ resp. pure (record rc { ranked = reorder (parse_rerank_order resp.text) rc.ranked })

  unfoldable pub cross_encode : RagContext F → Exec W (RagContext F)
  cross_encode rc w =
      let timeout = cross_timeout (engine.remaining_ms w) in
      (if null (cross_prompt rc) || timeout == 0 then pure rc else ask_order timeout rc) w

  unfoldable pub cross_encoder_rerank : RagContext F → Exec W (RagContext F)
  cross_encoder_rerank rc =
      if ltb (length rc.ranked) 2 || contains_text (codes "template") (to_lower (trim engine.model))
      then pure rc
      else cross_encode rc

  -- An error of the second ranking is dropped.
  unfoldable pub after_rerank : RagContext F → F → Result (RagContext F) → RagContext F × F
  after_rerank rc conf (ok rc') = (rc', compute_confidence fl rc'.ranked rc'.top_k)
  after_rerank rc conf (err e) = (rc, conf)

  unfoldable pub settle_confidence : RagContext F → F → RagContext F
  settle_confidence rc conf =
      if null rc.ranked || fl.lt conf rc.threshold
      then record rc { confidence = conf; should_refuse = true; reply = opts.refusal_message }
      else record rc { confidence = conf }

  unfoldable pub assess_context : RagContext F → Exec W (RagContext F)
  assess_context rc w =
      let conf = compute_confidence fl rc.ranked rc.top_k in
      let (second, w') = cross_encoder_rerank rc w in
      let (rc', conf') = after_rerank rc conf second in
      if ltb 1 (length rc.ranked) && fl.lt conf rc.threshold
      then (ok (settle_confidence rc' conf'), w')
      else (ok (settle_confidence rc conf), w)

  unfoldable pub prompt_context : RagContext F → Exec W (RagContext F)
  prompt_context = unless_refused λ rc.
      pure
        (record rc { prompt = build_prompt engine.sha256_hex rc.req.message rc.ranked rc.chunks })

  unfoldable pub llm_context : RagContext F → Exec W (RagContext F)
  llm_context = unless_refused λ rc.
      engine.generate opts.llm_timeout_ms (record {
        system = opts.system_prompt;
        prompt = rc.prompt;
        temperature = opts.llm_temperature;
        max_tokens = opts.llm_max_tokens;
      })
      >>= λ resp.
          pure
            (record rc { reply = trim resp.text; llm_usage = resp.usage; llm_model = engine.model })

  unfoldable pub build_response : RagContext F → MessageResponse F
  build_response rc = record {
    reply = if null (trim rc.reply) then opts.refusal_message else trim rc.reply;
    confidence = rc.confidence;
    references = build_references rc.ranked rc.chunks;
    refused = rc.should_refuse;
    model = rc.llm_model;
    usage = rc.llm_usage;
  }

  -- The steps behind the assessment.
  unfoldable pub respond : RagContext F → Exec W (MessageResponse F)
  respond rc = prompt_context rc >>= λ rc1. llm_context rc1 >>= λ rc2. pure (build_response rc2)

  -- The steps of the graph, each behind the one before.
  unfoldable pub send_message : MessageRequest F → Exec W (MessageResponse F)
  send_message req = init_context fl opts engine req >>= λ rc0.
      resolve_context fl opts engine rc0 >>= λ rc1. embed_context fl opts engine rc1 >>= λ rc2.
      retrieve_context fl opts engine rc2 >>= λ rc3.
      load_chunks_context fl opts engine rc3 >>= λ rc4.
      rerank_context rc4 >>= λ rc5. assess_context rc5 >>= λ rc6. respond rc6
