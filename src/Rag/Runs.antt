-- ===== src/Rag/Runs.antt =====
-- The theorems on answers at a concrete desk: the numbers are thousandths.
use rago_desk.Base.{
  ℕ, suc, ◌+◌, ◌-◌, ◌*◌, ◌/◌, ◌≡◌, refl, true, false, ltb, leb, if◌then◌else◌, none, some, [], ◌∷◌,
  ◌==◌, nat_eq, text_eq, map, Text, codes, trim, to_lower, has_prefix, contains_text, ascii, pos,
  Result, ok, err,
}
use rago_desk.Rag.Types.{
  Floats, MessageRequest, MessageResponse, RagOptions, ChunkMeta, utf8_of, utf8, truncate_text,
}
use rago_desk.Rag.Retrieval.{
  Engine, unless_refused, threshold_of, new_context, init_context, resolve_context, embed_context,
  jobs_of_query, jobs_of, local_chunks, gather, run_jobs, unless_failed, retrieved,
  retrieve_context, chunk_ids_of, load_chunks_context,
}
use rago_desk.Rag.Scoring.{
  fields_by, token_loop, token_set, query_loop, normalize_query, max_float32, combine_scores,
  derive_retrieve_threshold, count_matched, overlap_score, sum_scores, coverage_of, clamp,
  compute_confidence, insert_ranked, sort_ranked, keep_best, best_by_chunk, rank_and_filter,
  align_query_weights,
}
use rago_desk.Rerank.Order.{dedupe_loop, dedupe_queries}
use rago_desk.Rag.Answers.{
  meta_of, pick_string, rescore, rerank_context, cross_encoder_rerank, after_rerank,
  settle_confidence, assess_context, prompt_context, llm_context, build_response, references_from,
  build_references, respond, send_message,
}
use rago_desk.Rag.Outcomes.{Honest}
use rago_desk.Rag.Promises.{send_message-Honest, send_message-unbound}

abbrev thousandths : Floats ℕ
thousandths = record {
  lt = ltb;
  le = leb;
  add = λ a b. a + b;
  sub = λ a b. a - b;
  mul = λ a b. a * b / 1000;
  div = λ a b. if b == 0 then 0 else a * 1000 / b;
  of_nat = λ n. n * 1000;
  lit = λ t. if t == codes "0.8" then 800 else if t == codes "0.2" then 200 else 1200;
  narrow = λ x. x;
}

abbrev options : RagOptions ℕ
options = record {
  top_k = pos 5;
  score_threshold = 200;
  retrieve_timeout_ms = pos 500;
  llm_timeout_ms = pos 2000;
  embedding_timeout_ms = pos 2000;
  rerank_weight = 300;
  llm_temperature = 200;
  llm_max_tokens = pos 512;
  system_prompt = codes "Answer.";
  refusal_message = codes "I do not know.";
}

abbrev warranty : ChunkMeta
warranty = record {
  chunk_id = codes "c";
  document_id = codes "d";
  document_version_id = codes "v";
  kb_id = codes "k";
  content = codes "warranty is long";
  section = [];
  page_no = 0;
  source_uri = [];
}

-- The world counts the calls.
abbrev desk : Engine ℕ ℕ
desk = record {
  resolve_bot_knowledge_bases = λ id w. (
    ok (if id == codes "b" then record { kb_id = codes "k"; weight = 1000 } ∷ [] else []),
    suc w,
  );
  embed = λ t qs w. (ok (map (λ q. []) qs), suc w);
  search = λ t req w. (
    ok (
        record {
          chunk_id = codes "c";
          document_id = codes "d";
          document_version_id = codes "v";
          kb_id = codes "k";
          score = 900;
        }
        ∷ []),
    suc w,
  );
  load_chunks = λ ids w. (ok (λ id. if id == codes "c" then some warranty else none), suc w);
  generate = λ t req w. (
    ok (record {
      text = codes " two years ";
      usage = record { prompt_tokens = pos 9; completion_tokens = pos 2; total_tokens = pos 11 };
    }),
    suc w,
  );
  model = codes "m";
  schedule = λ jobs. jobs;
  iterate = λ chunks. chunks;
  remaining_ms = λ w. none;
  parse_json = λ t. none;
  is_mark = λ r. r == 63;
  sha256_hex = λ t. t;
}

abbrev question : Text → MessageRequest ℕ
question bot = record {
  session_id = [];
  bot_id = bot;
  message = codes "Warranty?";
  top_k = pos 0;
  threshold = 0;
}

abbrev response_of : Result (MessageResponse ℕ) → MessageResponse ℕ
response_of (ok r) = r
response_of (err e) = record {
  reply = [];
  confidence = 0;
  references = [];
  refused = true;
  model = [];
  usage = record { prompt_tokens = pos 0; completion_tokens = pos 0; total_tokens = pos 0 };
}

abbrev answered : MessageResponse ℕ
answered =
    response_of (send_message ⦃u = ascii⦄ thousandths options desk (question (codes " b")) 0).0

send_message_run :
    (answered.reply ≡ codes "two years") × (answered.refused ≡ false) × (answered.model ≡ codes "m")
unfolding unless_refused threshold_of new_context init_context resolve_context embed_context
    jobs_of_query jobs_of local_chunks gather run_jobs unless_failed retrieved retrieve_context
    chunk_ids_of load_chunks_context meta_of pick_string rescore rerank_context cross_encoder_rerank
    after_rerank settle_confidence assess_context prompt_context llm_context build_response
    references_from build_references respond send_message fields_by token_loop token_set query_loop
    normalize_query max_float32 combine_scores derive_retrieve_threshold count_matched overlap_score
    sum_scores coverage_of clamp compute_confidence insert_ranked sort_ranked keep_best
    best_by_chunk rank_and_filter align_query_weights utf8_of utf8 truncate_text dedupe_loop
    dedupe_queries trim to_lower has_prefix contains_text
send_message_run = (refl, refl, refl)

send_message-Honest_example :
    Honest thousandths options (threshold_of ⦃u = ascii⦄ thousandths options desk 0) answered
unfolding unless_refused threshold_of new_context init_context resolve_context embed_context
    jobs_of_query jobs_of local_chunks gather run_jobs unless_failed retrieved retrieve_context
    chunk_ids_of load_chunks_context meta_of pick_string rescore rerank_context cross_encoder_rerank
    after_rerank settle_confidence assess_context prompt_context llm_context build_response
    references_from build_references respond send_message fields_by token_loop token_set query_loop
    normalize_query max_float32 combine_scores derive_retrieve_threshold count_matched overlap_score
    sum_scores coverage_of clamp compute_confidence insert_ranked sort_ranked keep_best
    best_by_chunk rank_and_filter align_query_weights utf8_of utf8 truncate_text dedupe_loop
    dedupe_queries trim to_lower has_prefix contains_text
send_message-Honest_example =
    send_message-Honest ⦃u = ascii⦄ thousandths options desk (question (codes " b")) 0 answered refl

send_message-unbound_example :
    send_message ⦃u = ascii⦄ thousandths options desk (question (codes "x")) 0 ≡ (
      ok (record {
        reply = codes "I do not know.";
        confidence = 0;
        references = [];
        refused = true;
        model = [];
        usage = record { prompt_tokens = pos 0; completion_tokens = pos 0; total_tokens = pos 0 };
      }),
      1,
    )
unfolding trim
send_message-unbound_example =
    send_message-unbound ⦃u = ascii⦄ thousandths options desk (question (codes "x")) 0 1 refl refl
      refl
