-- ===== src/Rag/Retrieval.antt =====
-- The steps up to the loading of chunks: apps/server/internal/rag/biz/steps_retrieve.go.
use rago_desk.Base.{
  ℕ, Bool, true, false, not, ◌&&◌, ◌||◌, Option, none, some, List, [], ◌∷◌, ◌++◌, ◌==◌, nat_eq,
  text_eq, if◌then◌else◌, null, any, length, Text, codes, trim, Unicode, ℤ, pos, is_pos, Error,
  Result, ok, err, Exec, pure, raise, ◌>>=◌, bad_request, internal_server,
}
use rago_desk.Rerank.Order.{dedupe_queries}
use rago_desk.Rag.Types.{
  Floats, MessageRequest, BoundBase, VectorSearchRequest, VectorSearchResult, Ranked, LlmRequest,
  LlmResponse, LlmUsage, RagOptions,
}
use rago_desk.Rag.Context.{ChunkMap}
use rago_desk.Rag.Scoring.{
  normalize_query, align_query_weights, derive_retrieve_threshold, rank_and_filter,
}

-- A search of one knowledge base for one vector.
pub record Job (F : Type 0) : Type 0 where
  pub vector : List F
  pub query_weight : F
  pub kb : BoundBase F

-- What the steps call: the repositories, the providers with their timeouts in milliseconds, and the libraries.
-- `schedule` puts the searches, which run beside each other, into the order in which they end, `iterate` is the
-- order in which `range` goes over a map, and `remaining_ms` tells how long it is to a deadline that lies ahead.
pub record Engine (W F : Type 0) : Type 0 where
  pub resolve_bot_knowledge_bases : Text → Exec W (List (BoundBase F))
  pub embed : ℤ → List Text → Exec W (List (List F))
  pub search : ℤ → VectorSearchRequest F → Exec W (List (VectorSearchResult F))
  pub load_chunks : List Text → Exec W ChunkMap
  pub generate : ℤ → LlmRequest F → Exec W LlmResponse
  pub model : Text
  pub schedule : List (Job F) → List (Job F)
  pub iterate : List (Ranked F) → List (Ranked F)
  pub remaining_ms : W → Option ℕ
  pub parse_json : Text → Option (List Text)
  pub is_mark : ℕ → Bool
  pub sha256_hex : Text → Text

pub record RagContext (F : Type 0) : Type 0 where
  pub req : MessageRequest F
  pub top_k : ℤ
  pub threshold : F
  pub kbs : List (BoundBase F)
  pub query_vectors : List (List F)
  pub query_weights : List F
  pub normalized : Text
  pub queries : List Text
  pub ranked : List (Ranked F)
  pub chunks : ChunkMap
  pub prompt : List ℕ
  pub reply : Text
  pub confidence : F
  pub should_refuse : Bool
  pub llm_usage : LlmUsage
  pub llm_model : Text

-- The chunks that the searches found, and the first error.
pub record Gathered (F : Type 0) : Type 0 where
  pub scored : List (Ranked F)
  pub first_err : Option Error

module _ {W F : Type 0} where
  -- `if rc.shouldRefuse { return rc, nil }`
  unfoldable pub unless_refused :
      (RagContext F → Exec W (RagContext F)) → RagContext F → Exec W (RagContext F)
  unless_refused step rc = if rc.should_refuse then pure rc else step rc

module _ ⦃u : Unicode⦄ {W F : Type 0} (fl : Floats F) (opts : RagOptions F)
    (engine : Engine W F) where
  unfoldable pub threshold_of : F → F
  threshold_of asked = if fl.le asked (fl.of_nat 0) then opts.score_threshold else asked

  unfoldable pub new_context : MessageRequest F → RagContext F
  new_context req =
      let query = normalize_query engine.is_mark req.message in
      let normalized = if null query then trim req.message else query in
      let queries = dedupe_queries (normalized ∷ []) in
      record {
        req = req;
        top_k = if is_pos req.top_k then req.top_k else opts.top_k;
        threshold = threshold_of req.threshold;
        kbs = [];
        query_vectors = [];
        query_weights = align_query_weights fl queries (fl.of_nat 1 ∷ []);
        normalized = normalized;
        queries = queries;
        ranked = [];
        chunks = λ id. none;
        prompt = [];
        reply = [];
        confidence = fl.of_nat 0;
        should_refuse = false;
        llm_usage = record {
          prompt_tokens = pos 0;
          completion_tokens = pos 0;
          total_tokens = pos 0;
        };
        llm_model = [];
      }

  unfoldable pub init_context : MessageRequest F → Exec W (RagContext F)
  init_context req =
      if null (trim req.bot_id)
      then raise (bad_request (codes "BOT_ID_MISSING"))
      else if null (trim req.message)
      then raise (bad_request (codes "MESSAGE_MISSING"))
      else pure (new_context (record req { bot_id = trim req.bot_id; message = trim req.message }))

  unfoldable pub resolve_context : RagContext F → Exec W (RagContext F)
  resolve_context = unless_refused λ rc. engine.resolve_bot_knowledge_bases rc.req.bot_id >>= λ kbs.
      pure (record rc { kbs = kbs; should_refuse = null kbs })

  unfoldable pub embed_context : RagContext F → Exec W (RagContext F)
  embed_context = unless_refused λ rc. engine.embed opts.embedding_timeout_ms rc.queries >>= λ vecs.
      if null vecs
      then raise (internal_server (codes "EMBEDDING_EMPTY"))
      else if not (length vecs == length rc.queries)
      then raise (internal_server (codes "EMBEDDING_COUNT_MISMATCH"))
      else pure (record rc { query_vectors = vecs })

  unfoldable pub jobs_of_query : List F → F → List (BoundBase F) → List (Job F)
  jobs_of_query vec weight [] = []
  jobs_of_query vec weight (kb ∷ kbs) =
      let rest = jobs_of_query vec weight kbs in
      if null (trim kb.kb_id)
      then rest
      else record { vector = vec; query_weight = weight; kb = record kb { kb_id = trim kb.kb_id } }
        ∷ rest

  -- The two loops: a query without a weight has the weight 1.
  unfoldable pub jobs_of : List (BoundBase F) → List (List F) → List F → List (Job F)
  jobs_of kbs [] weights = []
  jobs_of kbs (vec ∷ vecs) [] = jobs_of_query vec (fl.of_nat 1) kbs ++ jobs_of kbs vecs []
  jobs_of kbs (vec ∷ vecs) (weight ∷ weights) =
      jobs_of_query vec weight kbs ++ jobs_of kbs vecs weights

  unfoldable pub local_chunks : F → F → F → List (VectorSearchResult F) → List (Ranked F)
  local_chunks min_score weight query_weight [] = []
  local_chunks min_score weight query_weight (item ∷ results) =
      let rest = local_chunks min_score weight query_weight results in
      let vec_score = fl.mul (fl.mul item.score (fl.narrow weight)) query_weight in
      if fl.lt (fl.of_nat 0) min_score && fl.lt item.score min_score
      then rest
      else record {
        result = item;
        vector_score = vec_score;
        text_score = fl.of_nat 0;
        score = vec_score;
      }
        ∷ rest

  unfoldable pub gather : F → Job F → Gathered F → Result (List (VectorSearchResult F)) → Gathered F
  gather min_score job g (err e) = record g {
    first_err = elim g.first_err [ none ↦ some e | some first ↦ some first ];
  }
  gather min_score job g (ok results) =
      let weight = if fl.le job.kb.weight (fl.of_nat 0) then fl.of_nat 1 else job.kb.weight in
      record g { scored = g.scored ++ local_chunks min_score weight job.query_weight results }

  unfoldable pub run_jobs : ℤ → F → Gathered F → List (Job F) → W → Gathered F × W
  run_jobs top_k min_score g [] w = (g, w)
  run_jobs top_k min_score g (job ∷ jobs) w =
      let found =
        engine.search opts.retrieve_timeout_ms
          (record {
            vector = job.vector;
            kb_id = job.kb.kb_id;
            top_k = top_k;
            score_threshold = min_score;
          })
          w in
      run_jobs top_k min_score (gather min_score job g found.0) jobs found.1

  -- An error counts only where no search found anything.
  unfoldable pub unless_failed : Option Error → Bool → RagContext F → Result (RagContext F)
  unless_failed none empty rc = ok rc
  unless_failed (some e) true rc = err e
  unless_failed (some e) false rc = ok rc

  unfoldable pub retrieved : RagContext F → Gathered F → Result (RagContext F)
  retrieved rc g =
      unless_failed g.first_err (null g.scored)
        (record rc { ranked = rank_and_filter fl engine.iterate g.scored rc.top_k })

  unfoldable pub retrieve_context : RagContext F → Exec W (RagContext F)
  retrieve_context = unless_refused λ rc w.
      let min_score = derive_retrieve_threshold fl rc.threshold in
      let jobs = engine.schedule (jobs_of rc.kbs rc.query_vectors rc.query_weights) in
      let (g, w') = run_jobs rc.top_k min_score (record { scored = []; first_err = none }) jobs w in
      (retrieved rc g, w')

  unfoldable pub chunk_ids_of : List Text → List (Ranked F) → List Text
  chunk_ids_of seen [] = []
  chunk_ids_of seen (item ∷ ranked) =
      let skip = chunk_ids_of seen ranked in
      let more = chunk_ids_of (item.result.chunk_id ∷ seen) ranked in
      if null item.result.chunk_id || any (λ id. id == item.result.chunk_id) seen
      then skip
      else item.result.chunk_id ∷ more

  unfoldable pub load_chunks_context : RagContext F → Exec W (RagContext F)
  load_chunks_context = unless_refused λ rc.
      if null rc.ranked
      then pure rc
      else engine.load_chunks (chunk_ids_of [] rc.ranked) >>= λ chunks.
          pure (record rc { chunks = chunks })
