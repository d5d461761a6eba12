-- ===== src/Rag/Promises.antt =====
-- What the pipeline of apps/server/internal/rag/biz/pipeline.go promises.
use rago_desk.Base.{
  ◌≡◌, ◌∙◌, refl, sym, ap, true, false, [], if◌then◌else◌, null, pos, trim, Unicode, ok,
  continue-ok, ok_inj, if-ok,
}
use rago_desk.Rag.Types.{Floats, MessageRequest, MessageResponse, RagOptions}
use rago_desk.Rag.Scoring.{compute_confidence}
use rago_desk.Rag.Retrieval.{
  unless_refused, Engine, RagContext, threshold_of, new_context, init_context, resolve_context,
  embed_context, retrieve_context, load_chunks_context,
}
use rago_desk.Rag.Answers.{
  cross_encoder_rerank, after_rerank, settle_confidence, respond, prompt_context, llm_context,
  build_response, build_references, references_from, rerank_context, assess_context, send_message,
}
use rago_desk.Rag.Refusals.{
  resolve_context-Keeps, embed_context-Keeps, retrieve_context-Keeps, load_chunks_context-Keeps,
  rerank_context-Keeps,
}
use rago_desk.Rag.Outcomes.{Honest, assess_context-Judged, respond-Honest}

module _ ⦃u : Unicode⦄ {W F : Type 0} (fl : Floats F) (opts : RagOptions F)
    (engine : Engine W F) where
  init_context-fresh :
      (req : MessageRequest F) (w : W) (rc : RagContext F)
      → (init_context fl opts engine req w).0 ≡ ok rc
      → (rc.threshold ≡ threshold_of fl opts engine req.threshold)
        × (rc.reply ≡ [])
        × (rc.llm_model ≡ [])
  unfolding init_context new_context
  init_context-fresh req w rc =
      if-ok (null (trim req.bot_id)) _ _ w rc (λ _ p. cc)
        (λ _.
          if-ok (null (trim req.message)) _ _ w rc (λ _ p. cc)
            (λ _ p.
              let q = sym (ok_inj _ rc p) in
              (ap (λ x. x.threshold) q, ap (λ x. x.reply) q, ap (λ x. x.llm_model) q)))

-- Whatever the repositories, the providers and the schedule of the searches do, if a message is answered at all: the
-- answer is marked as refused, no model is named and its text is the refusal message of the options or that message
-- trimmed; or it is not, and it has references and a confidence that is not below the threshold of the request,
-- where that is positive, or else of the options.
pub send_message-Honest :
    {W F : Type 0}
    → ⦃u : Unicode⦄
    → (fl : Floats F) (opts : RagOptions F) (engine : Engine W F) (req : MessageRequest F) (w : W)
      (r : MessageResponse F)
    → (send_message fl opts engine req w).0 ≡ ok r
    → Honest fl opts (threshold_of fl opts engine req.threshold) r
unfolding send_message
send_message-Honest fl opts engine req w r p =
    let (rc0, (p0, q0)) = continue-ok (init_context fl opts engine req w).0 _ _ r p in
    let (rc1, (p1, q1)) = continue-ok _ _ _ r q0 in
    let (rc2, (p2, q2)) = continue-ok _ _ _ r q1 in
    let (rc3, (p3, q3)) = continue-ok _ _ _ r q2 in
    let (rc4, (p4, q4)) = continue-ok _ _ _ r q3 in
    let (rc5, (p5, q5)) = continue-ok _ _ _ r q4 in
    let (rc6, (p6, q6)) = continue-ok _ _ _ r q5 in
    let (t0, r0, m0) = init_context-fresh fl opts engine req w rc0 p0 in
    let (t1, r1, m1) = resolve_context-Keeps fl opts engine rc0 _ rc1 p1 in
    let (t2, r2, m2) = embed_context-Keeps fl opts engine rc1 _ rc2 p2 in
    let (t3, r3, m3) = retrieve_context-Keeps fl opts engine rc2 _ rc3 p3 in
    let (t4, r4, m4) = load_chunks_context-Keeps fl opts engine rc3 _ rc4 p4 in
    let (t5, r5, m5) = rerank_context-Keeps fl opts engine rc4 _ rc5 p5 in
    let judged =
      assess_context-Judged fl opts engine _ rc5 _ rc6 (t5 ∙ t4 ∙ t3 ∙ t2 ∙ t1 ∙ t0)
        (r5 ∙ r4 ∙ r3 ∙ r2 ∙ r1 ∙ r0) (m5 ∙ m4 ∙ m3 ∙ m2 ∙ m1 ∙ m0) p6 in
    respond-Honest fl opts engine _ rc6 _ r judged q6

-- Where both texts of a message are there and its bot has no knowledge base: the answer is the refusal, with no
-- references and no confidence, and nothing is called behind the look at the bases.
pub send_message-unbound :
    {W F : Type 0}
    → ⦃u : Unicode⦄
    → (fl : Floats F) (opts : RagOptions F) (engine : Engine W F) (req : MessageRequest F)
      (w w' : W)
    → null (trim req.bot_id) ≡ false
    → null (trim req.message) ≡ false
    → engine.resolve_bot_knowledge_bases (trim req.bot_id) w ≡ (ok [], w')
    → send_message fl opts engine req w ≡ (
      ok (record {
        reply =
            if null (trim opts.refusal_message)
            then opts.refusal_message
            else trim opts.refusal_message;
        confidence = fl.of_nat 0;
        references = [];
        refused = true;
        model = [];
        usage = record { prompt_tokens = pos 0; completion_tokens = pos 0; total_tokens = pos 0 };
      }),
      w',
    )
unfolding send_message init_context new_context resolve_context embed_context retrieve_context
    load_chunks_context rerank_context assess_context cross_encoder_rerank after_rerank
    settle_confidence compute_confidence respond prompt_context llm_context build_response
    build_references references_from unless_refused
send_message-unbound fl opts engine req w w' bot asked unbound = rw (bot, asked, unbound) refl
