-- ===== src/Rag/Outcomes.antt =====
-- What answers and refusals look like: apps/server/internal/rag/biz/steps_rerank.go and steps_generate.go.
use rago_desk.Base.{
  ◌≡◌, ◌∙◌, refl, sym, ◌⊎◌, inl, inr, Bool, true, false, ◌||◌, List, [], ◌∷◌, if◌then◌else◌, null,
  Text, trim, Unicode, Result, ok, err, pure, continue-ok, ok_inj, if-ok, Bool-cases, arith,
}
use mathlib.Core.Path.{subst}
use rago_desk.Rag.Types.{Floats, MessageResponse, RagOptions, Ranked}
use rago_desk.Rag.Context.{ChunkMap}
use rago_desk.Rag.Scoring.{compute_confidence}
use rago_desk.Rag.Retrieval.{Engine, RagContext, unless_refused}
use rago_desk.Rag.Answers.{
  references_from, build_references, cross_encoder_rerank, after_rerank, settle_confidence,
  assess_context, prompt_context, llm_context, build_response, respond,
}
use rago_desk.Rag.Refusals.{Same, cross_encoder_rerank-Keeps}

build_references-null :
    {F : Type 0} (ranked : List (Ranked F)) (chunks : ChunkMap)
    → null ranked ≡ false
    → null (build_references ranked chunks) ≡ false
unfolding build_references references_from
build_references-null [] chunks h = cc
build_references-null (item ∷ ranked) chunks h = refl

module _ {F : Type 0} (fl : Floats F) (opts : RagOptions F) (t : F) where
  -- A context whose answer is the refusal, and one with chunks that are good enough.
  abbrev Refused : RagContext F → Type 0
  Refused rc =
      (rc.should_refuse ≡ true)
      × (rc.llm_model ≡ [])
      × ((rc.reply ≡ []) ⊎ (rc.reply ≡ opts.refusal_message))

  abbrev Good : RagContext F → Type 0
  Good rc = (rc.should_refuse ≡ false) × (null rc.ranked ≡ false) × (fl.lt rc.confidence t ≡ false)

  abbrev Judged : RagContext F → Type 0
  Judged rc = Refused rc ⊎ Good rc

  -- The response is the refusal and no model wrote it, or it has references and enough confidence.
  abbrev pub Honest : MessageResponse F → Type 0
  Honest r =
      ((r.refused ≡ true)
        × (r.model ≡ [])
        × ((r.reply ≡ opts.refusal_message) ⊎ (r.reply ≡ trim opts.refusal_message)))
      ⊎ ((r.refused ≡ false) × (null r.references ≡ false) × (fl.lt r.confidence t ≡ false))

  refusal_text :
      (reply : Text)
      → (reply ≡ []) ⊎ (reply ≡ opts.refusal_message)
      → ((if null (trim reply) then opts.refusal_message else trim reply) ≡ opts.refusal_message)
        ⊎ ((if null (trim reply) then opts.refusal_message else trim reply)
            ≡ trim opts.refusal_message)
  unfolding trim
  refusal_text reply (inl blank) = inl (rw blank refl)
  refusal_text reply (inr same) = elim (Bool-cases (null (trim opts.refusal_message))) [
    | inl blank ↦ inl (rw same (rw blank refl))
    | inr written ↦ inr (rw same (rw written refl))
  ]

module _ ⦃u : Unicode⦄ {W F : Type 0} (fl : Floats F) (opts : RagOptions F)
    (engine : Engine W F) where
  refuse_or_go :
      (t conf : F) (rc : RagContext F) (b refused : Bool)
      → rc.should_refuse ≡ refused
      → (null rc.ranked || fl.lt conf rc.threshold) ≡ b
      → rc.threshold ≡ t
      → rc.reply ≡ []
      → rc.llm_model ≡ []
      → Judged fl opts t (
          if b
          then record rc { confidence = conf; should_refuse = true; reply = opts.refusal_message }
          else record rc { confidence = conf })
  refuse_or_go t conf rc true refused r h thr rep model = inl (refl, model, inr refl)
  refuse_or_go t conf rc false true r h thr rep model = inl (r, model, inl rep)
  refuse_or_go t conf rc false false r h thr rep model =
      inr (r, ground (arith, h), rw (sym thr) (ground (arith, h)))

  either :
      (P : RagContext F → Type 0) (b : Bool) (x y : RagContext F) (wx wy : W) (z : RagContext F)
      → P x
      → P y
      → (if◌then◌else◌ {A = Result (RagContext F) × W} b (ok x, wx) (ok y, wy)).0 ≡ ok z
      → P z
  either P true x y wx wy z px py p = subst P (ok_inj x z p) px
  either P false x y wx wy z px py p = subst P (ok_inj y z p) py

  settle_confidence-Judged :
      (t conf : F) (rc : RagContext F)
      → rc.threshold ≡ t
      → rc.reply ≡ []
      → rc.llm_model ≡ []
      → Judged fl opts t (settle_confidence fl opts engine rc conf)
  unfolding settle_confidence
  settle_confidence-Judged t conf rc = refuse_or_go t conf rc _ _ refl refl

  after_rerank-Same :
      (rc : RagContext F) (conf : F) (second : Result (RagContext F))
      → ((rc' : RagContext F) → second ≡ ok rc' → Same rc rc')
      → Same rc (after_rerank fl opts engine rc conf second).0
  unfolding after_rerank
  after_rerank-Same rc conf (ok rc') same = same rc' refl
  after_rerank-Same rc conf (err e) same = (refl, refl, refl)

  pub assess_context-Judged :
      (t : F) (rc : RagContext F) (w : W) (rc' : RagContext F)
      → rc.threshold ≡ t
      → rc.reply ≡ []
      → rc.llm_model ≡ []
      → (assess_context fl opts engine rc w).0 ≡ ok rc'
      → Judged fl opts t rc'
  unfolding assess_context
  assess_context-Judged t rc w rc' thr rep model =
      let conf = compute_confidence fl rc.ranked rc.top_k in
      let again = cross_encoder_rerank fl opts engine rc w in
      let after = after_rerank fl opts engine rc conf again.0 in
      let (thr', rep', model') =
        after_rerank-Same rc conf again.0 (cross_encoder_rerank-Keeps fl opts engine rc w) in
      either (Judged fl opts t) _ (settle_confidence fl opts engine after.0 after.1)
        (settle_confidence fl opts engine rc conf) again.1 w rc'
        (settle_confidence-Judged t after.1 after.0 (thr' ∙ thr) (rep' ∙ rep) (model' ∙ model))
        (settle_confidence-Judged t conf rc thr rep model)

  prompt_context-Judged :
      (t : F) (rc : RagContext F) (w : W) (rc' : RagContext F)
      → Judged fl opts t rc
      → (prompt_context fl opts engine rc w).0 ≡ ok rc'
      → Judged fl opts t rc'
  unfolding prompt_context unless_refused
  prompt_context-Judged t rc w rc' judged =
      if-ok rc.should_refuse (pure rc) _ w rc'
        (λ _ p. subst (Judged fl opts t) (ok_inj rc rc' p) judged)
        (λ _ p. subst (Judged fl opts t) (ok_inj _ rc' p) judged)

  llm_context-Judged :
      (t : F) (rc : RagContext F) (w : W) (rc' : RagContext F)
      → Judged fl opts t rc
      → (llm_context fl opts engine rc w).0 ≡ ok rc'
      → Judged fl opts t rc'
  unfolding llm_context unless_refused
  llm_context-Judged t rc w rc' (inl (refused, model, text)) =
      if-ok rc.should_refuse (pure rc) _ w rc'
        (λ _ p. subst (Judged fl opts t) (ok_inj rc rc' p) (inl (refused, model, text)))
        (λ going p. cc)
  llm_context-Judged t rc w rc' (inr (going, some_ranked, enough)) =
      if-ok rc.should_refuse (pure rc) _ w rc'
        (λ _ p. subst (Judged fl opts t) (ok_inj rc rc' p) (inr (going, some_ranked, enough)))
        (λ _ p.
          let found = engine.generate opts.llm_timeout_ms _ w in
          let (resp, (_, q)) = continue-ok found.0 _ found.1 rc' p in
          subst (Judged fl opts t) (ok_inj _ rc' q) (inr (going, some_ranked, enough)))

  build_response-Honest :
      (t : F) (rc : RagContext F)
      → Judged fl opts t rc
      → Honest fl opts t (build_response fl opts engine rc)
  unfolding build_response
  build_response-Honest t rc (inl (refused, model, text)) =
      inl (refused, model, refusal_text fl opts t rc.reply text)
  build_response-Honest t rc (inr (going, some_ranked, enough)) =
      inr (going, build_references-null rc.ranked rc.chunks some_ranked, enough)

  pub respond-Honest :
      (t : F) (rc : RagContext F) (w : W) (r : MessageResponse F)
      → Judged fl opts t rc
      → (respond fl opts engine rc w).0 ≡ ok r
      → Honest fl opts t r
  unfolding respond
  respond-Honest t rc w r judged p =
      let (rc1, (p1, q1)) = continue-ok (prompt_context fl opts engine rc w).0 _ _ r p in
      let (rc2, (p2, q2)) = continue-ok _ _ _ r q1 in
      let judged1 = prompt_context-Judged t rc w rc1 judged p1 in
      let judged2 = llm_context-Judged t rc1 _ rc2 judged1 p2 in
      subst (Honest fl opts t) (ok_inj _ r q2) (build_response-Honest t rc2 judged2)
