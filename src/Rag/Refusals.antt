-- ===== src/Rag/Refusals.antt =====
-- When a message is refused: apps/server/internal/rag/biz/steps_rerank.go and steps_generate.go.
use rago_desk.Base.{
  pos, ℕ, ◌≡◌, ◌∙◌, refl, sym, ap, Bool, true, false, Option, none, some, [], null, length, Unicode,
  Error, not, ◌==◌, nat_eq, ok, Exec, pure, continue-ok, ok_inj, if-ok,
}
use rago_desk.Rag.Types.{Floats, RagOptions}
use rago_desk.Rag.Retrieval.{
  Engine, RagContext, unless_refused, resolve_context, embed_context, unless_failed, retrieved,
  chunk_ids_of, retrieve_context, load_chunks_context,
}
use rago_desk.Rag.Answers.{rerank_context, ask_order, cross_encode, cross_encoder_rerank}

module _ {F : Type 0} where
  -- What no step before the assessment touches.
  abbrev pub Same : RagContext F → RagContext F → Type 0
  Same rc rc' =
      (rc'.threshold ≡ rc.threshold) × (rc'.reply ≡ rc.reply) × (rc'.llm_model ≡ rc.llm_model)

  pub Same-trans : (a b c : RagContext F) → Same a b → Same b c → Same a c
  Same-trans a b c (t, r, m) (t', r', m') = (t' ∙ t, r' ∙ r, m' ∙ m)

  pub Same-ok : (rc a b : RagContext F) → Same rc a → ok a ≡ ok b → Same rc b
  Same-ok rc a b (t, r, m) p =
      let q = sym (ok_inj a b p) in
      (ap (λ x. x.threshold) q ∙ t, ap (λ x. x.reply) q ∙ r, ap (λ x. x.llm_model) q ∙ m)

module _ {W F : Type 0} where
  abbrev pub Keeps : (RagContext F → Exec W (RagContext F)) → Type 0
  Keeps step =
      (rc : RagContext F) (w : W) (rc' : RagContext F) → (step rc w).0 ≡ ok rc' → Same rc rc'

  unless_refused-Keeps :
      (step : RagContext F → Exec W (RagContext F)) → Keeps step → Keeps (unless_refused step)
  unfolding unless_refused
  unless_refused-Keeps step keeps rc w rc' =
      if-ok rc.should_refuse (pure rc) (step rc) w rc' (λ _. Same-ok rc rc rc' (refl, refl, refl))
        (λ _. keeps rc w rc')

module _ ⦃u : Unicode⦄ {W F : Type 0} (fl : Floats F) (opts : RagOptions F)
    (engine : Engine W F) where
  pub resolve_context-Keeps : Keeps (resolve_context fl opts engine)
  unfolding resolve_context
  resolve_context-Keeps = unless_refused-Keeps _ λ rc w rc' p.
      let found = engine.resolve_bot_knowledge_bases rc.req.bot_id w in
      let (kbs, (_, q)) = continue-ok found.0 _ found.1 rc' p in
      Same-ok rc _ rc' (refl, refl, refl) q

  pub embed_context-Keeps : Keeps (embed_context fl opts engine)
  unfolding embed_context
  embed_context-Keeps = unless_refused-Keeps _ λ rc w rc' p.
      let found = engine.embed opts.embedding_timeout_ms rc.queries w in
      let (vecs, (_, q)) = continue-ok found.0 _ found.1 rc' p in
      if-ok (null vecs) _ _ found.1 rc' (λ _ e. cc)
        (λ _ q1.
          if-ok (not (length vecs == length rc.queries)) _ _ found.1 rc' (λ _ e. cc)
            (λ _ q2. Same-ok rc _ rc' (refl, refl, refl) q2) q1)
        q

  unless_failed-Same :
      (first : Option Error) (empty : Bool) (rc a b : RagContext F)
      → Same rc a
      → unless_failed fl opts engine first empty a ≡ ok b
      → Same rc b
  unfolding unless_failed
  unless_failed-Same none empty rc a b same p = Same-ok rc a b same p
  unless_failed-Same (some e) true rc a b same p = cc
  unless_failed-Same (some e) false rc a b same p = Same-ok rc a b same p

  pub retrieve_context-Keeps : Keeps (retrieve_context fl opts engine)
  unfolding retrieve_context retrieved
  retrieve_context-Keeps =
      unless_refused-Keeps _ λ rc w rc' p. unless_failed-Same _ _ rc _ rc' (refl, refl, refl) p

  pub load_chunks_context-Keeps : Keeps (load_chunks_context fl opts engine)
  unfolding load_chunks_context
  load_chunks_context-Keeps = unless_refused-Keeps _ λ rc w rc' p.
      if-ok (null rc.ranked) (pure rc) _ w rc' (λ _. Same-ok rc rc rc' (refl, refl, refl))
        (λ _ q.
          let found = engine.load_chunks (chunk_ids_of fl opts engine [] rc.ranked) w in
          let (chunks, (_, q1)) = continue-ok found.0 _ found.1 rc' q in
          Same-ok rc _ rc' (refl, refl, refl) q1)
        p

  pub rerank_context-Keeps : Keeps (rerank_context fl opts engine)
  unfolding rerank_context
  rerank_context-Keeps = unless_refused-Keeps _ λ rc w rc' p. Same-ok rc _ rc' (refl, refl, refl) p

  ask_order-Keeps : (timeout : ℕ) → Keeps (ask_order fl opts engine timeout)
  unfolding ask_order
  ask_order-Keeps timeout rc w rc' p =
      let found = engine.generate (pos timeout) _ w in
      let (resp, (_, q)) = continue-ok found.0 _ found.1 rc' p in
      Same-ok rc _ rc' (refl, refl, refl) q

  cross_encode-Keeps : Keeps (cross_encode fl opts engine)
  unfolding cross_encode
  cross_encode-Keeps rc w rc' =
      if-ok _ (pure rc) (ask_order fl opts engine _ rc) w rc'
        (λ _. Same-ok rc rc rc' (refl, refl, refl)) (λ _. ask_order-Keeps _ rc w rc')

  pub cross_encoder_rerank-Keeps : Keeps (cross_encoder_rerank fl opts engine)
  unfolding cross_encoder_rerank
  cross_encoder_rerank-Keeps rc w rc' =
      if-ok _ (pure rc) (cross_encode fl opts engine rc) w rc'
        (λ _. Same-ok rc rc rc' (refl, refl, refl)) (λ _. cross_encode-Keeps rc w rc')
