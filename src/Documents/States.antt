-- ===== src/Documents/States.antt =====
-- The rows of a document that a use case leaves: apps/server/internal/knowledge/biz/knowledge.go over
-- apps/server/internal/knowledge/data/knowledge.go.
use rago_desk.Base.{
  ◌≡◌, refl, Bool, false, none, some, List, [], ◌∷◌, null, Text, All, ok, err, Error, Unicode,
  Bool-cases, Option-cases, inl, inr, Result-cases, not_found, codes, ℤ, pos, ltℤ, not, ◌&&◌, ◌||◌,
  arith, trim,
}
use rago_desk.Ingestion.Queue.{IngestionJob}
use rago_desk.Documents.Types.{
  Document, DocumentVersion, KnowledgeUsecase, status_ready, status_failed, Time, Ctx,
  KnowledgeRepo,
}
use rago_desk.Documents.Tables.{
  Store, Services, first_where, all_where, update_all, require_tenant, on_outside, found_or,
  time_now,
}
use rago_desk.Documents.Statements.{
  is_document, is_version, is_numbered, change_documents, update_index_state, update_version_status,
  get_version, get_version_by_number, select_version,
}
use rago_desk.Documents.Index.{delete_version_index, delete_vectors, drop_version}
use rago_desk.Documents.Repo.{knowledge_repo}
use rago_desk.Documents.Ingestion.{
  mark_ingestion_failed, mark_ingestion_ready, clean_up, settle_version, ingest, same_int,
}

-- Every row of the document has the status and the current version.
abbrev pub HasState : Text → Text → Text → ℤ → List Document → Type 0
HasState tenant_id id status version docs =
    All (λ d. (d.status ≡ status) × (d.current_version ≡ version))
      (all_where (is_document tenant_id id) docs)

abbrev set_state : Text → ℤ → Time → Document → Document
set_state status version now d = record d {
  status = status;
  current_version = version;
  updated_at = now;
}

update_all-HasState :
    (t id status : Text) (version : ℤ) (now : Time) (docs : List Document)
    → HasState t id status version
        (update_all (is_document t id) (set_state status version now) docs)
unfolding all_where update_all is_document
update_all-HasState t id status version now [] = tt
update_all-HasState t id status version now (d ∷ docs) = elim (Bool-cases (is_document t id d)) [
  | inl e ↦ rw (e, e) ((refl, refl), update_all-HasState t id status version now docs)
  | inr e ↦ rw (e, e) (update_all-HasState t id status version now docs)
]

module _ {W : Type 0} (services : Services W) where
  update_index_state-HasState :
      (t id status : Text) (version : ℤ) (s : Store W)
      → null t ≡ false
      → HasState t id status version
          (update_index_state services (some t) id status version s).1.documents
  unfolding update_index_state require_tenant time_now change_documents
  update_index_state-HasState t id status version s h =
      rw h (update_all-HasState t id status version _ s.documents)

  delete_vectors-documents :
      (filter : List (Text × Text)) (s : Store W)
      → (delete_vectors services filter s).1.documents ≡ s.documents
  unfolding delete_vectors on_outside
  delete_vectors-documents filter s = elim (Option-cases services.vector) [
    | inl e ↦ rw e refl
    | inr (vector, e) ↦ rw e (ground arith)
  ]

  delete_version_index-documents :
      (ctx : Ctx) (document_id version_id : Text) (s : Store W)
      → (delete_version_index services ctx document_id version_id s).1.documents ≡ s.documents
  unfolding delete_version_index require_tenant drop_version
  delete_version_index-documents none document_id version_id s = refl
  delete_version_index-documents (some t) document_id version_id s = elim (Bool-cases (null t)) [
    | inl e ↦ rw e refl
    | inr e ↦ rw e (elim (Bool-cases (null (trim document_id) || null (trim version_id))) [
      | inl f ↦ rw f refl
      | inr f ↦ rw f (delete_vectors-documents _ (drop_version services t version_id s))
    ])
  ]

  select_version-state : (p : DocumentVersion → Bool) (s : Store W) → (select_version p s).1 ≡ s
  unfolding select_version found_or
  select_version-state p s = elim (Option-cases (first_where p s.versions)) [
    | inl e ↦ rw e refl
    | inr (v, e) ↦ rw e refl
  ]

  version_by_number-state :
      (ctx : Ctx) (id : Text) (n : ℤ) (s : Store W)
      → (get_version_by_number services ctx id n s).1 ≡ s
  unfolding get_version_by_number require_tenant
  version_by_number-state none id n s = refl
  version_by_number-state (some t) id n s = elim (Bool-cases (null t)) [
    | inl e ↦ rw e refl
    | inr e ↦ rw e (select_version-state (is_numbered t id n) s)
  ]

  pub version_found :
      (t id : Text) (s : Store W) (v : DocumentVersion)
      → null t ≡ false
      → first_where (is_version t id) s.versions ≡ some v
      → get_version services (some t) id s ≡ (ok v, s)
  unfolding get_version require_tenant select_version found_or
  version_found t id s v named e = rw (named, e) refl

  pub version_missing :
      (t id : Text) (s : Store W)
      → null t ≡ false
      → first_where (is_version t id) s.versions ≡ none
      → get_version services (some t) id s ≡ (err (not_found (codes "DOC_VERSION_NOT_FOUND")), s)
  unfolding get_version require_tenant select_version found_or
  version_missing t id s named e = rw (named, e) refl

module _ ⦃u : Unicode⦄ {W : Type 0} (services : Services W) (uc : KnowledgeUsecase (Store W))
    (t : Text) (job : IngestionJob) (named : null t ≡ false) where
  clean_up-documents :
      (n : ℤ) (s : Store W)
      → (clean_up
          (knowledge_repo services)
          uc
          (some t)
          job
          (get_version_by_number services (some t) job.document_id n)
          s).documents
        ≡ s.documents
  unfolding clean_up knowledge_repo
  clean_up-documents n s =
      elim (Result-cases (get_version_by_number services (some t) job.document_id n s).0) [
        | inl (old, e) ↦
            rw (clean_up, e, version_by_number-state services (some t) job.document_id n s)
              (delete_version_index-documents services (some t) job.document_id old.id s)
        | inr (x, e) ↦
            rw (clean_up, e, version_by_number-state services (some t) job.document_id n s) refl
      ]

  pub mark_failed-HasState :
      (version_id : Text) (e : Error) (s : Store W)
      → null job.document_id ≡ false
      → HasState t job.document_id status_failed job.fallback_version
          (mark_ingestion_failed (knowledge_repo services) uc (some t) job version_id e s).documents
  unfolding mark_ingestion_failed knowledge_repo
  mark_failed-HasState version_id e s h = rw h (
      update_index_state-HasState services t job.document_id status_failed job.fallback_version _
        named)

  pub mark_ready-HasState :
      (version : DocumentVersion) (s : Store W)
      → HasState t job.document_id status_ready version.version
          (mark_ingestion_ready (knowledge_repo services) uc (some t) job version s).documents
  unfolding mark_ingestion_ready knowledge_repo
  mark_ready-HasState version s =
      let marked =
        (update_index_state services (some t) job.document_id status_ready version.version
          (update_version_status services (some t) version.id status_ready [] s).1).1 in
      let has =
        update_index_state-HasState services t job.document_id status_ready version.version
          (update_version_status services (some t) version.id status_ready [] s).1 named in
      elim (Bool-cases (
        ltℤ (pos 0) job.fallback_version
        && not (
            same_int (knowledge_repo services) uc (some t) job.fallback_version version.version))) [
              | inl e ↦ rw (e, clean_up-documents job.fallback_version marked) has
              | inr e ↦ rw e has
            ]

module _ ⦃u : Unicode⦄ {W : Type 0} (repo : KnowledgeRepo W) (uc : KnowledgeUsecase W) (ctx : Ctx)
    (job : IngestionJob) (w w' : W) where
  pub ingest-ok :
      (v : DocumentVersion)
      → repo.get_document_version ctx job.document_version_id w ≡ (ok v, w')
      → ingest repo uc ctx job w ≡ settle_version repo uc ctx job v w'
  unfolding ingest
  ingest-ok v p = rw (ingest, p) (rw p refl)

  pub ingest-err :
      (e : Error)
      → repo.get_document_version ctx job.document_version_id w ≡ (err e, w')
      → ingest repo uc ctx job w ≡ (err e, mark_ingestion_failed repo uc ctx job [] e w')
  unfolding ingest
  ingest-err e p = rw (ingest, p) (rw p refl)
