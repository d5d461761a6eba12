-- ===== src/Documents/Settling.antt =====
-- What ingestion leaves in the tables: apps/server/internal/knowledge/biz/knowledge.go over
-- apps/server/internal/knowledge/data/knowledge.go.
use rago_desk.Base.{
  ◌≡◌, refl, false, Option, none, some, [], null, Result, ok, err, Error, Unicode, Option-cases,
  inl, inr, Result-cases, not_found, codes,
}
use rago_desk.Ingestion.Queue.{IngestionJob}
use rago_desk.Documents.Types.{DocumentVersion, Done, KnowledgeUsecase, status_ready, status_failed}
use rago_desk.Documents.Tables.{Store, Services, first_where}
use rago_desk.Documents.Statements.{is_version}
use rago_desk.Documents.Repo.{knowledge_repo}
use rago_desk.Documents.Ingestion.{
  mark_ingestion_failed, mark_ingestion_ready, settle_version, ingest, ingest_version,
  process_ingestion,
}
use rago_desk.Documents.States.{
  HasState, version_found, version_missing, mark_failed-HasState, mark_ready-HasState, ingest-ok,
  ingest-err,
}

-- The document of a job after its ingestion: ready, with the number of the version that was found, or
-- failed, with the version to fall back to.
abbrev pub Settled :
    {W : Type 0} → IngestionJob → Option DocumentVersion → Result Done × Store W → Type 0
Settled job found (ok _, s) =
    (v : DocumentVersion) × ((found ≡ some v)
      × HasState job.tenant_id job.document_id status_ready v.version s.documents)
Settled job found (err e, s) =
    HasState job.tenant_id job.document_id status_failed job.fallback_version s.documents

module _ ⦃u : Unicode⦄ {W : Type 0} (services : Services W) (uc : KnowledgeUsecase (Store W))
    (job : IngestionJob) (named : null job.tenant_id ≡ false)
    (of_document : null job.document_id ≡ false) where
  settle_version-ok :
      (version : DocumentVersion) (s : Store W) (done : Done)
      → (ingest_version (knowledge_repo services) uc (some job.tenant_id) job version s).0 ≡ ok done
      → settle_version (knowledge_repo services) uc (some job.tenant_id) job version s ≡ (
        ok tt,
        mark_ingestion_ready
            (knowledge_repo services)
            uc
            (some job.tenant_id)
            job
            version
            (ingest_version (knowledge_repo services) uc (some job.tenant_id) job version s).1,
      )
  unfolding settle_version
  settle_version-ok version s done e = rw (settle_version, e) refl

  settle_version-err :
      (version : DocumentVersion) (s : Store W) (x : Error)
      → (ingest_version (knowledge_repo services) uc (some job.tenant_id) job version s).0 ≡ err x
      → settle_version (knowledge_repo services) uc (some job.tenant_id) job version s ≡ (
        err x,
        mark_ingestion_failed
            (knowledge_repo services)
            uc
            (some job.tenant_id)
            job
            version.id
            x
            (ingest_version (knowledge_repo services) uc (some job.tenant_id) job version s).1,
      )
  unfolding settle_version
  settle_version-err version s x e = rw (settle_version, e) refl

  settle_version-Settled :
      (version : DocumentVersion) (s : Store W)
      → Settled job
          (some version)
          (settle_version (knowledge_repo services) uc (some job.tenant_id) job version s)
  settle_version-Settled version s =
      elim (Result-cases
        (ingest_version (knowledge_repo services) uc (some job.tenant_id) job version s).0) [
          | inl (done, e) ↦
              rw (settle_version-ok version s done e)
                (version, (refl, mark_ready-HasState services uc job.tenant_id job named version _))
          | inr (x, e) ↦
              rw (settle_version-err version s x e) (
                mark_failed-HasState services uc job.tenant_id job named version.id x _ of_document)
        ]

  ingest-found :
      (s : Store W) (version : DocumentVersion)
      → first_where (is_version job.tenant_id job.document_version_id) s.versions ≡ some version
      → ingest (knowledge_repo services) uc (some job.tenant_id) job s
        ≡ settle_version (knowledge_repo services) uc (some job.tenant_id) job version s
  unfolding knowledge_repo
  ingest-found s version e =
      ingest-ok (knowledge_repo services) uc (some job.tenant_id) job s s version
        (version_found services job.tenant_id job.document_version_id s version named e)

  ingest-missing :
      (s : Store W)
      → first_where (is_version job.tenant_id job.document_version_id) s.versions ≡ none
      → ingest (knowledge_repo services) uc (some job.tenant_id) job s ≡ (
        err (not_found (codes "DOC_VERSION_NOT_FOUND")),
        mark_ingestion_failed
            (knowledge_repo services)
            uc
            (some job.tenant_id)
            job
            []
            (not_found (codes "DOC_VERSION_NOT_FOUND"))
            s,
      )
  unfolding knowledge_repo
  ingest-missing s e =
      ingest-err (knowledge_repo services) uc (some job.tenant_id) job s s _
        (version_missing services job.tenant_id job.document_version_id s named e)

  ingest-Settled :
      (s : Store W)
      → Settled job
          (first_where (is_version job.tenant_id job.document_version_id) s.versions)
          (ingest (knowledge_repo services) uc (some job.tenant_id) job s)
  ingest-Settled s =
      elim (Option-cases
        (first_where (is_version job.tenant_id job.document_version_id) s.versions)) [
          | inl e ↦
              rw (e, ingest-missing s e)
                (mark_failed-HasState services uc job.tenant_id job named [] _ s of_document)
          | inr (version, e) ↦ rw (e, ingest-found s version e) (settle_version-Settled version s)
        ]

-- After the ingestion of a job that names a tenant and a document, whatever the version, the
-- document, the parsers, the provider and the services are: where it succeeds, the job's version is
-- in the table and every row of the document is ready with that version's number; where it fails, every
-- row of the document is failed with the version that the job falls back to.
pub process_ingestion-Settled :
    ⦃u : Unicode⦄
    → {W : Type 0}
    → (services : Services W) (uc : KnowledgeUsecase (Store W)) (job : IngestionJob) (s : Store W)
    → null job.tenant_id ≡ false
    → null job.document_id ≡ false
    → Settled job
        (first_where (is_version job.tenant_id job.document_version_id) s.versions)
        (process_ingestion (knowledge_repo services) uc job s)
unfolding process_ingestion
process_ingestion-Settled services uc job s named of_document =
    rw (process_ingestion, named) (ingest-Settled services uc job named of_document s)
