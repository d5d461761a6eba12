-- ===== src/Documents/Rollbacks.antt =====
-- A version that another one replaced: apps/server/internal/knowledge/biz/knowledge.go over
-- apps/server/internal/knowledge/data/knowledge.go.
use rago_desk.Base.{
  ◌≡◌, ◌∙◌, refl, sym, ap, false, some, [], null, any, Text, trim, ok, Unicode, ℤ, pos, leℤ,
  if◌then◌else◌, text_eq,
}
use rago_desk.Ingestion.Queue.{IngestionJob}
use rago_desk.Documents.Types.{DocumentVersion, KnowledgeUsecase, status_ready}
use rago_desk.Documents.Tables.{Store, Services, first_where, update_all, require_tenant, time_now}
use rago_desk.Documents.Statements.{
  is_version, version_of, is_numbered, eqℤ, change_documents, update_index_state,
  update_version_status, get_version_by_number, roll_back,
}
use rago_desk.Documents.Index.{delete_version_index}
use rago_desk.Documents.Repo.{knowledge_repo}
use rago_desk.Documents.Ingestion.{mark_ingestion_ready}
use rago_desk.Documents.Uploads.{rollback_document}
use rago_desk.Documents.Reindexing.{get_number-found}
use rago_desk.Documents.Cleanups.{
  indexed, first_where-update, delete_version_index-tables, positive_lt, ready_row, still_ready,
  clean_up-ok, rollback-ok,
}

module _ ⦃u : Unicode⦄ {W : Type 0} (services : Services W) (uc : KnowledgeUsecase (Store W))
    (t : Text) (named : null t ≡ false) where
  -- The tables behind the two updates.
  marked-versions :
      (id : Text) (n : ℤ) (version_id : Text) (s : Store W)
      → (update_index_state services
          (some t)
          id
          status_ready
          n
          (update_version_status services (some t) version_id status_ready [] s).1).1.versions
        ≡ update_all (is_version t version_id) ready_row s.versions
  unfolding update_index_state update_version_status require_tenant time_now change_documents
  marked-versions id n version_id s = rw named refl

  roll_back-chunks :
      (id : Text) (n : ℤ) (s : Store W)
      → ((roll_back services (some t) id n s).0 ≡ ok tt)
        × ((roll_back services (some t) id n s).1.chunks ≡ s.chunks)
  unfolding roll_back require_tenant time_now change_documents
  roll_back-chunks id n s = rw named (refl, refl)

  abbrev marked : IngestionJob → DocumentVersion → Store W → Store W
  marked job version s =
      (update_index_state services (some t) job.document_id status_ready version.version
        (update_version_status services (some t) version.id status_ready [] s).1).1

  mark_ready-cleaned :
      (job : IngestionJob) (version old : DocumentVersion) (s : Store W)
      → leℤ job.fallback_version (pos 0) ≡ false
      → eqℤ job.fallback_version version.version ≡ false
      → first_where
          (is_numbered t job.document_id job.fallback_version)
          (marked job version s).versions
        ≡ some old
      → mark_ingestion_ready (knowledge_repo services) uc (some t) job version s
        ≡ (delete_version_index services (some t) job.document_id old.id (marked job version s)).1
  unfolding mark_ingestion_ready knowledge_repo
  mark_ready-cleaned job version old s positive other found =
      rw (other, positive_lt job.fallback_version positive)
        (clean_up-ok (knowledge_repo services) uc (some t) job
          (get_version_by_number services (some t) job.document_id job.fallback_version)
          (marked job version s) (marked job version s) old
          (get_number-found services uc t named job.document_id job.fallback_version
            (marked job version s) old found))

  numbered_again :
      (job : IngestionJob) (version old : DocumentVersion) (s : Store W)
      → first_where (is_numbered t job.document_id job.fallback_version) s.versions ≡ some old
      → first_where
          (is_numbered t job.document_id job.fallback_version)
          (marked job version s).versions
        ≡ some (if is_version t version.id old then ready_row old else old)
  unfolding is_numbered version_of
  numbered_again job version old s found =
      rw (marked-versions job.document_id version.version version.id s) (
        first_where-update (is_numbered t job.document_id job.fallback_version)
          (is_version t version.id) ready_row (λ v. refl) s.versions old found)

  rolled :
      (job : IngestionJob) (s cleaned : Store W) (old : DocumentVersion)
      → null (trim job.document_id) ≡ false
      → trim job.document_id ≡ job.document_id
      → leℤ job.fallback_version (pos 0) ≡ false
      → first_where (is_numbered t job.document_id job.fallback_version) cleaned.versions ≡ some old
      → old.status ≡ status_ready
      → any (indexed t old.id) cleaned.chunks ≡ false
      → ((rollback_document
            (knowledge_repo services)
            uc
            (some t)
            job.document_id
            job.fallback_version
            cleaned).0
          ≡ ok tt)
        × (any
              (indexed t old.id)
              (rollback_document
                (knowledge_repo services)
                uc
                (some t)
                job.document_id
                job.fallback_version
                cleaned).1.chunks
            ≡ false)
  unfolding knowledge_repo
  rolled job s cleaned old filled trimmed positive found ready gone =
      let chunks = roll_back-chunks (trim job.document_id) job.fallback_version cleaned in
      rw
        (rollback-ok (knowledge_repo services) uc (some t) job.document_id job.fallback_version
          cleaned cleaned old filled positive
          (get_number-found services uc t named (trim job.document_id) job.fallback_version cleaned
            old (rw trimmed found))
          ready)
        (chunks.0, ap (any (indexed t old.id)) chunks.1 ∙ gone)

  replaced :
      (job : IngestionJob) (version : DocumentVersion) (s after : Store W) (row : DocumentVersion)
      → null (trim job.document_id) ≡ false
      → trim job.document_id ≡ job.document_id
      → leℤ job.fallback_version (pos 0) ≡ false
      → eqℤ job.fallback_version version.version ≡ false
      → first_where
          (is_numbered t job.document_id job.fallback_version)
          (marked job version s).versions
        ≡ some row
      → row.status ≡ status_ready
      → null (trim row.id) ≡ false
      → after ≡ mark_ingestion_ready (knowledge_repo services) uc (some t) job version s
      → ((rollback_document
            (knowledge_repo services)
            uc
            (some t)
            job.document_id
            job.fallback_version
            after).0
          ≡ ok tt)
        × (any
              (indexed t row.id)
              (rollback_document
                (knowledge_repo services)
                uc
                (some t)
                job.document_id
                job.fallback_version
                after).1.chunks
            ≡ false)
  replaced job version s after row filled trimmed positive other found ready row_named p =
      let cleaned =
        (delete_version_index services (some t) job.document_id row.id (marked job version s)).1 in
      let (gone, kept) =
        delete_version_index-tables services t job.document_id row.id (marked job version s) named
          (rw (filled, row_named) refl) in
      rw (p, mark_ready-cleaned job version row s positive other found)
        (rolled job s cleaned row filled trimmed positive (rw kept found) ready gone)

-- Where the ingestion of a version replaces another one, which is in the table and ready: once the new
-- version is marked ready, a rollback to the old one succeeds, and no chunk of it is in the table.
pub rollback_document-unindexed :
    ⦃u : Unicode⦄
    → {W : Type 0}
    → (services : Services W) (uc : KnowledgeUsecase (Store W)) (t : Text) (job : IngestionJob)
      (version old : DocumentVersion) (s after : Store W)
    → null t ≡ false
    → null (trim job.document_id) ≡ false
    → trim job.document_id ≡ job.document_id
    → leℤ job.fallback_version (pos 0) ≡ false
    → eqℤ job.fallback_version version.version ≡ false
    → first_where (is_numbered t job.document_id job.fallback_version) s.versions ≡ some old
    → old.status ≡ status_ready
    → null (trim old.id) ≡ false
    → after ≡ mark_ingestion_ready (knowledge_repo services) uc (some t) job version s
    → ((rollback_document
          (knowledge_repo services)
          uc
          (some t)
          job.document_id
          job.fallback_version
          after).0
        ≡ ok tt)
      × (any
            (indexed t old.id)
            (rollback_document
              (knowledge_repo services)
              uc
              (some t)
              job.document_id
              job.fallback_version
              after).1.chunks
          ≡ false)
rollback_document-unindexed services uc t job version old s after named filled trimmed positive
      other found ready old_named p =
    let (ready', same_id) = still_ready (is_version t version.id old) old ready in
    let (succeeds, none_left) =
      replaced services uc t named job version s after
        (if is_version t version.id old then ready_row old else old) filled trimmed positive other
        (numbered_again services uc t named job version old s found) ready'
        (ap (λ i. null (trim i)) same_id ∙ old_named) p in
    (
      succeeds,
      ap
            (λ i.
              any (indexed t i)
                (rollback_document (knowledge_repo services) uc (some t) job.document_id
                  job.fallback_version after).1.chunks)
            (sym same_id)
          ∙ none_left,
    )
