-- ===== src/Documents/Uploads.antt =====
-- Uploads, versions and rollbacks of apps/server/internal/knowledge/biz/knowledge.go.
use rago_desk.Base.{
  ℕ, zero, suc, Bool, true, false, not, Option, none, some, [], ◌∷◌, ◌==◌, text_eq, nat_eq,
  if◌then◌else◌, null, take, drop, map, Text, codes, trim, Unicode, Error, Result, ok, err, Exec,
  pure, raise, lift, ignore, ◌>>=◌, ◌>>◌, bad_request, forbidden, ℤ, pos, leℤ,
}
use rago_desk.Parsing.Clean.{normalize_source_type}
use rago_desk.Ingestion.Queue.{IngestionJob}
use rago_desk.Documents.Types.{
  Document, DocumentVersion, Ctx, Done, KnowledgeRepo, KnowledgeUsecase, status_processing,
  status_ready, next_int32,
}
use rago_desk.Documents.Ingestion.{process_ingestion}

-- strings.LastIndex of one rune.
unfoldable pub last_index : ℕ → Text → Option ℕ
last_index c [] = none
last_index c (d ∷ s) = elim (last_index c s) [
  | some i ↦ some (suc i)
  | none ↦ if d == c then some 0 else none
]

-- `if idx := strings.LastIndex(name, "/"); idx >= 0 { name = name[idx+1:] }`
unfoldable pub base_name : Text → Text
base_name name = elim (last_index b'/' name) [ none ↦ name | some i ↦ drop (suc i) name ]

abbrev pub cut_at : Text → Option ℕ → Text
cut_at name none = name
cut_at name (some zero) = name
cut_at name (some (suc i)) = take (suc i) name

unfoldable pub slashes : Text → Text
slashes = map (λ c. if c == 0x5c then b'/' else c)

unfoldable pub infer_title_from_filename : Text → Text
infer_title_from_filename filename =
    let name = base_name (slashes (trim filename)) in
    if null (trim filename) then [] else trim (cut_at name (last_index b'.' name))

unfoldable pub tenant_id_from_context : Ctx → Result Text
tenant_id_from_context none = err (forbidden (codes "TENANT_MISSING"))
tenant_id_from_context (some t) = if null t then err (forbidden (codes "TENANT_MISSING")) else ok t

-- `errors.New(412, …)`
abbrev pub precondition : Text → Error
precondition reason = record { code = 412; reason = reason }

module _ ⦃u : Unicode⦄ {W : Type 0} (repo : KnowledgeRepo W) (uc : KnowledgeUsecase W)
    (ctx : Ctx) where
  unfoldable pub enqueue_ingestion : IngestionJob → W → Bool × W
  enqueue_ingestion job w = elim uc.queue [
    | none ↦ (false, w)
    | some enqueue ↦
        let (answer, w') = enqueue ctx job w in
        if not uc.async_enabled
        then (false, w)
        else (elim answer [ ok _ ↦ true | err e ↦ false ], w')
  ]

  -- `if uc.enqueueIngestion(ctx, job) { … }`: `queued`, or what is processed at once.
  unfoldable pub submit : {A : Type 0} → IngestionJob → A → A → Exec W A
  submit job queued processed w =
      let (in_queue, w') = enqueue_ingestion job w in
      if in_queue then (ok queued, w') else (process_ingestion repo uc job >> pure processed) w'

  unfoldable pub new_document : Text → Text → Text → Document
  new_document kb_id title source_type = record {
    id = [];
    tenant_id = [];
    kb_id = kb_id;
    title = title;
    source_type = source_type;
    status = status_processing;
    current_version = pos 0;
    created_at = 0;
    updated_at = 0;
  }

  unfoldable pub new_version : Text → ℤ → Text → DocumentVersion
  new_version document_id version raw_uri = record {
    id = [];
    tenant_id = [];
    document_id = document_id;
    version = version;
    raw_uri = raw_uri;
    index_config_hash = uc.index_config_hash;
    status = status_processing;
    error_reason = [];
    created_at = 0;
  }

  abbrev pub ready_document : Document → Document
  ready_document doc = record doc { status = status_ready; current_version = pos 1 }

  abbrev pub ready_version : DocumentVersion → DocumentVersion
  ready_version ver = record ver { status = status_ready }

  abbrev pub first_job : Text → Text → Document → DocumentVersion → IngestionJob
  first_job tenant_id kb_id doc ver = record {
    tenant_id = tenant_id;
    kb_id = kb_id;
    document_id = doc.id;
    document_version_id = ver.id;
    fallback_version = pos 0;
  }

  unfoldable pub store_upload : Text → Text → Text → Text → Exec W (Document × DocumentVersion)
  store_upload kb_id title source_type raw_uri = do
    repo.get_knowledge_base ctx kb_id
    tenant_id ← lift (tenant_id_from_context ctx)
    doc ← repo.create_document ctx (new_document kb_id title source_type)
    ver ← repo.create_document_version ctx (new_version doc.id (pos 1) raw_uri)
    submit (first_job tenant_id kb_id doc ver) (doc, ver) (ready_document doc, ready_version ver)

  unfoldable pub upload_document : Text → Text → Text → Text → Exec W (Document × DocumentVersion)
  upload_document kb_id title source_type raw_uri =
      if null (trim kb_id)
      then raise (bad_request (codes "KB_ID_MISSING"))
      else if null (trim title)
      then raise (bad_request (codes "DOC_TITLE_MISSING"))
      else if null (trim raw_uri)
      then raise (bad_request (codes "DOC_RAW_URI_MISSING"))
      else store_upload (trim kb_id) (trim title) (normalize_source_type source_type) (trim raw_uri)

  unfoldable pub upload_document_file :
      Text → Text → Text → Text → Text → Text → Exec W (Document × DocumentVersion)
  upload_document_file kb_id title source_type filename payload content_type =
      let named = if null (trim title) then infer_title_from_filename filename else title in
      if null (trim kb_id)
      then raise (bad_request (codes "KB_ID_MISSING"))
      else if null payload
      then raise (bad_request (codes "DOC_CONTENT_MISSING"))
      else (repo.put_document_object ctx (trim kb_id) filename payload content_type >>= λ raw_uri.
          upload_document (trim kb_id) named source_type raw_uri)

  unfoldable pub has_version : Document → Result Done
  has_version doc =
      if leℤ doc.current_version (pos 0)
      then err (precondition (codes "DOC_VERSION_MISSING"))
      else ok tt

  unfoldable pub needs_reindex : DocumentVersion → Result Done
  needs_reindex current =
      if trim current.index_config_hash == trim uc.index_config_hash
      then err (precondition (codes "DOC_REINDEX_NOT_NEEDED"))
      else if null (trim current.raw_uri)
      then err (bad_request (codes "DOC_RAW_URI_MISSING"))
      else ok tt

  abbrev pub next_job : Text → Document → DocumentVersion → IngestionJob
  next_job tenant_id doc ver = record {
    tenant_id = tenant_id;
    kb_id = doc.kb_id;
    document_id = doc.id;
    document_version_id = ver.id;
    fallback_version = doc.current_version;
  }

  -- From the creation of the next version on.
  unfoldable pub store_next : Text → Document → DocumentVersion → Exec W DocumentVersion
  store_next id doc current = do
    ver ←
        repo.create_document_version ctx
          (new_version id (next_int32 doc.current_version) current.raw_uri)
    ignore (repo.update_document_index_state ctx doc.id status_processing doc.current_version)
    tenant_id ← lift (tenant_id_from_context ctx)
    submit (next_job tenant_id doc ver) ver (ready_version ver)

  unfoldable pub reindex_document : Text → Exec W DocumentVersion
  reindex_document id = if null (trim id) then raise (bad_request (codes "DOC_ID_MISSING")) else do
    doc ← repo.get_document ctx (trim id)
    lift (has_version doc)
    current ← repo.get_document_version_by_number ctx (trim id) doc.current_version
    lift (needs_reindex current)
    store_next (trim id) doc current

  unfoldable pub is_ready : DocumentVersion → Result Done
  is_ready v =
      if not (v.status == status_ready)
      then err (precondition (codes "DOC_VERSION_NOT_READY"))
      else ok tt

  unfoldable pub rollback_document : Text → ℤ → Exec W Done
  rollback_document id version =
      if null (trim id)
      then raise (bad_request (codes "DOC_ID_MISSING"))
      else if leℤ version (pos 0)
      then raise (bad_request (codes "DOC_VERSION_INVALID"))
      else (repo.get_document_version_by_number ctx (trim id) version >>= λ v.
          lift (is_ready v) >> repo.rollback_document ctx (trim id) version)
