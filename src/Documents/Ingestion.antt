-- ===== src/Documents/Ingestion.antt =====
-- The ingestion of a document version in apps/server/internal/knowledge/biz/knowledge.go.
use rago_desk.Base.{
  Bool, not, ◌&&◌, some, List, [], ◌∷◌, ◌==◌, text_eq, nat_eq, if◌then◌else◌, null, Text, codes,
  trim, Unicode, Error, Result, ok, err, Exec, pure, raise, lift, ◌>>=◌, bad_request, forbidden, ℤ,
  pos, pos_part, neg_part, ltℤ,
}
use rago_desk.Chunking.Build.{DocChunk, DocumentMeta, build_chunks}
use rago_desk.Parsing.Clean.{normalize_source_type}
use rago_desk.Parsing.Blocks.{ParsedDocument, normalize_parsed_document, enrich_parsed_document}
use rago_desk.Parsing.Sources.{parse_document}
use rago_desk.Ingestion.Queue.{IngestionJob}
use rago_desk.Documents.Types.{
  Document, DocumentVersion, EmbeddedChunk, Ctx, Done, KnowledgeRepo, KnowledgeUsecase,
  status_ready, status_failed,
}
use rago_desk.Documents.Embedding.{embed_chunks}

-- What `loadIngestionInput` returns beside the version.
pub record IngestionInput : Type 0 where
  pub doc : Document
  pub source_type : Text
  pub raw_input : Text
  pub meta : DocumentMeta

module _ ⦃u : Unicode⦄ {W : Type 0} (repo : KnowledgeRepo W) (uc : KnowledgeUsecase W)
    (ctx : Ctx) where
  unfoldable pub raw_input : DocumentVersion → Text → Exec W Text
  raw_input version source_type =
      if source_type == codes "url"
      then pure (uc.fetcher.encode (trim version.raw_uri))
      else repo.load_document_content ctx version

  unfoldable pub with_content : DocumentVersion → Document → Text → Result IngestionInput
  with_content version doc raw =
      if null raw
      then err (bad_request (codes "DOC_CONTENT_MISSING"))
      else ok (record {
        doc = doc;
        source_type = normalize_source_type doc.source_type;
        raw_input = raw;
        meta = record {
          title = doc.title;
          source_uri = trim version.raw_uri;
          source_type = normalize_source_type doc.source_type;
        };
      })

  -- `loadIngestionInput` once the version is found.
  unfoldable pub load_ingestion_input : IngestionJob → DocumentVersion → Exec W IngestionInput
  load_ingestion_input job version = do
    doc ← repo.get_document ctx job.document_id
    raw ← raw_input version (normalize_source_type doc.source_type)
    lift (with_content version doc raw)

  unfoldable pub some_chunks : List DocChunk → Result (List DocChunk)
  some_chunks [] = err (bad_request (codes "DOC_CHUNKS_EMPTY"))
  some_chunks (c ∷ chunks) = ok (c ∷ chunks)

  unfoldable pub chunk_document : Text → Text → ParsedDocument → Exec W (List DocChunk)
  chunk_document source_type version_id parsed w =
      let doc = enrich_parsed_document (normalize_parsed_document source_type parsed) in
      let chunks =
        build_chunks (uc.chunk_env w) doc.blocks doc.meta version_id uc.chunk_size_tokens
          uc.chunk_overlap_tokens in
      if null doc.blocks
      then (err (bad_request (codes "DOC_CONTENT_MISSING")), w)
      else (some_chunks chunks, w)

  unfoldable pub parse_and_chunk : Text → Text → DocumentMeta → Text → Exec W (List DocChunk)
  parse_and_chunk source_type raw meta version_id = do
    parsed ← parse_document uc.fetcher source_type raw meta
    chunk_document source_type version_id parsed

  unfoldable pub index_embedded_chunks :
      IngestionJob → Document → Text → DocumentVersion → List EmbeddedChunk → Exec W Done
  index_embedded_chunks job doc source_type version embedded =
      repo.index_document_version ctx (record {
        kb_id = job.kb_id;
        document_id = job.document_id;
        document_version_id = version.id;
        document_title = doc.title;
        source_type = source_type;
        embedding_model = uc.embedder.model;
        embedding_dim = uc.embedder.dim;
        chunks = embedded;
      })

  unfoldable pub mark_ingestion_failed : IngestionJob → Text → Error → W → W
  mark_ingestion_failed job version_id e w =
      let named =
        (repo.update_document_version_status ctx version_id status_failed (uc.error_text e) w).1 in
      let marked = if null version_id then w else named in
      let after =
        (repo.update_document_index_state ctx job.document_id status_failed job.fallback_version
          marked).1 in
      if null job.document_id then marked else after

  -- The index of the version that the document had before is deleted; errors are only logged.
  unfoldable pub clean_up : IngestionJob → Exec W DocumentVersion → W → W
  clean_up job lookup w =
      let (found, w') = lookup w in
      elim found [
        | err e ↦ w'
        | ok old ↦ (repo.delete_document_version_index ctx job.document_id old.id w').1
      ]

  abbrev pub same_int : ℤ → ℤ → Bool
  same_int a b = pos_part a == pos_part b && neg_part a == neg_part b

  unfoldable pub mark_ingestion_ready : IngestionJob → DocumentVersion → W → W
  mark_ingestion_ready job version w =
      let named = (repo.update_document_version_status ctx version.id status_ready [] w).1 in
      let marked =
        (repo.update_document_index_state ctx job.document_id status_ready version.version
          named).1 in
      let lookup = repo.get_document_version_by_number ctx job.document_id job.fallback_version in
      if ltℤ (pos 0) job.fallback_version && not (same_int job.fallback_version version.version)
      then clean_up job lookup marked
      else marked

  -- The steps from the found version to its index.
  unfoldable pub ingest_version : IngestionJob → DocumentVersion → Exec W Done
  ingest_version job version = do
    input ← load_ingestion_input job version
    chunks ← parse_and_chunk input.source_type input.raw_input input.meta version.id
    embedded ← embed_chunks uc chunks
    index_embedded_chunks job input.doc input.source_type version embedded

  unfoldable pub settle_version : IngestionJob → DocumentVersion → Exec W Done
  settle_version job version w =
      let (answer, w') = ingest_version job version w in
      elim answer [
        | ok _ ↦ (ok tt, mark_ingestion_ready job version w')
        | err e ↦ (err e, mark_ingestion_failed job version.id e w')
      ]

  unfoldable pub ingest : IngestionJob → Exec W Done
  ingest job w =
      let (found, w') = repo.get_document_version ctx job.document_version_id w in
      elim found [
        | ok version ↦ settle_version job version w'
        | err e ↦ (err e, mark_ingestion_failed job [] e w')
      ]

module _ ⦃u : Unicode⦄ {W : Type 0} (repo : KnowledgeRepo W) (uc : KnowledgeUsecase W) where
  -- The rest of the steps runs in the context of the job's tenant.
  unfoldable pub process_ingestion : IngestionJob → Exec W Done
  process_ingestion job =
      if null job.tenant_id
      then raise (forbidden (codes "TENANT_MISSING"))
      else ingest repo uc (some job.tenant_id) job
