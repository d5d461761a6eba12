-- ===== src/Documents/Examples.antt =====
-- The theorems on documents at a concrete store.
use rago_desk.Base.{
  ℕ, suc, ◌≡◌, refl, none, some, List, [], ◌∷◌, map, any, false, Text, codes, ok, err, conflict,
  pos, ascii, trim, arith, length, Exec, internal_server,
}
use rago_desk.Chunking.Build.{DocChunk, ChunkEnv}
use rago_desk.Parsing.Sources.{Fetcher}
use rago_desk.Ingestion.Queue.{IngestionJob}
use rago_desk.Documents.Types.{Document, DocumentVersion, KnowledgeUsecase}
use rago_desk.Documents.Tables.{Store, Services, first_where, ChunkRow}
use rago_desk.Documents.Statements.{is_document, is_version, is_numbered, version_of}
use rago_desk.Documents.Repo.{knowledge_repo}
use rago_desk.Documents.Embedding.{embed_chunks, embed_batches, embed_batch, paired, pair_vectors}
use rago_desk.Documents.Ingestion.{process_ingestion, mark_ingestion_ready}
use rago_desk.Documents.Uploads.{
  needs_reindex, reindex_document, rollback_document, infer_title_from_filename, base_name, slashes,
  last_index,
}
use rago_desk.Documents.Batches.{embedded_as, chunks_of, embed_chunks-map, embed_chunks-chunks}
use rago_desk.Documents.Settling.{Settled, process_ingestion-Settled}
use rago_desk.Documents.Reindexing.{reindex_document-taken}
use rago_desk.Documents.Cleanups.{indexed}
use rago_desk.Documents.Rollbacks.{rollback_document-unindexed}

abbrev chunk : ℕ → Text → DocChunk
chunk n content = record {
  id = n ∷ [];
  chunk_index = n;
  content = content;
  token_count = 1;
  content_hash = [];
  language = codes "en";
  section = [];
  page_no = 0;
  source_uri = [];
  created_at = 1;
}

-- No services but a clock and UUIDs that count, and a provider whose vectors hold lengths.
abbrev services : Services ℕ
services = record {
  vector = none;
  collection = [];
  storage = none;
  new_uuid = λ w. (w ∷ [], suc w);
  now = λ w. (w, suc w);
  uuid_sha1 = λ s. s;
  unix_milli = λ t. t;
  format_nanos = λ t. t ∷ [];
}

abbrev embed_lengths : List Text → Exec (Store ℕ) (List (List ℕ))
embed_lengths texts w = (ok (map (λ t. length t ∷ []) texts), w)

abbrev fetcher : Fetcher (Store ℕ)
fetcher = record {
  readers = record { read_docx = λ s. ok none; read_pdf = λ s. ok [] };
  parse_url = λ s. none;
  get = λ s w. (err (internal_server []), w);
  decode = λ s. s;
  encode = λ s. s;
}

abbrev env : ChunkEnv
env = record { uuid_sha1 = λ s. s; sha256_hex = λ s. s; clock = λ i. i }

abbrev usecase : KnowledgeUsecase (Store ℕ)
usecase = record {
  queue = none;
  async_enabled = false;
  embedder = record { embed = embed_lengths; model = codes "m"; dim = pos 1 };
  chunk_size_tokens = pos 800;
  chunk_overlap_tokens = pos 100;
  embedding_batch_size = pos 2;
  index_config_hash = codes "new";
  fetcher = fetcher;
  chunk_env = λ s. env;
  error_text = λ e. e.reason;
}

abbrev document : Document
document = record {
  id = codes "d";
  tenant_id = codes "t";
  kb_id = codes "k";
  title = codes "Manual";
  source_type = codes "text";
  status = codes "ready";
  current_version = pos 1;
  created_at = 1;
  updated_at = 1;
}

abbrev version : Text → ℕ → DocumentVersion
version id n = record {
  id = id;
  tenant_id = codes "t";
  document_id = codes "d";
  version = pos n;
  raw_uri = codes "s3://b/o";
  index_config_hash = codes "old";
  status = codes "ready";
  error_reason = [];
  created_at = 1;
}

abbrev row : ChunkRow
row = record {
  tenant_id = codes "t";
  kb_id = codes "k";
  document_id = codes "d";
  document_version_id = codes "v1";
  chunk = chunk 1 (codes "a");
}

abbrev store : Store ℕ
store = record {
  bases = [];
  documents = document ∷ [];
  versions = version (codes "v1") 1 ∷ version (codes "v2") 2 ∷ [];
  chunks = row ∷ [];
  embeddings = [];
  links = [];
  outside = 7;
}

abbrev job : IngestionJob
job = record {
  tenant_id = codes "t";
  kb_id = codes "k";
  document_id = codes "d";
  document_version_id = codes "v2";
  fallback_version = pos 1;
}

abbrev three : List DocChunk
three = chunk 1 (codes "a") ∷ chunk 2 (codes "bc") ∷ chunk 3 [] ∷ []

embed_chunks-map_example :
    (embed_chunks usecase three store).0 ≡ ok (map (embedded_as (λ t. length t ∷ [])) three)
embed_chunks-map_example =
    embed_chunks-map usecase (λ t. length t ∷ []) (λ texts w. refl) three store

embed_chunks-chunks_example : chunks_of (map (embedded_as (λ t. length t ∷ [])) three) ≡ three
unfolding embed_chunks embed_batches embed_batch paired pair_vectors
embed_chunks-chunks_example = embed_chunks-chunks usecase three store _ refl

process_ingestion-Settled_example :
    Settled job
      (first_where (is_version (codes "t") (codes "v2")) store.versions)
      (process_ingestion ⦃u = ascii⦄ (knowledge_repo services) usecase job store)
process_ingestion-Settled_example =
    process_ingestion-Settled ⦃u = ascii⦄ services usecase job store refl refl

reindex_document-taken_example :
    (w : ℕ) × (reindex_document ⦃u = ascii⦄
        (knowledge_repo services)
        usecase
        (some (codes "t"))
        (codes "d")
        store
      ≡ (err (conflict (codes "DOC_VERSION_DUPLICATE")), record store { outside = w }))
unfolding trim first_where is_document is_numbered version_of needs_reindex
reindex_document-taken_example =
    reindex_document-taken ⦃u = ascii⦄ services usecase (codes "t") (codes "d") store document
      (version (codes "v1") 1) 1 refl refl refl refl (omega arith) (omega arith) refl refl refl

abbrev after : Store ℕ
after =
    mark_ingestion_ready ⦃u = ascii⦄ (knowledge_repo services) usecase (some (codes "t")) job
      (version (codes "v2") 2) store

rollback_document-unindexed_example :
    ((rollback_document ⦃u = ascii⦄
        (knowledge_repo services)
        usecase
        (some (codes "t"))
        (codes "d")
        (pos 1)
        after).0
      ≡ ok tt)
    × (any
          (indexed (codes "t") (codes "v1"))
          (rollback_document ⦃u = ascii⦄
            (knowledge_repo services)
            usecase
            (some (codes "t"))
            (codes "d")
            (pos 1)
            after).1.chunks
        ≡ false)
unfolding trim first_where is_numbered version_of
rollback_document-unindexed_example =
    rollback_document-unindexed ⦃u = ascii⦄ services usecase (codes "t") job
      (version (codes "v2") 2) (version (codes "v1") 1) store after refl refl refl refl refl refl
      refl refl refl

title_of_file :
    infer_title_from_filename (codes "C:\\docs\\user guide.v2.pdf") ≡ codes "user guide.v2"
unfolding infer_title_from_filename base_name slashes last_index trim
title_of_file = refl
