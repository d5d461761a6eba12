-- ===== src/Documents/Types.antt =====
-- The data of apps/server/internal/knowledge/biz/knowledge.go and the interfaces that its use cases are
-- given. An int32 that may be negative is an integer.
use rago_desk.Base.{
  ℕ, zero, suc, ◌+◌, Bool, Option, List, Text, codes, ltb, if◌then◌else◌, Error, Exec, ℤ, pos,
  negsuc,
}
use rago_desk.Chunking.Build.{DocChunk, ChunkEnv}
use rago_desk.Parsing.Sources.{Fetcher}
use rago_desk.Ingestion.Queue.{IngestionJob}

abbrev pub Time : Type 0
Time = ℕ

abbrev pub status_uploaded : Text
status_uploaded = codes "uploaded"

abbrev pub status_processing : Text
status_processing = codes "processing"

abbrev pub status_ready : Text
status_ready = codes "ready"

abbrev pub status_failed : Text
status_failed = codes "failed"

pub record KnowledgeBase : Type 0 where
  pub id : Text
  pub tenant_id : Text
  pub name : Text
  pub description : Text
  pub created_at : Time
  pub updated_at : Time

-- The weight is a float64: its bit pattern.
pub record BotKnowledgeBase : Type 0 where
  pub id : Text
  pub tenant_id : Text
  pub bot_id : Text
  pub kb_id : Text
  pub weight : ℕ
  pub created_at : Time

pub record Document : Type 0 where
  pub id : Text
  pub tenant_id : Text
  pub kb_id : Text
  pub title : Text
  pub source_type : Text
  pub status : Text
  pub current_version : ℤ
  pub created_at : Time
  pub updated_at : Time

pub record DocumentVersion : Type 0 where
  pub id : Text
  pub tenant_id : Text
  pub document_id : Text
  pub version : ℤ
  pub raw_uri : Text
  pub index_config_hash : Text
  pub status : Text
  pub error_reason : Text
  pub created_at : Time

-- The components of a vector are float32: their bit patterns.
pub record EmbeddedChunk : Type 0 where
  pub chunk : DocChunk
  pub vector : List ℕ

pub record IndexDocumentVersionRequest : Type 0 where
  pub kb_id : Text
  pub document_id : Text
  pub document_version_id : Text
  pub document_title : Text
  pub source_type : Text
  pub embedding_model : Text
  pub embedding_dim : ℤ
  pub chunks : List EmbeddedChunk

-- The context of a request: its tenant.
abbrev pub Ctx : Type 0
Ctx = Option Text

abbrev pub Done : Type 0
Done = Unit {0}

pub record KnowledgeRepo (W : Type 0) : Type 0 where
  pub create_knowledge_base : Ctx → KnowledgeBase → Exec W KnowledgeBase
  pub get_knowledge_base : Ctx → Text → Exec W KnowledgeBase
  pub list_knowledge_bases : Ctx → Exec W (List KnowledgeBase)
  pub update_knowledge_base : Ctx → KnowledgeBase → Exec W KnowledgeBase
  pub delete_knowledge_base : Ctx → Text → Exec W Done
  pub create_document : Ctx → Document → Exec W Document
  pub get_document : Ctx → Text → Exec W Document
  pub update_document_index_state : Ctx → Text → Text → ℤ → Exec W Done
  pub create_document_version : Ctx → DocumentVersion → Exec W DocumentVersion
  pub get_document_version : Ctx → Text → Exec W DocumentVersion
  pub get_document_version_by_number : Ctx → Text → ℤ → Exec W DocumentVersion
  pub list_document_versions : Ctx → Text → Exec W (List DocumentVersion)
  pub update_document_version_status : Ctx → Text → Text → Text → Exec W Done
  pub load_document_content : Ctx → DocumentVersion → Exec W Text
  pub put_document_object : Ctx → Text → Text → Text → Text → Exec W Text
  pub index_document_version : Ctx → IndexDocumentVersionRequest → Exec W Done
  pub delete_document_version_index : Ctx → Text → Text → Exec W Done
  pub rollback_document : Ctx → Text → ℤ → Exec W Done
  pub list_documents : Ctx → Text → ℕ → ℕ → Exec W (List Document)
  pub update_document_kb : Ctx → Text → Text → Exec W Document
  pub delete_document : Ctx → Text → Exec W Done
  pub list_bot_knowledge_bases : Ctx → Text → Exec W (List BotKnowledgeBase)
  pub bind_bot_knowledge_base : Ctx → BotKnowledgeBase → Exec W BotKnowledgeBase
  pub unbind_bot_knowledge_base : Ctx → Text → Text → Exec W Done

-- The provider of embeddings.
pub record Embedder (W : Type 0) : Type 0 where
  pub embed : List Text → Exec W (List (List ℕ))
  pub model : Text
  pub dim : ℤ

-- `KnowledgeUsecase` without its repository; `queue` is `IngestionQueue.Enqueue`, where there is a
-- queue. Beside it stand the libraries: the fetcher, what chunks are made with, and `Error()`.
pub record KnowledgeUsecase (W : Type 0) : Type 0 where
  pub queue : Option (Ctx → IngestionJob → Exec W Done)
  pub async_enabled : Bool
  pub embedder : Embedder W
  pub chunk_size_tokens : ℤ
  pub chunk_overlap_tokens : ℤ
  pub embedding_batch_size : ℤ
  pub index_config_hash : Text
  pub fetcher : Fetcher W
  pub chunk_env : W → ChunkEnv
  pub error_text : Error → Text

-- `n + 1` of an int32.
unfoldable pub next_int32 : ℤ → ℤ
next_int32 (pos n) = if ltb (n + 1) 0x80000000 then pos (n + 1) else negsuc 0x7fffffff
next_int32 (negsuc zero) = pos 0
next_int32 (negsuc (suc n)) = negsuc n
