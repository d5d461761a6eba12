-- ===== src/Rag/Types.antt =====
-- The data of apps/server/internal/rag/biz/rag.go, pipeline.go and scoring.go.
use rago_desk.Base.{
  ℕ, ◌||◌, ◌+◌, ◌/◌, ◌%◌, Bool, List, [], ◌∷◌, ◌++◌, if◌then◌else◌, ltb, Text, ℤ, length, take, leb,
  trim, codes,
}

-- The numbers are those of float64; the operations are those of float32, and `narrow` converts.
pub record Floats (F : Type 0) : Type 0 where
  pub lt : F → F → Bool
  pub le : F → F → Bool
  pub add : F → F → F
  pub sub : F → F → F
  pub mul : F → F → F
  pub div : F → F → F
  pub of_nat : ℕ → F
  pub lit : Text → F
  pub narrow : F → F

pub record MessageRequest (F : Type 0) : Type 0 where
  pub session_id : Text
  pub bot_id : Text
  pub message : Text
  pub top_k : ℤ
  pub threshold : F

-- A knowledge base of a bot; the weight is a float64.
pub record BoundBase (F : Type 0) : Type 0 where
  pub kb_id : Text
  pub weight : F

pub record VectorSearchRequest (F : Type 0) : Type 0 where
  pub vector : List F
  pub kb_id : Text
  pub top_k : ℤ
  pub score_threshold : F

pub record VectorSearchResult (F : Type 0) : Type 0 where
  pub chunk_id : Text
  pub document_id : Text
  pub document_version_id : Text
  pub kb_id : Text
  pub score : F

pub record Ranked (F : Type 0) : Type 0 where
  pub result : VectorSearchResult F
  pub vector_score : F
  pub text_score : F
  pub score : F

pub record ChunkMeta : Type 0 where
  pub chunk_id : Text
  pub document_id : Text
  pub document_version_id : Text
  pub kb_id : Text
  pub content : Text
  pub section : Text
  pub page_no : ℕ
  pub source_uri : Text

-- The bytes of a text in UTF-8.
unfoldable pub utf8_of : ℕ → List ℕ
utf8_of r =
    if ltb r 0x80
    then r ∷ []
    else if ltb r 0x800
    then (0xc0 + r / 64) ∷ (0x80 + r % 64) ∷ []
    else if ltb r 0x10000
    then (0xe0 + r / 4096) ∷ (0x80 + r / 64 % 64) ∷ (0x80 + r % 64) ∷ []
    else (0xf0 + r / 262144) ∷ (0x80 + r / 4096 % 64) ∷ (0x80 + r / 64 % 64) ∷ (0x80 + r % 64) ∷ []

unfoldable pub utf8 : Text → List ℕ
utf8 [] = []
utf8 (r ∷ s) = utf8_of r ++ utf8 s

-- `text[:limit]` cuts between bytes, so what is left is a list of bytes.
unfoldable pub truncate_text : Text → ℕ → List ℕ
truncate_text text limit =
    let bytes = utf8 (trim text) in
    if leb limit 0 || leb (length bytes) limit then bytes else take limit bytes ++ codes "..."

pub record LlmUsage : Type 0 where
  pub prompt_tokens : ℤ
  pub completion_tokens : ℤ
  pub total_tokens : ℤ

pub record LlmRequest (F : Type 0) : Type 0 where
  pub system : Text
  pub prompt : List ℕ
  pub temperature : F
  pub max_tokens : ℤ

pub record LlmResponse : Type 0 where
  pub text : Text
  pub usage : LlmUsage

pub record Reference (F : Type 0) : Type 0 where
  pub document_id : Text
  pub document_version_id : Text
  pub chunk_id : Text
  pub score : F
  pub rank : ℕ
  pub snippet : List ℕ

pub record MessageResponse (F : Type 0) : Type 0 where
  pub reply : Text
  pub confidence : F
  pub references : List (Reference F)
  pub refused : Bool
  pub model : Text
  pub usage : LlmUsage

-- The options that the steps read.
pub record RagOptions (F : Type 0) : Type 0 where
  pub top_k : ℤ
  pub score_threshold : F
  pub retrieve_timeout_ms : ℤ
  pub llm_timeout_ms : ℤ
  pub embedding_timeout_ms : ℤ
  pub rerank_weight : F
  pub llm_temperature : F
  pub llm_max_tokens : ℤ
  pub system_prompt : Text
  pub refusal_message : Text
