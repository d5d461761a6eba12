-- ===== src/Documents/Tables.antt =====
-- The tables and the services behind apps/server/internal/knowledge/data/knowledge.go, for a connection
-- that works. The tables are defined in apps/server/internal/data/data.go. Texts are compared exactly.
use rago_desk.Base.{
  ℕ, Bool, Option, none, some, List, [], ◌∷◌, ltb, ◌==◌, nat_eq, if◌then◌else◌, null, Text, Exec,
  raise, ℤ, ok,
}
use rago_desk.Chunking.Build.{DocChunk}
use rago_desk.ApiMgmt.Table.{plain_error}
use rago_desk.Documents.Types.{
  KnowledgeBase, BotKnowledgeBase, Document, DocumentVersion, Ctx, Done, Time,
}

pub record ChunkRow : Type 0 where
  pub tenant_id : Text
  pub kb_id : Text
  pub document_id : Text
  pub document_version_id : Text
  pub chunk : DocChunk

pub record EmbeddingRow : Type 0 where
  pub id : Text
  pub tenant_id : Text
  pub chunk_id : Text
  pub model : Text
  pub created_at : Time

pub record Store (W : Type 0) : Type 0 where
  pub bases : List KnowledgeBase
  pub documents : List Document
  pub versions : List DocumentVersion
  pub chunks : List ChunkRow
  pub embeddings : List EmbeddingRow
  pub links : List BotKnowledgeBase
  pub outside : W

pub data PayloadValue : Type 0 where
  string : Text → PayloadValue
  number : ℕ → PayloadValue

pub record VectorPoint : Type 0 where
  pub id : Text
  pub vector : List ℕ
  pub payload : List (Text × PayloadValue)

-- A filter is the list of its conditions: a key and the value that it must have.
pub record VectorStore (W : Type 0) : Type 0 where
  pub ensure_collection : Text → ℤ → Exec W Done
  pub upsert_points : Text → List VectorPoint → Exec W Done
  pub delete_points : Text → List (Text × Text) → Exec W Done

pub record ObjectStorage (W : Type 0) : Type 0 where
  pub delete : Text → Exec W Done
  pub get : Text → Exec W Text
  pub put : Text → Text → Text → Exec W Text

-- What `knowledgeRepo` holds beside the database, and the libraries: UUIDs, the clock (UnixNano),
-- `uuid.NewSHA1`, and the milliseconds of a time.
pub record Services (W : Type 0) : Type 0 where
  pub vector : Option (VectorStore W)
  pub collection : Text
  pub storage : Option (ObjectStorage W)
  pub new_uuid : W → Text × W
  pub now : W → Time × W
  pub uuid_sha1 : Text → Text
  pub unix_milli : Time → ℕ
  pub format_nanos : Time → Text

module _ {A : Type 0} where
  unfoldable pub first_where : (A → Bool) → List A → Option A
  first_where p [] = none
  first_where p (x ∷ xs) = let later = first_where p xs in if p x then some x else later

  unfoldable pub all_where : (A → Bool) → List A → List A
  all_where p [] = []
  all_where p (x ∷ xs) = let rest = all_where p xs in if p x then x ∷ rest else rest

  unfoldable pub update_all : (A → Bool) → (A → A) → List A → List A
  update_all p f [] = []
  update_all p f (x ∷ xs) = (if p x then f x else x) ∷ update_all p f xs

  unfoldable pub delete_all : (A → Bool) → List A → List A
  delete_all p [] = []
  delete_all p (x ∷ xs) = let rest = delete_all p xs in if p x then rest else x ∷ rest

  -- Puts a row before the first that is older.
  unfoldable pub place : (A → Time) → A → List A → List A
  place at x [] = x ∷ []
  place at x (y ∷ ys) =
      let later = y ∷ place at x ys in if ltb (at y) (at x) then x ∷ y ∷ ys else later

  -- `ORDER BY created_at DESC`; rows of one time stand in an order of the database's choice.
  unfoldable pub newest_first : (A → Time) → List A → List A
  newest_first at [] = []
  newest_first at (x ∷ xs) = place at x (newest_first at xs)

module _ {W A : Type 0} where
  -- tenant.RequireTenantID
  unfoldable pub require_tenant : Ctx → (Text → Exec (Store W) A) → Exec (Store W) A
  require_tenant none k = raise plain_error
  require_tenant (some t) k = if null t then raise plain_error else k t

  -- A call of a service.
  unfoldable pub on_outside : Exec W A → Exec (Store W) A
  on_outside m s = let (answer, w) = m s.outside in (answer, record s { outside = w })

  -- The row that a SELECT found.
  unfoldable pub found_or : (Option A) → Exec (Store W) A → Exec (Store W) A
  found_or none otherwise s = otherwise s
  found_or (some x) otherwise s = (ok x, s)

module _ {W : Type 0} (services : Services W) where
  -- `if id == "" { id = uuid.NewString() }`
  unfoldable pub or_new_uuid : Text → Exec (Store W) Text
  or_new_uuid id s =
      let (made, w) = services.new_uuid s.outside in
      if null id then (ok made, record s { outside = w }) else (ok id, s)

  unfoldable pub time_now : Exec (Store W) Time
  time_now s = let (t, w) = services.now s.outside in (ok t, record s { outside = w })

  -- `if t.IsZero() { t = time.Now() }`
  unfoldable pub or_now : Time → Exec (Store W) Time
  or_now t = if t == 0 then time_now else λ s. (ok t, s)

abbrev pub or_time : Time → Time → Time
or_time t otherwise = if t == 0 then otherwise else t
