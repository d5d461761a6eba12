-- ===== src/Documents/Index.antt =====
-- The index of a version and the stored objects, of apps/server/internal/knowledge/data/knowledge.go.
use rago_desk.Base.{
  Bool, not, ◌&&◌, ◌||◌, none, some, List, [], ◌∷◌, ◌++◌, ◌==◌, text_eq, nat_eq, if◌then◌else◌,
  null, any, Text, codes, trim, ok, Exec, pure, raise, ◌>>=◌, ◌>>◌, bad_request, internal_server,
  map, pos, leℤ, replace_pair,
}
use rago_desk.Documents.Types.{
  DocumentVersion, EmbeddedChunk, IndexDocumentVersionRequest, Ctx, Done, Time,
}
use rago_desk.Documents.Uploads.{base_name, slashes}
use rago_desk.Documents.Tables.{
  Store, Services, VectorStore, VectorPoint, string, number, ObjectStorage, ChunkRow, EmbeddingRow,
  all_where, delete_all, require_tenant, on_outside, time_now,
}
use rago_desk.Documents.Statements.{is_document, version_of, get_row}

-- PRIMARY KEY (id), UNIQUE KEY (document_version_id, chunk_index)
unfoldable pub chunk_collides : ChunkRow → ChunkRow → Bool
chunk_collides r row =
    row.chunk.id == r.chunk.id
    || (row.document_version_id == r.document_version_id
        && row.chunk.chunk_index == r.chunk.chunk_index)

-- The columns that `ON DUPLICATE KEY UPDATE` sets.
unfoldable pub overwrite : ChunkRow → ChunkRow → ChunkRow
overwrite r row = record row {
  chunk = record (row.chunk) {
    content = r.chunk.content;
    token_count = r.chunk.token_count;
    content_hash = r.chunk.content_hash;
    language = r.chunk.language;
    section = r.chunk.section;
    page_no = r.chunk.page_no;
    source_uri = r.chunk.source_uri;
  };
}

-- The row that collides is updated; of several it is one, here the first.
unfoldable pub upsert_chunk : ChunkRow → List ChunkRow → List ChunkRow
upsert_chunk r [] = r ∷ []
upsert_chunk r (row ∷ rows) =
    let later = row ∷ upsert_chunk r rows in
    if chunk_collides r row then overwrite r row ∷ rows else later

-- PRIMARY KEY (id), UNIQUE KEY (chunk_id, model); `model = model` changes nothing.
unfoldable pub upsert_embedding : EmbeddingRow → List EmbeddingRow → List EmbeddingRow
upsert_embedding r rows =
    if any (λ row. row.id == r.id || (row.chunk_id == r.chunk_id && row.model == r.model)) rows
    then rows
    else rows ++ r ∷ []

-- Embeddings of a tenant that belong to a chunk for which `p` holds.
unfoldable pub drop_embeddings :
    Text → (ChunkRow → Bool) → List ChunkRow → List EmbeddingRow → List EmbeddingRow
drop_embeddings tenant_id p chunks =
    delete_all (λ e. e.tenant_id == tenant_id && any (λ c. c.chunk.id == e.chunk_id && p c) chunks)

module _ {W : Type 0} (services : Services W) where
  unfoldable pub deterministic_embedding_id : Text → Text → Text
  deterministic_embedding_id chunk_id model = services.uuid_sha1 (chunk_id ++ codes "|" ++ model)

  unfoldable pub chunk_row : Text → IndexDocumentVersionRequest → EmbeddedChunk → ChunkRow
  chunk_row tenant_id req item = record {
    tenant_id = tenant_id;
    kb_id = req.kb_id;
    document_id = req.document_id;
    document_version_id = req.document_version_id;
    chunk = item.chunk;
  }

  unfoldable pub embedding_row :
      Text → IndexDocumentVersionRequest → Time → EmbeddedChunk → EmbeddingRow
  embedding_row tenant_id req now item = record {
    id = deterministic_embedding_id item.chunk.id req.embedding_model;
    tenant_id = tenant_id;
    chunk_id = item.chunk.id;
    model = req.embedding_model;
    created_at = now;
  }

  unfoldable pub point : Text → IndexDocumentVersionRequest → EmbeddedChunk → VectorPoint
  point tenant_id req item = record {
    id = item.chunk.id;
    vector = item.vector;
    payload =
        (codes "tenant_id", string tenant_id)
        ∷ (codes "kb_id", string req.kb_id)
        ∷ (codes "document_id", string req.document_id)
        ∷ (codes "document_version_id", string req.document_version_id)
        ∷ (codes "document_title", string (trim req.document_title))
        ∷ (codes "source_type", string (trim req.source_type))
        ∷ (codes "chunk_id", string item.chunk.id)
        ∷ (codes "chunk_index", number item.chunk.chunk_index)
        ∷ (codes "token_count", number item.chunk.token_count)
        ∷ (codes "content_hash", string item.chunk.content_hash)
        ∷ (codes "language", string item.chunk.language)
        ∷ (codes "section", string item.chunk.section)
        ∷ (codes "page_no", number item.chunk.page_no)
        ∷ (codes "source_uri", string item.chunk.source_uri)
        ∷ (codes "created_at", number (services.unix_milli item.chunk.created_at))
        ∷ [];
  }

  -- The loop of the transaction.
  unfoldable pub write_chunks :
      Text → IndexDocumentVersionRequest → Time → List EmbeddedChunk → Store W → Store W
  write_chunks tenant_id req now [] s = s
  write_chunks tenant_id req now (item ∷ items) s = write_chunks tenant_id req now items (record s {
    chunks = upsert_chunk (chunk_row tenant_id req item) s.chunks;
    embeddings = upsert_embedding (embedding_row tenant_id req now item) s.embeddings;
  })

  unfoldable pub upsert_version :
      VectorStore W → Text → IndexDocumentVersionRequest → Exec (Store W) Done
  upsert_version vector tenant_id req =
      on_outside (vector.ensure_collection services.collection req.embedding_dim)
      >> time_now services
      >>= λ now.
          on_outside
            (vector.upsert_points services.collection (map (point tenant_id req) req.chunks))
          >> λ s. (ok tt, write_chunks tenant_id req now req.chunks s)

  -- `if r.vector != nil && r.collection != "" { … }`
  unfoldable pub delete_vectors : List (Text × Text) → Exec (Store W) Done
  delete_vectors filter = elim services.vector [
    | none ↦ pure tt
    | some vector ↦
        if null services.collection
        then pure tt
        else on_outside (vector.delete_points services.collection filter)
  ]

  unfoldable pub drop_version : Text → Text → Store W → Store W
  drop_version tenant_id version_id s = record s {
    embeddings =
        drop_embeddings tenant_id (λ c. c.document_version_id == version_id) s.chunks s.embeddings;
    chunks =
        delete_all (λ c. c.tenant_id == tenant_id && c.document_version_id == version_id) s.chunks;
  }

  unfoldable pub drop_document : Text → Text → Store W → Store W
  drop_document tenant_id document_id s = record s {
    embeddings =
        drop_embeddings tenant_id (λ c. c.document_id == document_id) s.chunks s.embeddings;
    chunks = delete_all (λ c. c.tenant_id == tenant_id && c.document_id == document_id) s.chunks;
    versions = delete_all (version_of tenant_id document_id) s.versions;
    documents = delete_all (is_document tenant_id document_id) s.documents;
  }

  unfoldable pub delete_objects : ObjectStorage W → List DocumentVersion → Exec (Store W) Done
  delete_objects storage [] = pure tt
  delete_objects storage (v ∷ versions) =
      on_outside (storage.delete v.raw_uri) >> delete_objects storage versions

  -- The objects of the versions that name one, where there is a storage.
  unfoldable pub delete_stored : List DocumentVersion → Exec (Store W) Done
  delete_stored versions = elim services.storage [
    | none ↦ pure tt
    | some storage ↦ delete_objects storage (all_where (λ v. not (null v.raw_uri)) versions)
  ]

module _ {W : Type 0} (services : Services W) (ctx : Ctx) where
  unfoldable pub index_version : IndexDocumentVersionRequest → Exec (Store W) Done
  index_version req = require_tenant ctx (λ tenant_id. elim services.vector [
    | none ↦ raise (internal_server (codes "VECTORDB_MISSING"))
    | some vector ↦
        if null services.collection
        then raise (internal_server (codes "VECTORDB_COLLECTION_MISSING"))
        else if leℤ req.embedding_dim (pos 0)
        then raise (internal_server (codes "EMBEDDING_DIM_INVALID"))
        else upsert_version services vector tenant_id req
  ])

  unfoldable pub delete_version_index : Text → Text → Exec (Store W) Done
  delete_version_index document_id version_id = require_tenant ctx (λ tenant_id s.
      let filter : List (Text × Text) =
        (codes "tenant_id", tenant_id) ∷ (codes "document_version_id", version_id) ∷ [] in
      if null (trim document_id) || null (trim version_id)
      then (ok tt, s)
      else delete_vectors services filter (drop_version services tenant_id version_id s))

  -- The document that was found is still there when its row is deleted, in one transaction.
  unfoldable pub delete_row : Text → Exec (Store W) Done
  delete_row document_id = require_tenant ctx (λ tenant_id.
      get_row services ctx document_id >>= λ doc s.
      (delete_stored services (all_where (version_of tenant_id document_id) s.versions)
          >> delete_vectors services
              ((codes "tenant_id", tenant_id) ∷ (codes "document_id", doc.id) ∷ []))
        (drop_document services tenant_id document_id s))

  unfoldable pub load_content : DocumentVersion → Exec (Store W) Text
  load_content v =
      if null (trim v.raw_uri)
      then raise (bad_request (codes "DOC_RAW_URI_MISSING"))
      else elim services.storage [
        | none ↦ raise (internal_server (codes "OBJECT_STORAGE_MISSING"))
        | some storage ↦ on_outside (storage.get (trim v.raw_uri)) >>= λ payload.
            if null payload then raise (bad_request (codes "DOC_CONTENT_EMPTY")) else pure payload
      ]

unfoldable pub sanitize_filename : Text → Text
sanitize_filename name =
    let base = base_name (slashes (trim name)) in
    let plain = replace_pair b'.' b'.' [] base in
    if null (trim name) then [] else map (λ c. if c == b'/' || c == 32 then b'_' else c) plain

module _ {W : Type 0} (services : Services W) where
  unfoldable pub build_object_key : Text → Text → Text → Time → Text
  build_object_key tenant_id kb_id filename now =
      codes "tenants/"
      ++ (if null (trim tenant_id) then codes "tenant" else trim tenant_id)
      ++ codes "/knowledge/"
      ++ (if null kb_id then codes "kb" else kb_id)
      ++ codes "/"
      ++ services.format_nanos now
      ++ codes "_"
      ++ filename

  unfoldable pub put_object : Ctx → Text → Text → Text → Text → Exec (Store W) Text
  put_object ctx kb_id filename payload content_type = require_tenant ctx (λ tenant_id.
      elim services.storage [
        | none ↦ raise (internal_server (codes "OBJECT_STORAGE_MISSING"))
        | some storage ↦ time_now services >>= λ now.
            let name = sanitize_filename filename in
            on_outside (
              storage.put
                (build_object_key tenant_id kb_id (if null name then codes "document" else name)
                  now)
                payload content_type)
      ])
