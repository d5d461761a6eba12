-- ===== src/Documents/Embedding.antt =====
-- `embedChunks` of apps/server/internal/knowledge/biz/embedding.go.
use rago_desk.Base.{
  ℕ, zero, suc, not, List, [], ◌∷◌, ◌++◌, ◌==◌, nat_eq, if◌then◌else◌, length, take, drop, map,
  Text, codes, err, Exec, pure, lift, ◌>>=◌, Result, ok, internal_server, pos, pos_part, leℤ,
}
use rago_desk.Chunking.Build.{DocChunk}
use rago_desk.Documents.Types.{EmbeddedChunk, KnowledgeUsecase}

-- `Vector: vectors[i]` for each chunk of a batch.
unfoldable pub pair_vectors : List DocChunk → List (List ℕ) → List EmbeddedChunk
pair_vectors [] vectors = []
pair_vectors (c ∷ chunks) [] = []
pair_vectors (c ∷ chunks) (v ∷ vectors) =
    record { chunk = c; vector = v } ∷ pair_vectors chunks vectors

abbrev pub contents : List DocChunk → List Text
contents = map (λ c. c.content)

unfoldable pub paired : List DocChunk → List (List ℕ) → Result (List EmbeddedChunk)
paired batch vectors =
    if not (length vectors == length batch)
    then err (internal_server (codes "EMBEDDING_COUNT_MISMATCH"))
    else ok (pair_vectors batch vectors)

module _ {W : Type 0} (uc : KnowledgeUsecase W) where
  unfoldable pub embed_batch : List DocChunk → Exec W (List EmbeddedChunk)
  embed_batch batch = do vectors ← uc.embedder.embed (contents batch); lift (paired batch vectors)

  -- The batches of `batch_size` chunks from `rest` on; a round takes one chunk at least, so the number
  -- of chunks is enough fuel.
  unfoldable pub embed_batches : ℕ → ℕ → List DocChunk → Exec W (List EmbeddedChunk)
  embed_batches batch_size zero rest = pure []
  embed_batches batch_size (suc fuel) [] = pure []
  embed_batches batch_size (suc fuel) (c ∷ rest) = do
    done ← embed_batch (take batch_size (c ∷ rest))
    later ← embed_batches batch_size fuel (drop batch_size (c ∷ rest))
    pure (done ++ later)

  unfoldable pub embed_chunks : List DocChunk → Exec W (List EmbeddedChunk)
  embed_chunks chunks =
      let batch_size =
        if leℤ uc.embedding_batch_size (pos 0) then 64 else pos_part uc.embedding_batch_size in
      embed_batches batch_size (length chunks) chunks
