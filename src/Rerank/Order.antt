-- ===== src/Rerank/Order.antt =====
-- `applyRerankOrder` and `sanitizeStringList` of apps/server/internal/rag/biz/steps_rerank.go, and
-- `dedupeQueries` of apps/server/internal/rag/biz/helpers.go.
use rago_desk.Base.{
  Option, none, some, List, [], ◌∷◌, ◌++◌, ◌==◌, text_eq, if◌then◌else◌, null, any, Text, trim,
  to_lower, Unicode,
}

-- A chunk with its scores, of which only the ID is read here.
pub record ScoredChunk (S : Type 0) : Type 0 where
  pub chunk_id : Text
  pub scores : S

unfoldable pub sanitize_string_list : List Text → List Text
sanitize_string_list [] = []
sanitize_string_list (item ∷ items) =
    let rest = sanitize_string_list items in if null (trim item) then rest else trim item ∷ rest

module _ {S : Type 0} where
  -- The map from IDs to chunks: the last chunk with an ID stays in it.
  unfoldable pub by_id : List (ScoredChunk S) → Text → Option (ScoredChunk S)
  by_id [] id = none
  by_id (item ∷ ranked) id =
      let later = by_id ranked id in
      elim later [ none ↦ if item.chunk_id == id then some item else none | some last ↦ some last ]

  -- The first loop: the chunks of the order, and the IDs that were found.
  unfoldable pub take_order : List (ScoredChunk S) → List Text → List (ScoredChunk S) × List Text
  take_order ranked [] = ([], [])
  take_order ranked (raw ∷ order) =
      let (out, seen) = take_order ranked order in
      elim (by_id ranked (trim raw)) [
        | none ↦ (out, seen)
        | some item ↦ (item ∷ out, trim raw ∷ seen)
      ]

  -- The second loop: the chunks whose ID was not found.
  unfoldable pub take_rest : List Text → List (ScoredChunk S) → List (ScoredChunk S)
  take_rest seen [] = []
  take_rest seen (item ∷ ranked) =
      let rest = take_rest seen ranked in
      if any (λ id. id == item.chunk_id) seen then rest else item ∷ rest

  unfoldable pub apply_rerank_order : List Text → List (ScoredChunk S) → List (ScoredChunk S)
  apply_rerank_order [] ranked = ranked
  apply_rerank_order (id ∷ order) ranked =
      let (out, seen) = take_order ranked (id ∷ order) in out ++ take_rest seen ranked

module _ ⦃u : Unicode⦄ where
  -- The loop: `seen` holds the lowered queries that were taken.
  unfoldable pub dedupe_loop : List Text → List Text → List Text
  dedupe_loop seen [] = []
  dedupe_loop seen (raw ∷ queries) =
      let q = trim raw in
      let skip = dedupe_loop seen queries in
      let more = dedupe_loop (to_lower q ∷ seen) queries in
      if null q then skip else if any (λ key. key == to_lower q) seen then skip else q ∷ more

  unfoldable pub dedupe_queries : List Text → List Text
  dedupe_queries [] = []
  dedupe_queries (first ∷ queries) =
      let out = dedupe_loop [] (first ∷ queries) in if null out then first ∷ [] else out
