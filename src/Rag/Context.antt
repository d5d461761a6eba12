-- ===== src/Rag/Context.antt =====
-- The context of a prompt: apps/server/internal/rag/biz/prompt.go.
use rago_desk.Base.{
  ℕ, suc, ◌+◌, length, true, false, Bool, not, ◌&&◌, ◌||◌, Option, none, some, List, [], ◌∷◌, ◌++◌,
  ltb, leb, ◌==◌, nat_eq, text_eq, if◌then◌else◌, null, any, Text, codes, trim, to_lower, is_space,
  Unicode,
}
use rago_desk.Chunking.Build.{format_int32}
use rago_desk.Rag.Types.{Ranked, ChunkMeta, utf8, truncate_text}

-- `space` tells whether the text before ends with a space.
unfoldable pub one_spaces : Bool → Text → Text
one_spaces space [] = []
one_spaces space (r ∷ s) =
    let spaced = one_spaces true s in
    let plain = one_spaces false s in
    if is_space r then (if space then spaced else 32 ∷ spaced) else r ∷ plain

unfoldable pub normalize_for_prompt : Text → Text
normalize_for_prompt text = one_spaces false (trim text)

-- A map from IDs to chunks.
abbrev pub ChunkMap : Type 0
ChunkMap = Text → Option ChunkMeta

unfoldable pub count_of : Text → List Text → ℕ
count_of id [] = 0
count_of id (x ∷ xs) = (if x == id then 1 else 0) + count_of id xs

-- `seen` holds the fingerprints that were taken, `docs` the documents of the blocks that were taken: how
-- often one stands there is `perDoc`.
pub record Selection : Type 0 where
  pub seen : List Text
  pub docs : List Text
  pub out : List ChunkMeta

module _ ⦃u : Unicode⦄ (sha256_hex : Text → Text) where
  unfoldable pub content_fingerprint : Text → Text
  content_fingerprint text = sha256_hex (to_lower (normalize_for_prompt text))

  unfoldable pub take_meta : Selection → Option ChunkMeta → Selection
  take_meta s none = s
  take_meta s (some meta) =
      let key = content_fingerprint meta.content in
      let doc_id = trim meta.document_id in
      let taken : Selection = record {
        seen = key ∷ s.seen;
        docs = if null doc_id then s.docs else doc_id ∷ s.docs;
        out = s.out ++ meta ∷ [];
      } in
      if null (trim meta.content)
        || any (λ k. k == key) s.seen
        || (not (null doc_id) && leb 3 (count_of doc_id s.docs))
      then s
      else taken

  -- The loop; it ends at twelve blocks.
  unfoldable pub select_loop : {F : Type 0} → ChunkMap → Selection → List (Ranked F) → Selection
  select_loop chunks s [] = s
  select_loop chunks s (item ∷ ranked) =
      let s' = take_meta s (chunks item.result.chunk_id) in
      let later = select_loop chunks s' ranked in if leb 12 (length s'.out) then s' else later

  unfoldable pub select_context : {F : Type 0} → ChunkMap → List (Ranked F) → List ChunkMeta
  select_context chunks ranked =
      (select_loop chunks (record { seen = []; docs = []; out = [] }) ranked).out

  unfoldable pub format_context_block : ℕ → ChunkMeta → List ℕ
  format_context_block index meta =
      codes "["
      ++ format_int32 index
      ++ codes "] doc="
      ++ utf8 meta.document_id
      ++ codes " chunk="
      ++ utf8 meta.chunk_id
      ++ (if null meta.section then [] else codes " section=" ++ utf8 meta.section)
      ++ (if not (meta.page_no == 0) && ltb meta.page_no 0x80000000
          then codes " page=" ++ format_int32 meta.page_no
          else [])
      ++ codes "\n"
      ++ truncate_text (normalize_for_prompt meta.content) 1200

  unfoldable pub format_blocks : ℕ → List ChunkMeta → List ℕ
  format_blocks index [] = []
  format_blocks index (meta ∷ metas) =
      format_context_block index meta ++ codes "\n" ++ format_blocks (suc index) metas

  -- The bytes of the prompt.
  unfoldable pub build_prompt : {F : Type 0} → Text → List (Ranked F) → ChunkMap → List ℕ
  build_prompt question ranked chunks =
      let selected = select_context chunks ranked in
      codes
        "Use the context to answer the question. If the context does not contain the answer, say you don't know.\n\n"
      ++ codes "Context:\n"
      ++ format_blocks 1 selected
      ++ (if null selected then codes "(no context available)\n" else [])
      ++ codes "\nQuestion: "
      ++ utf8 (trim question)
      ++ codes "\nAnswer:"
