-- ===== src/Rag/Examples.antt =====
-- The theorems on prompts at concrete chunks.
use rago_desk.Base.{
  ℕ, ◌≡◌, ◌≤◌, refl, some, none, List, [], ◌∷◌, ◌==◌, text_eq, if◌then◌else◌, Text, codes, length,
  map, trim, to_lower, ascii,
}
use rago_desk.Rag.Types.{Ranked}
use rago_desk.Rag.Context.{
  ChunkMap, count_of, select_context, select_loop, take_meta, content_fingerprint,
  normalize_for_prompt, one_spaces,
}
use rago_desk.Rag.Bounds.{doc_ids, prints, select_context-bounds}

abbrev ranked_chunk : Text → Ranked ℕ
ranked_chunk id = record {
  result = record {
    chunk_id = id;
    document_id = codes "d";
    document_version_id = codes "v";
    kb_id = codes "k";
    score = 1;
  };
  vector_score = 1;
  text_score = 0;
  score = 1;
}

abbrev ranking : List (Ranked ℕ)
ranking = ranked_chunk (codes "a") ∷ ranked_chunk (codes "b") ∷ ranked_chunk (codes "c") ∷ []

abbrev loaded : ChunkMap
loaded id =
    if id == codes "c"
    then none
    else some (record {
      chunk_id = id;
      document_id = codes "d";
      document_version_id = codes "v";
      kb_id = codes "k";
      content = codes "One text";
      section = [];
      page_no = 0;
      source_uri = [];
    })

-- The sum of a text is the text here.
abbrev sum_of : Text → Text
sum_of t = t

-- The second chunk has the content of the first one.
select_context-bounds_example :
    (length (select_context ⦃u = ascii⦄ sum_of loaded ranking) ≤ 12)
    × (count_of (codes "d") (doc_ids (select_context ⦃u = ascii⦄ sum_of loaded ranking)) ≤ 3)
    × (count_of
          (codes "one text")
          (prints ⦃u = ascii⦄ sum_of (select_context ⦃u = ascii⦄ sum_of loaded ranking))
        ≤ 1)
select_context-bounds_example =
    select_context-bounds ⦃u = ascii⦄ sum_of (codes "d") (codes "one text") loaded ranking refl

select_context_run :
    map (λ m. m.chunk_id) (select_context ⦃u = ascii⦄ sum_of loaded ranking) ≡ codes "a" ∷ []
unfolding select_context select_loop take_meta content_fingerprint normalize_for_prompt one_spaces
    trim to_lower count_of
select_context_run = refl
