-- ===== src/Rerank/Examples.antt =====
-- The theorems on the order of chunks at concrete chunks.
use rago_desk.Base.{ℕ, ◌≡◌, ◌||◌, List, [], ◌∷◌, ◌==◌, nat_eq, if◌then◌else◌, Text, codes}
use rago_desk.Rerank.Order.{ScoredChunk, apply_rerank_order}
use rago_desk.Rerank.Counts.{copies, times_named, apply_rerank_order-copies}

abbrev chunks : List (ScoredChunk ℕ)
chunks =
    record { chunk_id = codes "a"; scores = 3 } ∷ record { chunk_id = codes "b"; scores = 2 } ∷ []

abbrev twice : List Text
twice = codes "b" ∷ codes "b " ∷ []

-- A chunk that the model names twice is given to it twice.
apply_rerank_order-copies_example : copies (codes "b") (apply_rerank_order twice chunks) ≡ (
    if copies (codes "b") chunks == 0 || times_named (codes "b") twice == 0
    then copies (codes "b") chunks
    else times_named (codes "b") twice)
apply_rerank_order-copies_example = apply_rerank_order-copies (codes "b") twice chunks
