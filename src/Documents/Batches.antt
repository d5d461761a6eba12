-- ===== src/Documents/Batches.antt =====
-- What the batches of `embedChunks` do together, apps/server/internal/knowledge/biz/embedding.go.
use rago_desk.Base.{
  ℕ, zero, suc, ◌≡◌, ◌≤◌, ◌∙◌, refl, sym, ap, List, [], ◌∷◌, ◌++◌, length, take, drop, map, Text,
  ok, arith, ℤ, pos, pos_part, leℤ, if◌then◌else◌, Bool-cases, inl, inr, continue-ok, ok_inj, ◌==◌,
  nat_eq, true,
}
use rago_desk.Chunking.Build.{DocChunk}
use rago_desk.Documents.Types.{EmbeddedChunk, KnowledgeUsecase}
use rago_desk.Documents.Embedding.{
  pair_vectors, contents, paired, embed_batch, embed_batches, embed_chunks,
}

take-drop : (n : ℕ) (xs : List DocChunk) → take n xs ++ drop n xs ≡ xs
take-drop zero xs = refl
take-drop (suc n) [] = refl
take-drop (suc n) (x ∷ xs) = ap (λ ys. x ∷ ys) (take-drop n xs)

map-append :
    (f : DocChunk → EmbeddedChunk) (xs ys : List DocChunk) → map f (xs ++ ys) ≡ map f xs ++ map f ys
map-append f [] ys = refl
map-append f (x ∷ xs) ys = ap (λ zs. f x ∷ zs) (map-append f xs ys)

length-drop : (n : ℕ) (xs : List DocChunk) → length (drop n xs) ≤ length xs
length-drop zero xs = omega arith
length-drop (suc n) [] = omega arith
length-drop (suc n) (x ∷ xs) = omega (arith, length-drop n xs)

drop_less :
    (n : ℕ) (x : DocChunk) (xs : List DocChunk) → 1 ≤ n → length (drop n (x ∷ xs)) ≤ length xs
drop_less zero x xs h = absurd (omega (arith, h))
drop_less (suc n) x xs h = length-drop n xs

-- A chunk with the vector of its text.
abbrev pub embedded_as : (Text → List ℕ) → DocChunk → EmbeddedChunk
embedded_as vector c = record { chunk = c; vector = vector c.content }

pairs :
    (vector : Text → List ℕ) (cs : List DocChunk)
    → pair_vectors cs (map vector (contents cs)) ≡ map (embedded_as vector) cs
unfolding pair_vectors
pairs vector [] = refl
pairs vector (c ∷ cs) = ap (λ es. embedded_as vector c ∷ es) (pairs vector cs)

one_each :
    (vector : Text → List ℕ) (cs : List DocChunk)
    → (length (map vector (contents cs)) == length cs) ≡ true
one_each vector [] = refl
one_each vector (c ∷ cs) = ground (arith, one_each vector cs)

module _ {W : Type 0} (uc : KnowledgeUsecase W) (vector : Text → List ℕ)
    (answers : (texts : List Text) (w : W)
      → (uc.embedder.embed texts w).0 ≡ ok (map vector texts)) where
  embed_batch-map :
      (batch : List DocChunk) (w : W)
      → (embed_batch uc batch w).0 ≡ ok (map (embedded_as vector) batch)
  unfolding embed_batch paired
  embed_batch-map batch w =
      rw (answers (contents batch) w, one_each vector batch, pairs vector batch) refl

  embed_batches-map :
      (size fuel : ℕ) (cs : List DocChunk) (w : W)
      → 1 ≤ size
      → length cs ≤ fuel
      → (embed_batches uc size fuel cs w).0 ≡ ok (map (embedded_as vector) cs)
  unfolding embed_batches
  embed_batches-map size zero [] w h le = refl
  embed_batches-map size zero (c ∷ cs) w h le = absurd (omega (arith, le))
  embed_batches-map size (suc fuel) [] w h le = refl
  embed_batches-map size (suc fuel) (c ∷ cs) w h le =
      let less = drop_less size c cs h in
      let batch = take size (c ∷ cs) in
      let rest = drop size (c ∷ cs) in
      let w' = (embed_batch uc batch w).1 in
      rw (embed_batch-map batch w, embed_batches-map size fuel rest w' h (omega (arith, less, le)))
        (ap ok (
          sym (map-append (embedded_as vector) batch rest)
          ∙ ap (map (embedded_as vector)) (take-drop size (c ∷ cs))))

positive_size : (n : ℤ) → 1 ≤ (if leℤ n (pos 0) then 64 else pos_part n)
positive_size n = ground arith

-- If the provider answers every list of texts with the vector of each text in turn, then the batches
-- together, whatever the configured batch size, give each chunk with the vector of its content, in
-- the chunks' order.
pub embed_chunks-map :
    {W : Type 0} (uc : KnowledgeUsecase W) (vector : Text → List ℕ)
    (answers : (texts : List Text) (w : W) → (uc.embedder.embed texts w).0 ≡ ok (map vector texts))
    (chunks : List DocChunk) (w : W)
    → (embed_chunks uc chunks w).0 ≡ ok (map (embedded_as vector) chunks)
unfolding embed_chunks
embed_chunks-map uc vector answers chunks w =
    embed_batches-map uc vector answers _ (length chunks) chunks w
      (positive_size uc.embedding_batch_size) (omega arith)

abbrev pub chunks_of : List EmbeddedChunk → List DocChunk
chunks_of = map (λ e. e.chunk)

chunks_of-append :
    (xs ys : List EmbeddedChunk) → chunks_of (xs ++ ys) ≡ chunks_of xs ++ chunks_of ys
chunks_of-append [] ys = refl
chunks_of-append (x ∷ xs) ys = ap (λ zs. x.chunk ∷ zs) (chunks_of-append xs ys)

chunks_of-pairs :
    (cs : List DocChunk) (vs : List (List ℕ))
    → length vs ≡ length cs
    → chunks_of (pair_vectors cs vs) ≡ cs
unfolding pair_vectors
chunks_of-pairs [] vs h = refl
chunks_of-pairs (c ∷ cs) [] h = absurd (omega (arith, h))
chunks_of-pairs (c ∷ cs) (v ∷ vs) h = ap (λ ds. c ∷ ds) (chunks_of-pairs cs vs (omega (arith, h)))

chunks_of-paired :
    (cs : List DocChunk) (vs : List (List ℕ)) (es : List EmbeddedChunk)
    → paired cs vs ≡ ok es
    → chunks_of es ≡ cs
unfolding paired
chunks_of-paired cs vs es = elim (Bool-cases (length vs == length cs)) [
  | inl e ↦ rw e (λ q.
      ap chunks_of (sym (ok_inj (pair_vectors cs vs) es q))
      ∙ chunks_of-pairs cs vs ((nat_eq.same_iff (length vs) (length cs)).0 e))
  | inr e ↦ rw e (λ q. absurd (cc q))
]

module _ {W : Type 0} (uc : KnowledgeUsecase W) where
  embed_batches-chunks :
      (size fuel : ℕ) (cs : List DocChunk) (w : W) (es : List EmbeddedChunk)
      → 1 ≤ size
      → length cs ≤ fuel
      → (embed_batches uc size fuel cs w).0 ≡ ok es
      → chunks_of es ≡ cs
  unfolding embed_batches embed_batch
  embed_batches-chunks size zero [] w es h le p = ap chunks_of (sym (ok_inj [] es p))
  embed_batches-chunks size zero (c ∷ cs) w es h le p = absurd (omega (arith, le))
  embed_batches-chunks size (suc fuel) [] w es h le p = ap chunks_of (sym (ok_inj [] es p))
  embed_batches-chunks size (suc fuel) (c ∷ cs) w es h le p =
      let less = drop_less size c cs h in
      let batch = take size (c ∷ cs) in
      let rest = drop size (c ∷ cs) in
      let (done, (first, p1)) =
        continue-ok (embed_batch uc batch w).0 _ (embed_batch uc batch w).1 es p in
      let (later, (second, p2)) =
        continue-ok (embed_batches uc size fuel rest (embed_batch uc batch w).1).0 _ _ es p1 in
      let (vs, (_, p3)) = continue-ok (uc.embedder.embed (contents batch) w).0 _ _ done first in
      ap chunks_of (sym (ok_inj (done ++ later) es p2))
      ∙ chunks_of-append done later
      ∙ ap (λ x. x ++ chunks_of later) (chunks_of-paired batch vs done p3)
      ∙ ap (λ x. batch ++ x)
          (embed_batches-chunks size fuel rest _ later h (omega (arith, less, le)) second)
      ∙ take-drop size (c ∷ cs)

-- Whatever the provider answers and whatever the configured batch size: if the embedding of chunks
-- succeeds, it gives each of the chunks once, in their order.
pub embed_chunks-chunks :
    {W : Type 0} (uc : KnowledgeUsecase W) (chunks : List DocChunk) (w : W)
    (es : List EmbeddedChunk)
    → (embed_chunks uc chunks w).0 ≡ ok es
    → chunks_of es ≡ chunks
unfolding embed_chunks
embed_chunks-chunks uc chunks w es =
    embed_batches-chunks uc _ (length chunks) chunks w es (positive_size uc.embedding_batch_size)
      (omega arith)
