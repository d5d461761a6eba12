-- ===== src/Rag/Bounds.antt =====
-- How much of what was retrieved goes into a prompt: apps/server/internal/rag/biz/prompt.go.
use rago_desk.Base.{
  ℕ, suc, ◌+◌, ◌≤◌, ◌≡◌, refl, sym, ap, inl, inr, true, false, not, ◌&&◌, ◌||◌, Option, none, some,
  List, [], ◌∷◌, ◌++◌, leb, ◌==◌, nat_eq, text_eq, if◌then◌else◌, null, any, map, length,
  length-append, Text, trim, Unicode, Bool-cases, arith,
}
use rago_desk.Rag.Types.{Ranked, ChunkMeta}
use rago_desk.Rag.Context.{
  ChunkMap, count_of, Selection, content_fingerprint, take_meta, select_loop, select_context,
}

abbrev pub doc_ids : List ChunkMeta → List Text
doc_ids = map (λ m. trim m.document_id)

count_of-snoc :
    (id x : Text) (xs : List Text)
    → count_of id (xs ++ x ∷ []) ≡ count_of id xs + (if x == id then 1 else 0)
unfolding count_of
count_of-snoc id x [] = omega arith
count_of-snoc id x (y ∷ xs) = let ih = count_of-snoc id x xs in omega (arith, ih)

map-snoc :
    {A : Type 0} (f : A → Text) (xs : List A) (x : A) → map f (xs ++ x ∷ []) ≡ map f xs ++ f x ∷ []
map-snoc f [] x = refl
map-snoc f (y ∷ xs) x = ap (λ ys. f y ∷ ys) (map-snoc f xs x)

absent-count : (key : Text) (xs : List Text) → any (λ k. k == key) xs ≡ false → count_of key xs ≡ 0
unfolding count_of
absent-count key [] h = refl
absent-count key (x ∷ xs) h = ground (arith, absent-count key xs, h)

null-differs : (id d : Text) → null id ≡ false → null d ≡ true → (d == id) ≡ false
null-differs [] d named blank = cc
null-differs (c ∷ id) [] named blank = refl
null-differs (c ∷ id) (x ∷ d) named blank = cc

one_more_named :
    (id d : Text) (docs : List Text) (n : ℕ)
    → n ≡ count_of id docs
    → count_of id docs ≤ 3
    → leb 3 (count_of d docs) ≡ false
    → (n + (if d == id then 1 else 0) ≡ count_of id (d ∷ docs)) × (count_of id (d ∷ docs) ≤ 3)
unfolding count_of
one_more_named id d docs n same few room = elim (Bool-cases (d == id)) [
  | inl is_id ↦
      let rest : count_of id docs ≤ 2 =
        rw (sym ((text_eq.same_iff d id).0 is_id)) (ground (arith, room)) in
      rw is_id (omega (arith, same), omega (arith, rest))
  | inr other ↦ rw other (omega (arith, same), omega (arith, few))
]

-- One more block of a document that has room for it.
one_more :
    (id d : Text) (docs : List Text) (n : ℕ)
    → null id ≡ false
    → n ≡ count_of id docs
    → count_of id docs ≤ 3
    → (not (null d) && leb 3 (count_of d docs)) ≡ false
    → (n + (if d == id then 1 else 0) ≡ count_of id (if null d then docs else d ∷ docs))
      × (count_of id (if null d then docs else d ∷ docs) ≤ 3)
unfolding count_of
one_more id d docs n named same few room = elim (Bool-cases (null d)) [
  | inl blank ↦ rw blank (rw (null-differs id d named blank) (omega (arith, same), few))
  | inr full ↦ rw full (one_more_named id d docs n same few (ground (arith, room, full)))
]

-- A fingerprint that is new.
one_print :
    (key x : Text) (seen : List Text) (n : ℕ)
    → n ≡ count_of key seen
    → count_of key seen ≤ 1
    → any (λ k. k == x) seen ≡ false
    → (n + (if x == key then 1 else 0) ≡ count_of key (x ∷ seen)) × (count_of key (x ∷ seen) ≤ 1)
unfolding count_of
one_print key x seen n same few fresh = elim (Bool-cases (x == key)) [
  | inl is_key ↦ rw is_key (
    omega (arith, same),
    ground (arith, absent-count key seen (rw (sym ((text_eq.same_iff x key).0 is_key)) fresh)),
  )
  | inr other ↦ rw other (omega (arith, same), omega (arith, few))
]

module _ ⦃u : Unicode⦄ (sha256_hex : Text → Text) where
  abbrev pub prints : List ChunkMeta → List Text
  prints = map (λ m. content_fingerprint sha256_hex m.content)

module _ ⦃u : Unicode⦄ (sha256_hex : Text → Text) (id key : Text) (named : null id ≡ false) where
  -- What the loop keeps true of its variables.
  abbrev Kept : Selection → Type 0
  Kept s =
      (count_of id (doc_ids s.out) ≡ count_of id s.docs)
      × (count_of id s.docs ≤ 3)
      × (count_of key (prints sha256_hex s.out) ≡ count_of key s.seen)
      × (count_of key s.seen ≤ 1)

  added_doc :
      (s : Selection) (m : ChunkMeta)
      → count_of id (doc_ids s.out) ≡ count_of id s.docs
      → count_of id s.docs ≤ 3
      → (not (null (trim m.document_id)) && leb 3 (count_of (trim m.document_id) s.docs)) ≡ false
      → (count_of id (doc_ids (s.out ++ m ∷ []))
          ≡ count_of id (if null (trim m.document_id) then s.docs else trim m.document_id ∷ s.docs))
        × (count_of id (if null (trim m.document_id) then s.docs else trim m.document_id ∷ s.docs)
            ≤ 3)
  added_doc s m same few room =
      rw
        (
          map-snoc (λ (x : ChunkMeta). trim x.document_id) s.out m,
          count_of-snoc id (trim m.document_id) (doc_ids s.out),
        )
        (one_more id (trim m.document_id) s.docs (count_of id (doc_ids s.out)) named same few room)

  added_print :
      (s : Selection) (m : ChunkMeta)
      → count_of key (prints sha256_hex s.out) ≡ count_of key s.seen
      → count_of key s.seen ≤ 1
      → any (λ k. k == content_fingerprint sha256_hex m.content) s.seen ≡ false
      → (count_of key (prints sha256_hex (s.out ++ m ∷ []))
          ≡ count_of key (content_fingerprint sha256_hex m.content ∷ s.seen))
        × (count_of key (content_fingerprint sha256_hex m.content ∷ s.seen) ≤ 1)
  added_print s m same few fresh =
      rw
        (
          map-snoc (λ (x : ChunkMeta). content_fingerprint sha256_hex x.content) s.out m,
          count_of-snoc key (content_fingerprint sha256_hex m.content) (prints sha256_hex s.out),
        )
        (one_print key (content_fingerprint sha256_hex m.content) s.seen
          (count_of key (prints sha256_hex s.out)) same few fresh)

  take_meta-Kept :
      (s : Selection) (found : Option ChunkMeta) → Kept s → Kept (take_meta sha256_hex s found)
  unfolding take_meta
  take_meta-Kept s none kept = kept
  take_meta-Kept s (some m) (doc_same, doc_few, print_same, print_few) =
      elim (Bool-cases (
        null (trim m.content)
        || any (λ k. k == content_fingerprint sha256_hex m.content) s.seen
        || (not (null (trim m.document_id)) && leb 3 (count_of (trim m.document_id) s.docs)))) [
          | inl skipped ↦ rw skipped (doc_same, doc_few, print_same, print_few)
          | inr taken ↦
              let doc = added_doc s m doc_same doc_few (ground (arith, taken)) in
              let print = added_print s m print_same print_few (ground (arith, taken)) in
              rw taken (doc.0, doc.1, print.0, print.1)
        ]

  select_loop-Kept :
      {F : Type 0}
      → (chunks : ChunkMap) (s : Selection) (ranked : List (Ranked F)) → Kept s
      → Kept (select_loop sha256_hex chunks s ranked)
  unfolding select_loop
  select_loop-Kept chunks s [] kept = kept
  select_loop-Kept chunks s (item ∷ ranked) kept =
      let s' = take_meta sha256_hex s (chunks item.result.chunk_id) in
      let now = take_meta-Kept s (chunks item.result.chunk_id) kept in
      elim (Bool-cases (leb 12 (length s'.out))) [
        | inl full ↦ rw full now
        | inr space ↦ rw space (select_loop-Kept chunks s' ranked now)
      ]

module _ ⦃u : Unicode⦄ (sha256_hex : Text → Text) where
  length-take_meta :
      (s : Selection) (found : Option ChunkMeta)
      → length (take_meta sha256_hex s found).out ≤ suc (length s.out)
  unfolding take_meta
  length-take_meta s none = omega arith
  length-take_meta s (some m) =
      elim (Bool-cases (
        null (trim m.content)
        || any (λ k. k == content_fingerprint sha256_hex m.content) s.seen
        || (not (null (trim m.document_id)) && leb 3 (count_of (trim m.document_id) s.docs)))) [
          | inl skipped ↦ rw skipped (omega arith)
          | inr taken ↦ rw taken (omega (arith, length-append s.out (m ∷ [])))
        ]

  length-select_loop :
      {F : Type 0}
      → (chunks : ChunkMap) (s : Selection) (ranked : List (Ranked F)) → length s.out ≤ 11
      → length (select_loop sha256_hex chunks s ranked).out ≤ 12
  unfolding select_loop
  length-select_loop chunks s [] few = omega (arith, few)
  length-select_loop chunks s (item ∷ ranked) few =
      let s' = take_meta sha256_hex s (chunks item.result.chunk_id) in
      let one = length-take_meta s (chunks item.result.chunk_id) in
      elim (Bool-cases (leb 12 (length s'.out))) [
        | inl full ↦ rw full (omega (arith, one, few))
        | inr space ↦ rw space (length-select_loop chunks s' ranked (ground (arith, space)))
      ]

-- Whatever was retrieved, in whatever order, and whatever chunks were loaded: a prompt gets at most twelve blocks,
-- at most three of them of one document that has an ID, and at most one of any fingerprint.
pub select_context-bounds :
    {F : Type 0}
    → ⦃u : Unicode⦄
    → (sha256_hex : Text → Text) (id key : Text) (chunks : ChunkMap) (ranked : List (Ranked F))
    → null id ≡ false
    → (length (select_context sha256_hex chunks ranked) ≤ 12)
      × (count_of id (doc_ids (select_context sha256_hex chunks ranked)) ≤ 3)
      × (count_of key (prints sha256_hex (select_context sha256_hex chunks ranked)) ≤ 1)
unfolding select_context count_of
select_context-bounds sha256_hex id key chunks ranked named =
    let start : Selection = record { seen = []; docs = []; out = [] } in
    let kept =
      select_loop-Kept sha256_hex id key named chunks start ranked
        (refl, omega arith, refl, omega arith) in
    (
      length-select_loop sha256_hex chunks start ranked (omega arith),
      rw kept.0 kept.1,
      rw kept.2 kept.3,
    )
