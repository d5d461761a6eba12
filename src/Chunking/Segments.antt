-- ===== src/Chunking/Segments.antt =====
-- The segments of a block: how many tokens each has, and all have together.
use rago_desk.Base.{
  ℕ, ◌+◌, ◌≤◌, ◌<◌, ◌≡◌, refl, sym, ◌∙◌, inl, inr, true, false, not, ◌&&◌, List, [], ◌∷◌, ◌++◌,
  arith, Bool-cases, ltb, if◌then◌else◌, null, All, All-append, Text, codes, trim, Unicode, pos,
}
use rago_desk.Chunking.Tokens.{estimate_token_count, split_by_tokens}
use rago_desk.Chunking.Sentences.{
  join, SegmentState, flush_segment, nonempty_parts, append_sentence, add_sentence, segment_loop,
}
use rago_desk.Chunking.TokenCount.{
  starts, token_sum, estimate-starts, starts-trim, starts-join_words, token_sum-append,
}
use rago_desk.Chunking.Pieces.{parts-Bounded, parts-total}

module _ ⦃u : Unicode⦄ where
  abbrev pub Short : ℕ → List Text → Type 0
  Short n = All (λ p. starts false p ≤ n)

  pub token_sum-one : (p : Text) → token_sum (p ∷ []) ≡ starts false p
  unfolding token_sum
  token_sum-one p = omega arith

  pub starts-null : (p : Text) → null p ≡ true → starts false p ≡ 0
  unfolding starts
  starts-null [] h = refl
  starts-null (r ∷ p) h = cc

  pub null-trim : (p : Text) → null (trim p) ≡ true → starts false p ≡ 0
  null-trim p h = sym (starts-trim p) ∙ starts-null (trim p) h

  nonempty_parts-total : (ps : List Text) → token_sum (nonempty_parts ps) ≡ token_sum ps
  unfolding nonempty_parts token_sum
  nonempty_parts-total [] = refl
  nonempty_parts-total (p ∷ ps) =
      ground (arith, nonempty_parts-total ps, null-trim p, starts-trim p)

  nonempty_parts-Short : (n : ℕ) (ps : List Text) → Short n ps → Short n (nonempty_parts ps)
  unfolding nonempty_parts
  nonempty_parts-Short n [] h = tt
  nonempty_parts-Short n (p ∷ ps) (hp, h) = elim (Bool-cases (null (trim p))) [
    | inl e ↦ rw e (nonempty_parts-Short n ps h)
    | inr e ↦ rw e (omega (arith, starts-trim p), nonempty_parts-Short n ps h)
  ]

  -- The counter is the buffer's, the segments are short, and `total` tokens are kept in all.
  pub record IsSound (n total : ℕ) (s : SegmentState) : Type 0 where
    counted : s.token_count ≡ token_sum s.buf
    fits : s.token_count ≤ n
    short : Short n s.segments
    kept : token_sum s.segments + token_sum s.buf ≡ total

  joined : (buf : List Text) → starts false (trim (join (codes " ") buf)) ≡ token_sum buf
  joined buf = starts-trim (join (codes " ") buf) ∙ starts-join_words buf

  token_sum-null : (l : List Text) → null l ≡ true → token_sum l ≡ 0
  unfolding token_sum
  token_sum-null [] h = refl
  token_sum-null (x ∷ l) h = cc

  IsSound-resize :
      (n total total' : ℕ) (s : SegmentState)
      → total ≡ total'
      → IsSound n total s
      → IsSound n total' s
  IsSound-resize n total total' s e v = record {
    counted = v.counted;
    fits = v.fits;
    short = v.short;
    kept = v.kept ∙ e;
  }

  flush-IsSound :
      (n total : ℕ) (s : SegmentState)
      → IsSound n total s
      → IsSound n total (flush_segment s) × (token_sum (flush_segment s).buf ≡ 0)
  unfolding flush_segment token_sum
  flush-IsSound n total s v = elim (Bool-cases (null s.buf)) [
    | inl e ↦ rw e (v, token_sum-null s.buf e)
    | inr e ↦ rw e (
      record {
        counted = refl;
        fits = omega arith;
        short =
            All-append _ s.segments _ v.short (omega (arith, joined s.buf, v.counted, v.fits), tt);
        kept = omega (
          arith,
          v.kept,
          joined s.buf,
          token_sum-append s.segments (trim (join (codes " ") s.buf) ∷ []),
        );
      },
      refl,
    )
  ]

  append-IsSound :
      (n total k : ℕ) (s : SegmentState) (x : Text)
      → IsSound n total s
      → starts false x ≡ k
      → s.token_count + k ≤ n
      → IsSound n (total + k) (append_sentence s x k)
  unfolding append_sentence
  append-IsSound n total k s x v e h = record {
    counted = omega (arith, v.counted, token_sum-append s.buf (x ∷ []), token_sum-one x);
    fits = h;
    short = v.short;
    kept = omega (arith, v.kept, token_sum-append s.buf (x ∷ []), token_sum-one x);
  }

  -- A sentence that is longer than a segment is cut by its tokens.
  long-IsSound :
      (n total : ℕ) (s : SegmentState) (x : Text)
      → 0 < n
      → IsSound n total s
      → IsSound n
          (total + starts false x)
          (record s { segments = s.segments ++ nonempty_parts (split_by_tokens x (pos n) (pos 0)) })
  long-IsSound n total s x h v =
      let parts = split_by_tokens x (pos n) (pos 0) in
      record {
        counted = v.counted;
        fits = v.fits;
        short =
            All-append _ s.segments _ v.short
              (nonempty_parts-Short n parts (parts-Bounded x n (pos 0) h));
        kept = omega (
          arith,
          v.kept,
          token_sum-append s.segments (nonempty_parts parts),
          nonempty_parts-total parts,
          parts-total x n h,
        );
      }

  -- A short sentence goes into the buffer, which is flushed before where the two do not fit.
  short-IsSound :
      (n total k : ℕ) (s : SegmentState) (x : Text)
      → k ≤ n
      → starts false x ≡ k
      → IsSound n total s
      → IsSound n (total + k) (
          if ltb n (s.token_count + k) && not (null s.buf)
          then append_sentence (flush_segment s) x k
          else append_sentence s x k)
  short-IsSound n total k s x h e v =
      elim (Bool-cases (ltb n (s.token_count + k) && not (null s.buf))) [
        | inl full ↦
            let (w, empty) = flush-IsSound n total s v in
            rw full
              (append-IsSound n total k (flush_segment s) x w e (omega (arith, w.counted, empty)))
        | inr room ↦ rw room (append-IsSound n total k s x v e (fits room))
      ]
    where
      fits : (ltb n (s.token_count + k) && not (null s.buf)) ≡ false → s.token_count + k ≤ n
      fits room = ground (arith, v.counted, token_sum-null s.buf)

  -- One round keeps the invariant and adds the sentence's tokens.
  add-IsSound :
      (n total : ℕ) (s : SegmentState) (raw : Text)
      → 0 < n
      → IsSound n total s
      → IsSound n (total + starts false raw) (add_sentence n s raw)
  unfolding add_sentence
  add-IsSound n total s raw h v =
      let size : starts false (trim raw) ≡ starts false raw = starts-trim raw in
      elim (Bool-cases (null (trim raw))) [
        | inl e ↦ rw e (IsSound-resize n total _ s (omega (arith, null-trim raw e)) v)
        | inr e ↦ elim (Bool-cases (ltb n (estimate_token_count (trim raw)))) [
          | inl long ↦
              rw (e, long)
                (IsSound-resize n _ _ _ (omega arith) (
                  long-IsSound n total (flush_segment s) (trim raw) h
                    (flush-IsSound n total s v).0))
          | inr short ↦
              rw (e, short)
                (IsSound-resize n _ _ _ (omega (arith, estimate-starts (trim raw))) (
                  short-IsSound n total (estimate_token_count (trim raw)) s (trim raw)
                    (ground arith) (sym (estimate-starts (trim raw))) v))
        ]
      ]

  pub loop-IsSound :
      (n total : ℕ) (s : SegmentState) (xs : List Text)
      → 0 < n
      → IsSound n total s
      → Short n (segment_loop n s xs).segments
        × (token_sum (segment_loop n s xs).segments ≡ total + token_sum xs)
  unfolding segment_loop token_sum
  loop-IsSound n total s [] h v =
      let (w, empty) = flush-IsSound n total s v in (w.short, omega (arith, w.kept, empty))
  loop-IsSound n total s (x ∷ xs) h v =
      let (short, sum) =
        loop-IsSound n (total + starts false x) (add_sentence n s x) xs h
          (add-IsSound n total s x h v) in
      (short, omega (arith, sum))

  pub IsSound-start : (n : ℕ) → IsSound n 0 (record { segments = []; buf = []; token_count = 0 })
  unfolding token_sum
  IsSound-start n = record { counted = refl; fits = omega arith; short = tt; kept = refl }
