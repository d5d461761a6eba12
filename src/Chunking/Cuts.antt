-- ===== src/Chunking/Cuts.antt =====
-- The tokens of the sentences that a text is cut into, and of its segments.
use rago_desk.Base.{
  ℕ, ◌+◌, ◌≤◌, ◌≡◌, ap, ◌∙◌, inl, inr, Bool, true, false, List, [], ◌∷◌, ◌++◌, append_assoc,
  append-nil, arith, Bool-cases, Text, trim, Unicode, pos, pos_part,
}
use rago_desk.Chunking.Tokens.{is_word, clamp_int}
use rago_desk.Chunking.Sentences.{
  is_sentence_boundary, flush_sentence, sentence_loop, split_by_sentences, split_block_segments,
}
use rago_desk.Chunking.TokenCount.{
  starts, ends_open, token_sum, starts-append, starts-trim, token_sum-append,
}
use rago_desk.Chunking.Segments.{Short, token_sum-one, null-trim, loop-IsSound, IsSound-start}

module _ ⦃u : Unicode⦄ where
  stop_breaks : (r : ℕ) → is_sentence_boundary r ≡ true → is_word r ≡ false
  unfolding is_sentence_boundary is_word
  stop_breaks r h = ground (arith, u.stop_letter, u.stop_digit)

  closed_behind :
      (s : Text) (b : Bool) (r : ℕ) → is_word r ≡ false → ends_open b (s ++ r ∷ []) ≡ false
  unfolding ends_open
  closed_behind [] b r h = ground arith
  closed_behind (c ∷ s) b r h = closed_behind s _ r h

  flush_sentence-total :
      (out : List Text) (buf : Text)
      → token_sum (flush_sentence out buf) ≡ token_sum out + starts false buf
  unfolding flush_sentence
  flush_sentence-total out buf = ground (
    arith,
    null-trim buf,
    starts-trim buf,
    token_sum-append out (trim buf ∷ []),
    token_sum-one (trim buf),
  )

  sentence_loop-total :
      (text : Text) (out : List Text) (buf : Text)
      → token_sum (sentence_loop text out buf) ≡ token_sum out + starts false (buf ++ text)
  unfolding sentence_loop
  sentence_loop-total [] out buf = rw append-nil (flush_sentence-total out buf)
  sentence_loop-total (r ∷ text) out buf = elim (Bool-cases (is_sentence_boundary r)) [
    | inl e ↦ rw e (
        sentence_loop-total text (flush_sentence out (buf ++ r ∷ [])) []
        ∙ omega (
          arith,
          flush_sentence-total out (buf ++ r ∷ []),
          starts-append false (buf ++ r ∷ []) text,
          ap (λ b. starts b text) (closed_behind buf false r (stop_breaks r e)),
          ap (starts false) (append_assoc buf (r ∷ []) text),
        ))
    | inr e ↦ rw e (
        sentence_loop-total text out (buf ++ r ∷ [])
        ∙ ap (λ t. token_sum out + starts false t) (append_assoc buf (r ∷ []) text))
  ]

  sentences-total : (text : Text) → token_sum (split_by_sentences text) ≡ starts false text
  unfolding split_by_sentences
  sentences-total text = sentence_loop-total text [] [] ∙ unfold token_sum in omega arith

  -- The segments of a text have its tokens, and at most `n` tokens each.
  pub segments_sound :
      (text : Text) (n : ℕ)
      → 64 ≤ n
      → n ≤ 8192
      → Short n (split_block_segments text (pos n))
        × (token_sum (split_block_segments text (pos n)) ≡ starts false text)
  unfolding split_block_segments
  segments_sound text n lo hi =
      let same : pos_part (clamp_int (pos n) (pos 64) (pos 8192)) ≡ n =
        unfold clamp_int in ground arith in
      let (short, sum) =
        loop-IsSound n 0 _ (split_by_sentences text) (omega arith) (IsSound-start n) in
      rw (split_block_segments, same) (short, sum ∙ omega (arith, sentences-total text))
