-- ===== src/Chunking/Pieces.antt =====
-- The parts that `splitByTokens` cuts a text into: how many tokens each has, and all have.
use rago_desk.Base.{
  ℕ, zero, suc, ◌+◌, ◌-◌, ◌≤◌, ◌<◌, ◌≡◌, inl, inr, Bool, true, false, List, [], ◌∷◌, arith,
  Bool-cases, ltb, ltb→lt, ◌==◌, nat_eq, if◌then◌else◌, length, null, All, Text, Unicode, ℤ, pos,
}
use rago_desk.Chunking.Tokens.{
  TokenSpan, part_size, part_step, tokenize_spans, estimate_token_count, span_at, slice, split_loop,
  split_by_tokens,
}
use rago_desk.Chunking.TokenCount.{starts, token_sum, estimate-starts}
use rago_desk.Chunking.Slices.{slice_tokens}

module _ ⦃u : Unicode⦄ (s : Text) (size : ℕ) where
  abbrev stop_of : ℕ → ℕ
  stop_of start =
      let n = length (tokenize_spans s) in if ltb n (start + size) then n else start + size

  abbrev part_of : ℕ → Text
  part_of start =
      slice s (span_at (tokenize_spans s) start).start
        (span_at (tokenize_spans s) (stop_of start - 1)).end

  part_tokens :
      (start : ℕ)
      → 0 < size
      → start < length (tokenize_spans s)
      → starts false (part_of start) + start ≡ stop_of start
  part_tokens start pos_size lt =
      let stop_ok = stop_bounds (length (tokenize_spans s)) start lt pos_size in
      omega (arith, slice_tokens s start (stop_of start - 1) (omega arith) (omega arith))
    where
      stop_bounds :
          (n start : ℕ)
          → start < n
          → 0 < size
          → (start < (if ltb n (start + size) then n else start + size))
            × ((if ltb n (start + size) then n else start + size) ≤ n)
      stop_bounds n start h k = ground arith

  part-le-size :
      (start : ℕ)
      → 0 < size
      → start < length (tokenize_spans s)
      → starts false (part_of start) ≤ size
  part-le-size start h lt = ground (arith, part_tokens start h lt)

  loop-Bounded :
      (step fuel start : ℕ)
      → 0 < size
      → All (λ p. starts false p ≤ size) (split_loop s (tokenize_spans s) size step fuel start)
  unfolding split_loop
  loop-Bounded step zero start h = tt
  loop-Bounded step (suc fuel) start h = elim (Bool-cases (ltb start (length (tokenize_spans s)))) [
    | inl lt ↦ rw lt (
      part-le-size start h (ltb→lt _ _ lt),
      rest (stop_of start == length (tokenize_spans s)) _ (loop-Bounded step fuel (start + step) h),
    )
    | inr ge ↦ rw ge tt
  ]
    where
      rest :
          (b : Bool) (l : List Text)
          → All (λ p. starts false p ≤ size) l
          → All (λ p. starts false p ≤ size) (if b then [] else l)
      rest true l h = tt
      rest false l h = h

  -- Without overlap the rounds count every token from `start` on once.
  loop-total :
      (fuel start : ℕ)
      → 0 < size
      → start < length (tokenize_spans s)
      → length (tokenize_spans s) ≤ start + fuel
      → token_sum (split_loop s (tokenize_spans s) size size fuel start) + start
        ≡ length (tokenize_spans s)
  unfolding split_loop token_sum
  loop-total zero start h lt enough = absurd (omega arith)
  loop-total (suc fuel) start h lt enough =
      ground (arith, part_tokens start h lt, loop-total fuel (start + size) h)

part_size_pos : (n tokens : ℕ) → 0 < n → part_size (pos n) tokens ≡ n
unfolding part_size
part_size_pos n tokens h = ground arith

part_step_whole : (n : ℕ) → 0 < n → part_step n (pos 0) ≡ n
unfolding part_step
part_step_whole n h = ground arith

module _ ⦃u : Unicode⦄ where
  -- No part has more tokens than the size, whatever the overlap.
  pub parts-Bounded :
      (s : Text) (n : ℕ) (overlap : ℤ)
      → 0 < n
      → All (λ p. starts false p ≤ n) (split_by_tokens s (pos n) overlap)
  unfolding split_by_tokens
  parts-Bounded s n overlap h = rw (part_size_pos n (length (tokenize_spans s)) h) (
      unless_null (null (tokenize_spans s)) _
        (loop-Bounded s n (part_step n overlap) (length (tokenize_spans s)) 0 h))
    where
      unless_null :
          (b : Bool) (l : List Text)
          → All (λ p. starts false p ≤ n) l
          → All (λ p. starts false p ≤ n) (if b then [] else l)
      unless_null true l k = tt
      unless_null false l k = k

  -- Without overlap the parts have the tokens of the text, each once.
  pub parts-total :
      (s : Text) (n : ℕ) → 0 < n → token_sum (split_by_tokens s (pos n) (pos 0)) ≡ starts false s
  unfolding split_by_tokens token_sum estimate_token_count
  parts-total s n h =
      rw (part_size_pos n (length (tokenize_spans s)) h, part_step_whole n h)
        (by_spans (tokenize_spans s) (λ lt. loop-total s n _ 0 h lt (omega arith))
          (estimate-starts s))
    where
      by_spans :
          (l : List TokenSpan)
          → (0 < length l → token_sum (split_loop s l n n (length l) 0) + 0 ≡ length l)
          → length l ≡ starts false s
          → token_sum (if null l then [] else split_loop s l n n (length l) 0) ≡ starts false s
      by_spans [] k e = e
      by_spans (t ∷ l) k e = omega (arith, k (omega arith), e)
