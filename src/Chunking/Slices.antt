-- ===== src/Chunking/Slices.antt =====
-- The tokens that begin in a slice between two spans.
use rago_desk.Base.{
  ℕ, zero, suc, ◌+◌, ◌-◌, ◌≤◌, ◌<◌, ◌≡◌, refl, sym, ap, ◌∙◌, ◌⊎◌, inl, inr, Bool, true, false, List,
  [], ◌∷◌, ◌++◌, arith, Bool-cases, length, get_or, leb, leb→le, take, drop, Text, Unicode,
}
use rago_desk.Chunking.Tokens.{TokenSpan, tokenize_spans, span_at, slice}
use rago_desk.Chunking.TokenCount.{starts, starts-append}
use rago_desk.Chunking.Spans.{AllAt, Fits, spans-Fits}

module _ ⦃u : Unicode⦄ where
  starts-take_mono :
      (s : Text) (p q : ℕ) (b : Bool) → p ≤ q → starts b (take p s) ≤ starts b (take q s)
  unfolding starts
  starts-take_mono s zero q b h = omega arith
  starts-take_mono [] (suc p) (suc q) b h = omega arith
  starts-take_mono s (suc p) zero b h = absurd (omega arith)
  starts-take_mono (r ∷ s) (suc p) (suc q) b h =
      ground (arith, starts-take_mono s p q true, starts-take_mono s p q false)

take-nil : (n : ℕ) → take {A = ℕ} n [] ≡ []
take-nil zero = refl
take-nil (suc n) = refl

take_split : (s : Text) (p d q : ℕ) → q ≡ p + d → take q s ≡ take p s ++ take d (drop p s)
take_split s zero d q h = ap (λ n. take n s) (omega arith)
take_split [] (suc p) d q h = take-nil q ∙ sym (take-nil d)
take_split (r ∷ s) (suc p) d zero h = absurd (omega arith)
take_split (r ∷ s) (suc p) d (suc q) h = ap (λ x. r ∷ x) (take_split s p d q (omega arith))

AllAt-get_or :
    {A : Type 0} (P : ℕ → A → Type 0) (k : ℕ) (xs : List A) (j i : ℕ) (d : A)
    → AllAt P k xs
    → j < length xs
    → i ≡ k + j
    → P i (get_or xs j d)
AllAt-get_or P k [] j i d h lt e = absurd (omega arith)
AllAt-get_or P k (x ∷ xs) zero i d h lt e = rw (at_zero i k e) h.0
  where
    at_zero : (i k : ℕ) → i ≡ k + 0 → i ≡ k
    at_zero i k e = omega arith
AllAt-get_or P k (x ∷ xs) (suc j) i d h lt e =
    AllAt-get_or P (suc k) xs j i d h.1 (omega arith) (omega arith)

module _ ⦃u : Unicode⦄ where
  -- A slice from the start of one span to the end of another has the tokens of the spans between.
  starts_between :
      (s : Text) (j k : ℕ) (t t' : TokenSpan)
      → Fits false s 0 j t
      → Fits false s 0 k t'
      → j ≤ k
      → starts false (take (t'.end - t.start) (drop t.start s)) + j ≡ suc k
  starts_between s j k t t' f g h =
      let a : t.start ≡ f.from = omega (arith, f.at_start) in
      let b : t'.end - t.start ≡ g.to - f.from = omega (arith, f.at_start, g.at_end) in
      rw (b, a) (count (ordered (Bool-cases (leb f.from g.to))))
    where
      ordered : (leb f.from g.to ≡ true) ⊎ (leb f.from g.to ≡ false) → f.from ≤ g.to
      ordered (inl e) = leb→le _ _ e
      ordered (inr e) =
          absurd (ground (arith, starts-take_mono s g.to f.from false, f.before, g.upto))

      count : f.from ≤ g.to → starts false (take (g.to - f.from) (drop f.from s)) + j ≡ suc k
      count le =
          let split = take_split s f.from (g.to - f.from) g.to (omega arith) in
          let counted =
            starts-append false (take f.from s) (take (g.to - f.from) (drop f.from s)) in
          omega (arith, ap (starts false) split, counted, f.fresh (g.to - f.from), f.before, g.upto)

  pub slice_tokens :
      (s : Text) (j k : ℕ)
      → j ≤ k
      → k < length (tokenize_spans s)
      → starts false
            (slice s (span_at (tokenize_spans s) j).start (span_at (tokenize_spans s) k).end)
          + j
        ≡ suc k
  slice_tokens s j k h lt =
      starts_between s j k _ _
        (AllAt-get_or (Fits false s 0) 0 _ j j _ (spans-Fits s) (omega arith) (omega arith))
        (AllAt-get_or (Fits false s 0) 0 _ k k _ (spans-Fits s) (omega arith) (omega arith)) h
