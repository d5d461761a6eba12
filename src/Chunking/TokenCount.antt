-- ===== src/Chunking/TokenCount.antt =====
-- How many tokens a text has, by recursion on the text; joining, trimming and cutting.
use rago_desk.Base.{
  ℕ, ◌+◌, ◌≡◌, refl, sym, ap, ◌∙◌, inl, inr, Bool, true, false, none, some, [], ◌∷◌, ◌++◌, List,
  arith, if◌then◌else◌, Bool-cases, length, Text, trim, Unicode, is_space, codes, trim_left,
  trim_right, keep,
}
use rago_desk.Chunking.Tokens.{is_cjk, is_word, scan, tokenize_spans, estimate_token_count}
use rago_desk.Chunking.Sentences.{join}

module _ ⦃u : Unicode⦄ where
  -- The tokens that begin in the text; the flag tells that a word is open before it.
  unfoldable pub starts : Bool → Text → ℕ
  starts b [] = 0
  starts b (r ∷ s) =
      if is_cjk r
      then 1 + starts false s
      else if is_word r
      then (if b then 0 else 1) + starts true s
      else starts false s

  -- Whether a word is open behind the text.
  unfoldable pub ends_open : Bool → Text → Bool
  ends_open b [] = b
  ends_open b (r ∷ s) = ends_open (if is_cjk r then false else is_word r) s

  pub starts-append :
      (b : Bool) (s t : Text) → starts b (s ++ t) ≡ starts b s + starts (ends_open b s) t
  unfolding starts ends_open
  starts-append b [] t = omega arith
  starts-append b (r ∷ s) t = ground (arith, starts-append false s t, starts-append true s t)

  -- The recursion counts the spans of the scan.
  length-scan :
      (s : Text) (i : ℕ)
      → (length (scan none s i) ≡ starts false s)
        × ((k : ℕ) → length (scan (some k) s i) ≡ 1 + starts true s)
  unfolding scan starts
  length-scan [] i = (refl, λ k. refl)
  length-scan (r ∷ s) i =
      let (closed, inside) = length-scan s (i + 1) in
      (ground (arith, inside i), λ k. ground (arith, inside k))

  pub estimate-starts : (s : Text) → estimate_token_count s ≡ starts false s
  unfolding estimate_token_count tokenize_spans
  estimate-starts s = (length-scan s 0).0

  -- A space belongs to no token.
  space_breaks : (r : ℕ) → is_space r ≡ true → (is_cjk r ≡ false) × (is_word r ≡ false)
  unfolding is_cjk is_word
  space_breaks r h = (ground arith, ground (arith, u.space_letter r h, u.space_digit r h))

  starts-space :
      (b : Bool) (r : ℕ) (s : Text) → is_space r ≡ true → starts b (r ∷ s) ≡ starts false s
  unfolding starts
  starts-space b r s h = rw ((space_breaks r h).0, (space_breaks r h).1)

  starts-trim_left : (s : Text) → starts false (trim_left s) ≡ starts false s
  starts-trim_left [] = refl
  starts-trim_left (r ∷ s) = elim (Bool-cases (is_space r)) [
    | inl e ↦ rw e (starts-trim_left s ∙ sym (starts-space false r s e))
    | inr e ↦ rw e
  ]

  starts-keep : (b : Bool) (r : ℕ) (t : Text) → starts b (keep r t) ≡ starts b (r ∷ t)
  starts-keep b r (c ∷ t) = refl
  starts-keep b r [] = elim (Bool-cases (is_space r)) [
    | inl e ↦ rw (e, starts-space b r [] e) (unfold starts in refl)
    | inr e ↦ rw e
  ]

  starts-cons :
      (b : Bool) (r : ℕ) (s t : Text)
      → ((c : Bool) → starts c s ≡ starts c t)
      → starts b (r ∷ s) ≡ starts b (r ∷ t)
  unfolding starts
  starts-cons b r s t h = ground (arith, h true, h false)

  starts-trim_right : (s : Text) (b : Bool) → starts b (trim_right s) ≡ starts b s
  starts-trim_right [] b = refl
  starts-trim_right (r ∷ s) b =
      starts-keep b r (trim_right s) ∙ starts-cons b r (trim_right s) s (starts-trim_right s)

  -- Trimming a text does not change its number of tokens.
  pub starts-trim : (s : Text) → starts false (trim s) ≡ starts false s
  unfolding trim
  starts-trim s = starts-trim_right (trim_left s) false ∙ starts-trim_left s

  unfoldable pub token_sum : List Text → ℕ
  token_sum [] = 0
  token_sum (p ∷ ps) = starts false p + token_sum ps

  pub token_sum-append : (ps qs : List Text) → token_sum (ps ++ qs) ≡ token_sum ps + token_sum qs
  unfolding token_sum
  token_sum-append [] qs = omega arith
  token_sum-append (p ∷ ps) qs = omega (arith, token_sum-append ps qs)

  starts_behind_space :
      (p : Text) (r : ℕ) (s : Text)
      → is_space r ≡ true
      → starts false (p ++ r ∷ s) ≡ starts false p + starts false s
  starts_behind_space p r s h =
      starts-append false p (r ∷ s) ∙ ap (λ n. starts false p + n) (starts-space _ r s h)

  -- Texts joined by a separator of spaces have the tokens of the parts.
  pub starts-join :
      (r : ℕ) (sep : Text) (ps : List Text)
      → is_space r ≡ true
      → ((s : Text) → starts false (sep ++ s) ≡ starts false s)
      → starts false (join (r ∷ sep) ps) ≡ token_sum ps
  unfolding join token_sum
  starts-join r sep [] h k = unfold starts in refl
  starts-join r sep (p ∷ []) h k = omega arith
  starts-join r sep (p ∷ q ∷ ps) h k =
      starts_behind_space p r (sep ++ join (r ∷ sep) (q ∷ ps)) h
      ∙ omega (arith, k (join (r ∷ sep) (q ∷ ps)), starts-join r sep (q ∷ ps) h k)

  pub starts-join_lines : (ps : List Text) → starts false (join (codes "\n\n") ps) ≡ token_sum ps
  starts-join_lines ps = starts-join 10 (10 ∷ []) ps refl (λ s. starts-space false 10 s refl)

  pub starts-join_words : (ps : List Text) → starts false (join (codes " ") ps) ≡ token_sum ps
  starts-join_words ps = starts-join 32 [] ps refl (λ s. refl)
