-- ===== src/Chunking/Spans.antt =====
-- Where the spans of a scan lie: the tokens that begin before a span.
use rago_desk.Base.{
  ℕ, zero, suc, ◌+◌, ◌≡◌, refl, sym, ap, ◌∙◌, inl, inr, Bool, true, false, none, some, List, [],
  ◌∷◌, arith, Bool-cases, if◌then◌else◌, take, drop, Text, Unicode,
}
use rago_desk.Chunking.Tokens.{TokenSpan, is_cjk, is_word, scan, tokenize_spans}
use rago_desk.Chunking.TokenCount.{starts, ends_open}

-- The predicate holds of each item and its position, counted from `k`.
abbrev pub AllAt {ℓ} : {A : Type 0} → (ℕ → A → Type ℓ) → ℕ → List A → Type ℓ
AllAt P k [] = Unit
AllAt P k (x ∷ xs) = P k x × AllAt P (suc k) xs

module _ {A : Type 0} (P Q : ℕ → A → Type 0) where
  AllAt-map :
      ((j : ℕ) (a : A) → P j a → Q j a) → (k : ℕ) (xs : List A) → AllAt P k xs → AllAt Q k xs
  AllAt-map f k [] h = tt
  AllAt-map f k (x ∷ xs) h = (f k x h.0, AllAt-map f (suc k) xs h.1)

  AllAt-shift :
      ((j : ℕ) (a : A) → P j a → Q (suc j) a)
      → (k : ℕ) (xs : List A) → AllAt P k xs
      → AllAt Q (suc k) xs
  AllAt-shift f k [] h = tt
  AllAt-shift f k (x ∷ xs) h = (f k x h.0, AllAt-shift f (suc k) xs h.1)

module _ ⦃u : Unicode⦄ where
  -- A span of a scan of `s` from position `i`, where `b` tells whether a word is open: `before`
  -- tokens begin in front of it, and it is one more.
  pub record Fits (b : Bool) (s : Text) (i j : ℕ) (t : TokenSpan) : Type 0 where
    pub from : ℕ
    pub to : ℕ
    pub at_start : t.start ≡ i + from
    pub at_end : t.end ≡ i + to
    pub before : starts b (take from s) ≡ j
    pub upto : starts b (take to s) ≡ suc j
    pub fresh :
        (n : ℕ)
        → starts (ends_open b (take from s)) (take n (drop from s))
          ≡ starts false (take n (drop from s))

  -- One rune more in front.
  Fits-step :
      (b c : Bool) (r : ℕ) (s : Text) (i j k d : ℕ) (t : TokenSpan)
      → ((x : Text) → starts b (r ∷ x) ≡ d + starts c x)
      → (if is_cjk r then false else is_word r) ≡ c
      → k ≡ d + j
      → Fits c s (i + 1) j t
      → Fits b (r ∷ s) i k t
  unfolding ends_open
  Fits-step b c r s i j k d t count mode shift f = record {
    from = suc f.from;
    to = suc f.to;
    at_start = omega (arith, f.at_start);
    at_end = omega (arith, f.at_end);
    before = omega (arith, count (take f.from s), f.before);
    upto = omega (arith, count (take f.to s), f.upto);
    fresh = λ n.
        ap (λ m. starts (ends_open m (take f.from s)) (take n (drop f.from s))) mode ∙ f.fresh n;
  }

  -- The first token of the rest.
  Fits-here :
      (b : Bool) (r : ℕ) (s : Text) (i to : ℕ) (t : TokenSpan)
      → t.start ≡ i
      → t.end ≡ i + 1 + to
      → starts b (r ∷ take to s) ≡ 1
      → ((x : Text) → starts b (r ∷ x) ≡ starts false (r ∷ x))
      → Fits b (r ∷ s) i 0 t
  unfolding starts ends_open
  Fits-here b r s i to t at_start at_end one same = record {
    from = 0;
    to = suc to;
    at_start = omega arith;
    at_end = omega arith;
    before = refl;
    upto = one;
    fresh = λ n. fresh_at n;
  }
    where
      fresh_at : (n : ℕ) → starts b (take n (r ∷ s)) ≡ starts false (take n (r ∷ s))
      fresh_at zero = refl
      fresh_at (suc n) = same (take n s)

  -- The span of a word that is open since `k`: no token begins before its end.
  record Open (k : ℕ) (s : Text) (i : ℕ) (t : TokenSpan) : Type 0 where
    to : ℕ
    at_start : t.start ≡ k
    at_end : t.end ≡ i + to
    none_begins : starts true (take to s) ≡ 0

  abbrev OpenFits : ℕ → Text → ℕ → List TokenSpan → Type 0
  OpenFits k s i [] = ⊥
  OpenFits k s i (t ∷ ts) = Open k s i t × AllAt (Fits true s i) 0 ts

  -- One rune of a scan, by its kind.
  data Kind (r : ℕ) : Type 0 where
    cjk : is_cjk r ≡ true → Kind r
    word : is_cjk r ≡ false → is_word r ≡ true → Kind r
    other : is_cjk r ≡ false → is_word r ≡ false → Kind r

  kind : (r : ℕ) → Kind r
  kind r = elim (Bool-cases (is_cjk r)) [
    | inl e ↦ cjk e
    | inr e ↦ elim (Bool-cases (is_word r)) [ inl f ↦ word e f | inr f ↦ other e f ]
  ]

  starts-cjk :
      (b : Bool) (r : ℕ) (x : Text) → is_cjk r ≡ true → starts b (r ∷ x) ≡ 1 + starts false x
  unfolding starts
  starts-cjk b r x e = rw e

  starts-word :
      (b : Bool) (r : ℕ) (x : Text)
      → is_cjk r ≡ false
      → is_word r ≡ true
      → starts b (r ∷ x) ≡ (if b then 0 else 1) + starts true x
  unfolding starts
  starts-word b r x e f = rw (e, f)

  starts-other :
      (b : Bool) (r : ℕ) (x : Text)
      → is_cjk r ≡ false
      → is_word r ≡ false
      → starts b (r ∷ x) ≡ starts false x
  unfolding starts
  starts-other b r x e f = rw (e, f)

  module _ (r : ℕ) (s : Text) (i : ℕ) (e : is_cjk r ≡ false) (f : is_word r ≡ true) where
    -- The word that `r` begins, and a word that `r` goes on with.
    word_begins : (l : List TokenSpan) → OpenFits i s (i + 1) l → AllAt (Fits false (r ∷ s) i) 0 l
    word_begins [] h = elim h [ ]
    word_begins (t ∷ ts) (o, h) = (
      Fits-here false r s i o.to t o.at_start (omega (arith, o.at_end))
          (omega (arith, starts-word false r (take o.to s) e f, o.none_begins)) (λ x. refl),
      AllAt-shift (Fits true s (i + 1)) (Fits false (r ∷ s) i)
          (λ j a.
            Fits-step false true r s i j (suc j) 1 a (λ x. starts-word false r x e f) (rw (e, f))
              (omega arith))
          0 ts h,
    )

    word_goes_on : (k : ℕ) (l : List TokenSpan) → OpenFits k s (i + 1) l → OpenFits k (r ∷ s) i l
    word_goes_on k [] h = elim h [ ]
    word_goes_on k (t ∷ ts) (o, h) = (
      record {
        to = suc o.to;
        at_start = o.at_start;
        at_end = omega (arith, o.at_end);
        none_begins = omega (arith, starts-word true r (take o.to s) e f, o.none_begins);
      },
      AllAt-map (Fits true s (i + 1)) (Fits true (r ∷ s) i)
          (λ j a.
            Fits-step true true r s i j j 0 a (λ x. starts-word true r x e f) (rw (e, f))
              (omega arith))
          0 ts h,
    )

  -- The span of a word that ends here.
  word_ends : (k : ℕ) (s : Text) (i : ℕ) → Open k s i (record { start = k; end = i })
  unfolding starts
  word_ends k s i = record { to = 0; at_start = refl; at_end = omega arith; none_begins = refl }

  scan-Fits :
      (s : Text) (i : ℕ)
      → AllAt (Fits false s i) 0 (scan none s i) × ((k : ℕ) → OpenFits k s i (scan (some k) s i))
  unfolding scan
  scan-Fits [] i = (tt, λ k. (word_ends k [] i, tt))
  scan-Fits (r ∷ s) i = let (closed, inside) = scan-Fits s (i + 1) in at_kind closed inside (kind r)
    where
      here : is_cjk r ≡ true → (b : Bool) → Fits b (r ∷ s) i 0 (record { start = i; end = i + 1 })
      here e b =
          Fits-here b r s i 0 (record { start = i; end = i + 1 }) refl (omega arith)
            (starts-cjk b r [] e ∙ unfold starts in refl)
            (λ x. starts-cjk b r x e ∙ sym (starts-cjk false r x e))

      at_kind :
          AllAt (Fits false s (i + 1)) 0 (scan none s (i + 1))
          → ((k : ℕ) → OpenFits k s (i + 1) (scan (some k) s (i + 1)))
          → Kind r
          → AllAt (Fits false (r ∷ s) i) 0 (scan none (r ∷ s) i)
            × ((k : ℕ) → OpenFits k (r ∷ s) i (scan (some k) (r ∷ s) i))
      at_kind closed inside (cjk e) =
          rw e
            ((here e false, next false e), λ k. (word_ends k (r ∷ s) i, (here e true, next true e)))
        where
          next : (b : Bool) → is_cjk r ≡ true → AllAt (Fits b (r ∷ s) i) 1 (scan none s (i + 1))
          next b e =
              AllAt-shift (Fits false s (i + 1)) (Fits b (r ∷ s) i)
                (λ j a.
                  Fits-step b false r s i j (suc j) 1 a (λ x. starts-cjk b r x e) (rw e)
                    (omega arith))
                0 _ closed
      at_kind closed inside (word e f) =
          rw (e, f) (word_begins r s i e f _ (inside i), λ k. word_goes_on r s i e f k _ (inside k))
      at_kind closed inside (other e f) =
          rw (e, f) (next false e f, λ k. (word_ends k (r ∷ s) i, next true e f))
        where
          next :
              (b : Bool)
              → is_cjk r ≡ false
              → is_word r ≡ false
              → AllAt (Fits b (r ∷ s) i) 0 (scan none s (i + 1))
          next b e f =
              AllAt-map (Fits false s (i + 1)) (Fits b (r ∷ s) i)
                (λ j a.
                  Fits-step b false r s i j j 0 a (λ x. starts-other b r x e f ∙ omega arith)
                    (rw (e, f)) (omega arith))
                0 _ closed

  -- Every span of a text has as many tokens before it as there are spans before it.
  pub spans-Fits : (s : Text) → AllAt (Fits false s 0) 0 (tokenize_spans s)
  unfolding tokenize_spans
  spans-Fits s = (scan-Fits s 0).0
