-- ===== src/Parsing/Lines.antt =====
-- Lines and the blocks they fall into, of apps/server/internal/knowledge/biz/parsing.go.
use rago_desk.Base.{
  ℕ, ◌≡◌, ◌≢◌, refl, sym, ap, ◌∙◌, inl, inr, List, [], ◌∷◌, ◌++◌, ◌==◌, nat_eq, Text, split_lines,
  onto_first, All, Bool-cases,
}
use rago_desk.Chunking.Sentences.{join}

abbrev pub newline : Text
newline = 10 ∷ []

abbrev pub OneLine : Text → Type 0
OneLine line = All (λ c. c ≢ 10) line

join-onto_first :
    (c : ℕ) (lines : List Text) → join newline (onto_first c lines) ≡ c ∷ join newline lines
unfolding join
join-onto_first c [] = refl
join-onto_first c (l ∷ []) = refl
join-onto_first c (l ∷ m ∷ lines) = refl

join-blank : (lines : List Text) → lines ≢ [] → join newline ([] ∷ lines) ≡ 10 ∷ join newline lines
unfolding join
join-blank [] h = absurd (h refl)
join-blank (l ∷ lines) h = refl

onto_first-cons : (c : ℕ) (lines : List Text) → onto_first c lines ≢ []
onto_first-cons c [] = λ p. cc
onto_first-cons c (l ∷ lines) = λ p. cc

split_lines-cons : (s : Text) → split_lines s ≢ []
unfolding split_lines
split_lines-cons [] = λ p. cc
split_lines-cons (c ∷ s) = elim (Bool-cases (c == 10)) [
  | inl e ↦ rw e (λ p. cc)
  | inr e ↦ rw e (onto_first-cons c (split_lines s))
]

-- Joining the lines of a text with newlines gives the text.
pub join-split_lines : (s : Text) → join newline (split_lines s) ≡ s
unfolding split_lines join
join-split_lines [] = refl
join-split_lines (c ∷ s) = elim (Bool-cases (c == 10)) [
  | inl e ↦
      rw (e, join-blank (split_lines s) (split_lines-cons s), join-split_lines s)
        (ap (λ d. d ∷ s) (sym ((nat_eq.same_iff c 10).0 e)))
  | inr e ↦ rw (e, join-onto_first c (split_lines s), join-split_lines s)
]

onto_first-OneLine :
    (c : ℕ) (lines : List Text) → c ≢ 10 → All OneLine lines → All OneLine (onto_first c lines)
onto_first-OneLine c [] h all = ((h, tt), tt)
onto_first-OneLine c (l ∷ lines) h (hl, rest) = ((h, hl), rest)

-- No line of a text holds a newline.
pub split_lines-OneLine : (s : Text) → All OneLine (split_lines s)
unfolding split_lines
split_lines-OneLine [] = (tt, tt)
split_lines-OneLine (c ∷ s) = elim (Bool-cases (c == 10)) [
  | inl e ↦ rw e (tt, split_lines-OneLine s)
  | inr e ↦ rw e (
      onto_first-OneLine c (split_lines s) (λ p. cc (e, (nat_eq.same_iff c 10).1 p))
        (split_lines-OneLine s))
]

split_lines-line : (l s : Text) → OneLine l → split_lines (l ++ 10 ∷ s) ≡ l ∷ split_lines s
unfolding split_lines
split_lines-line [] s h = refl
split_lines-line (c ∷ l) s (hc, h) = elim (Bool-cases (c == 10)) [
  | inl e ↦ absurd (hc ((nat_eq.same_iff c 10).0 e))
  | inr e ↦ rw (e, split_lines-line l s h) refl
]

split_lines-last : (l : Text) → OneLine l → split_lines l ≡ l ∷ []
unfolding split_lines
split_lines-last [] h = refl
split_lines-last (c ∷ l) (hc, h) = elim (Bool-cases (c == 10)) [
  | inl e ↦ absurd (hc ((nat_eq.same_iff c 10).0 e))
  | inr e ↦ rw (e, split_lines-last l h) refl
]

-- Splitting lines that newlines join gives the lines.
pub split_lines-join :
    (l : Text) (lines : List Text)
    → All OneLine (l ∷ lines)
    → split_lines (join newline (l ∷ lines)) ≡ l ∷ lines
unfolding join
split_lines-join l [] (h, _) = split_lines-last l h
split_lines-join l (m ∷ lines) (h, rest) =
    split_lines-line l (join newline (m ∷ lines)) h
    ∙ ap (λ ls. l ∷ ls) (split_lines-join m lines rest)
