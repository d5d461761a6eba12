-- ===== src/Base/Strings.antt =====
-- Go strings as lists of runes, and what the sources use of `strings` and `unicode`.
-- Every string is taken to be valid UTF-8, so that ranging over it and `[]rune` give its runes.
use Prim.Native.Char.{code}
use Prim.Native.String.{String}
use Prim.Native.Nat.{ℕ}
use mathlib.Core.Path.{◌≡◌, refl}
use mathlib.Core.Logic.{◌↔◌, inl, inr}
use mathlib.Core.Bool.{Bool, true, false, ◌||◌, ◌&&◌}
use mathlib.Core.List.{List, [], ◌∷◌, ◌++◌, map}
use native.Mathlib.Omega.{arith}
use rago_desk.Base.Lists.{All}
use rago_desk.Base.Tests.{Eq, nat_beq, leb, Bool-cases, if◌then◌else◌}

abbrev pub Text : Type 0
Text = List ℕ

abbrev pub codes : String → Text
codes String.[] = []
codes (String.◌∷◌ c s) = code c ∷ codes s

abbrev pub text_beq : Text → Text → Bool
text_beq [] [] = true
text_beq [] (d ∷ t) = false
text_beq (c ∷ s) [] = false
text_beq (c ∷ s) (d ∷ t) = nat_beq c d && text_beq s t

text_beq_sound : (s t : Text) → text_beq s t ≡ true → s ≡ t
text_beq_sound [] [] h = refl
text_beq_sound [] (d ∷ t) h = cc
text_beq_sound (c ∷ s) [] h = cc
text_beq_sound (c ∷ s) (d ∷ t) h = ground (arith, text_beq_sound s t)

text_beq_refl : (s : Text) → text_beq s s ≡ true
text_beq_refl [] = refl
text_beq_refl (c ∷ s) = ground (arith, text_beq_refl s)

pub text_beq_iff : (s t : Text) → (text_beq s t ≡ true) ↔ (s ≡ t)
text_beq_iff s t = (text_beq_sound s t, λ p. rw p (text_beq_refl t))

instance abbrev pub text_eq : Eq Text
text_eq = record { same = text_beq; same_iff = text_beq_iff }

-- unicode.IsSpace: the runes with the property White_Space.
abbrev pub is_space : ℕ → Bool
is_space r =
    (leb 9 r && leb r 13)
    || nat_beq r 32
    || nat_beq r 0x85
    || nat_beq r 0xa0
    || nat_beq r 0x1680
    || (leb 0x2000 r && leb r 0x200a)
    || nat_beq r 0x2028
    || nat_beq r 0x2029
    || nat_beq r 0x202f
    || nat_beq r 0x205f
    || nat_beq r 0x3000

-- The runes at which a text is cut into sentences, and punctuation that the sources add to texts.
abbrev pub stops : Text
stops = b'.' ∷ b'!' ∷ b'?' ∷ b';' ∷ 0x3002 ∷ 0xff01 ∷ 0xff1f ∷ 0xff1b ∷ 10 ∷ 13 ∷ []

-- The tables of `unicode` that the sources read, with what the Unicode standard says of them.
pub record Unicode : Type 0 where
  pub is_letter : ℕ → Bool
  pub is_digit : ℕ → Bool
  pub is_number : ℕ → Bool
  pub lower : ℕ → ℕ
  pub is_lower : ℕ → Bool
  pub is_print : ℕ → Bool
  pub space_letter : (r : ℕ) → is_space r ≡ true → is_letter r ≡ false
  pub space_digit : (r : ℕ) → is_space r ≡ true → is_digit r ≡ false
  pub stop_letter : All (λ r. is_letter r ≡ false) stops
  pub stop_digit : All (λ r. is_digit r ≡ false) stops
  pub lower_idem : (r : ℕ) → lower (lower r) ≡ lower r
  pub lower_space : (r : ℕ) → is_space (lower r) ≡ is_space r

abbrev pub trim_left : Text → Text
trim_left [] = []
trim_left (r ∷ s) = let rest = trim_left s in if is_space r then rest else r ∷ s

-- Keeps `r` in front of a text unless both are only space.
abbrev pub keep : ℕ → Text → Text
keep r [] = if is_space r then [] else r ∷ []
keep r (c ∷ s) = r ∷ c ∷ s

abbrev pub trim_right : Text → Text
trim_right [] = []
trim_right (r ∷ s) = keep r (trim_right s)

-- strings.TrimSpace
unfoldable pub trim : Text → Text
trim s = trim_right (trim_left s)

-- strings.ToLower
unfoldable pub to_lower : ⦃u : Unicode⦄ → Text → Text
to_lower ⦃u⦄ = map u.lower

-- strings.HasPrefix(s, p)
unfoldable pub has_prefix : Text → Text → Bool
has_prefix [] s = true
has_prefix (c ∷ p) [] = false
has_prefix (c ∷ p) (d ∷ s) = nat_beq c d && has_prefix p s

-- strings.Contains(s, sub)
unfoldable pub contains_text : Text → Text → Bool
contains_text sub [] = has_prefix sub []
contains_text sub (c ∷ s) = has_prefix sub (c ∷ s) || contains_text sub s

abbrev AllSpace : Text → Type 0
AllSpace [] = Unit
AllSpace (r ∷ s) = (is_space r ≡ true) × AllSpace s

-- A text that begins and ends with no space.
abbrev pub HeadOk : Text → Type 0
HeadOk [] = Unit
HeadOk (r ∷ s) = is_space r ≡ false

trim_left-HeadOk : (s : Text) → HeadOk (trim_left s)
trim_left-HeadOk [] = tt
trim_left-HeadOk (r ∷ s) = elim (Bool-cases (is_space r)) [
  | inl e ↦ rw e (trim_left-HeadOk s)
  | inr e ↦ rw e e
]

trim_left-fixed : (s : Text) → HeadOk s → trim_left s ≡ s
trim_left-fixed [] h = refl
trim_left-fixed (r ∷ s) h = rw h

trim_right-fixed : (s : Text) → trim_right (trim_right s) ≡ trim_right s
trim_right-fixed [] = refl
trim_right-fixed (r ∷ s) = keep_again r (trim_right s) (trim_right-fixed s)
  where
    keep_again : (r : ℕ) (t : Text) → trim_right t ≡ t → trim_right (keep r t) ≡ keep r t
    keep_again r [] h = elim (Bool-cases (is_space r)) [ inl e ↦ rw e | inr e ↦ rw (e, e) ]
    keep_again r (c ∷ t) h = rw h

trim_right-HeadOk : (s : Text) → HeadOk s → HeadOk (trim_right s)
trim_right-HeadOk [] h = tt
trim_right-HeadOk (r ∷ s) h = keep-HeadOk (trim_right s)
  where
    keep-HeadOk : (t : Text) → HeadOk (keep r t)
    keep-HeadOk [] = rw h h
    keep-HeadOk (c ∷ t) = h

pub trim_idem : (s : Text) → trim (trim s) ≡ trim s
unfolding trim
trim_idem s =
    rw (trim_left-fixed (trim_right (trim_left s)) (trim_right-HeadOk _ (trim_left-HeadOk s)))
      (trim_right-fixed (trim_left s))

pub trim-nil : trim [] ≡ []
unfolding trim
trim-nil = refl

-- strings.Split(s, "\n")
abbrev pub onto_first : ℕ → List Text → List Text
onto_first c [] = (c ∷ []) ∷ []
onto_first c (line ∷ lines) = (c ∷ line) ∷ lines

unfoldable pub split_lines : Text → List Text
split_lines [] = [] ∷ []
split_lines (c ∷ s) =
    let rest = split_lines s in if nat_beq c 10 then [] ∷ rest else onto_first c rest

-- strings.Fields: `word` is what stands before the text since the last space.
unfoldable pub fields_from : Text → Text → List Text
fields_from [] [] = []
fields_from (c ∷ word) [] = (c ∷ word) ∷ []
fields_from word (c ∷ s) =
    let cut = fields_from [] s in
    let longer = fields_from (word ++ c ∷ []) s in
    if is_space c then (if text_beq word [] then cut else word ∷ cut) else longer

-- strings.ReplaceAll(s, "cd", with) for two characters, and strings.TrimLeft of one.
unfoldable pub replace_pair : ℕ → ℕ → Text → Text → Text
replace_pair a b with [] = []
replace_pair a b with (c ∷ []) = c ∷ []
replace_pair a b with (c ∷ d ∷ s) =
    let skip = replace_pair a b with s in
    let rest = replace_pair a b with (d ∷ s) in
    if nat_beq c a && nat_beq d b then with ++ skip else c ∷ rest

unfoldable pub drop_while : (ℕ → Bool) → Text → Text
drop_while p [] = []
drop_while p (c ∷ s) = let rest = drop_while p s in if p c then rest else c ∷ s
