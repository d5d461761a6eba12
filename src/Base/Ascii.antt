-- ===== src/Base/Ascii.antt =====
-- The part of the Unicode tables that is ASCII: an instance of what the sources read of `unicode`.
use Prim.Native.Nat.{ℕ, ◌+◌}
use mathlib.Core.Path.{◌≡◌, refl}
use mathlib.Core.Bool.{Bool, true, false, ◌||◌, ◌&&◌}
use native.Mathlib.Omega.{arith}
use rago_desk.Base.Tests.{leb, if◌then◌else◌}
use rago_desk.Base.Strings.{Unicode, is_space}

abbrev is_upper : ℕ → Bool
is_upper r = leb 65 r && leb r 90

abbrev is_letter : ℕ → Bool
is_letter r = is_upper r || (leb 97 r && leb r 122)

abbrev is_digit : ℕ → Bool
is_digit r = leb 48 r && leb r 57

abbrev lower : ℕ → ℕ
lower r = if is_upper r then r + 32 else r

pub space_letter : (r : ℕ) → is_space r ≡ true → is_letter r ≡ false
space_letter r h = ground arith

pub space_digit : (r : ℕ) → is_space r ≡ true → is_digit r ≡ false
space_digit r h = ground arith

pub lower_idem : (r : ℕ) → lower (lower r) ≡ lower r
lower_idem r = ground arith

pub lower_space : (r : ℕ) → is_space (lower r) ≡ is_space r
lower_space r = ground arith

abbrev pub ascii : Unicode
ascii = record {
  is_letter = is_letter;
  is_digit = is_digit;
  is_number = is_digit;
  lower = lower;
  is_lower = λ r. leb 97 r && leb r 122;
  is_print = λ r. leb 32 r && leb r 126;
  space_letter = space_letter;
  space_digit = space_digit;
  stop_letter = (refl, (refl, (refl, (refl, (refl, (refl, (refl, (refl, (refl, (refl, tt))))))))));
  stop_digit = (refl, (refl, (refl, (refl, (refl, (refl, (refl, (refl, (refl, (refl, tt))))))))));
  lower_idem = lower_idem;
  lower_space = lower_space;
}
