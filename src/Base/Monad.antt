-- ===== src/Base/Monad.antt =====
-- Kratos errors as values, and calls that read and write the world around the program.
use Prim.Native.Nat.{ℕ}
use mathlib.Core.Path.{◌≡◌, refl}
use mathlib.Core.Logic.{◌⊎◌, inl, inr}
use rago_desk.Base.Strings.{Text}
use rago_desk.Base.Tests.{if◌then◌else◌}
use mathlib.Core.Bool.{Bool, true, false}

-- An error's status code and reason; its message is text for people.
pub record Error : Type 0 where
  pub code : ℕ
  pub reason : Text

pub data Result {ℓ} (A : Type ℓ) : Type ℓ where
  ok : A → Result A
  err : Error → Result A

pub ok_inj : {A : Type 0} (a b : A) → Result.ok a ≡ ok b → a ≡ b
ok_inj a b p = cc

pub Result-cases {ℓ} :
    {A : Type ℓ} (r : Result A) → ((a : A) × (r ≡ ok a)) ⊎ ((e : Error) × (r ≡ err e))
Result-cases (ok a) = inl (a, refl)
Result-cases (err e) = inr (e, refl)

-- What was written before an error stays written, so the world comes back beside the error too.
abbrev pub Exec {ℓ} : Type ℓ → Type ℓ → Type ℓ
Exec W A = W → Result A × W

module _ {ℓ} {W A : Type ℓ} where
  abbrev pub pure : A → Exec W A
  pure a w = (ok a, w)

  abbrev pub raise : Error → Exec W A
  raise e w = (err e, w)

module _ {ℓ} {W A : Type ℓ} where
  -- Which branch of a test led to a result.
  pub if-ok :
      {P : Type ℓ} (b : Bool) (m n : Exec W A) (w : W) (a : A)
      → (b ≡ true → (m w).0 ≡ ok a → P)
      → (b ≡ false → (n w).0 ≡ ok a → P)
      → ((if b then m else n) w).0 ≡ ok a
      → P
  if-ok true m n w a when unless p = when refl p
  if-ok false m n w a when unless p = unless refl p

module _ {ℓ} {W A B : Type ℓ} where
  abbrev pub continue : Result A → (A → Exec W B) → Exec W B
  continue (ok a) f w = f a w
  continue (err e) f w = (err e, w)

  -- What succeeds as a whole succeeded in its first part.
  pub continue-ok :
      (r : Result A) (f : A → Exec W B) (w : W) (b : B)
      → (continue r f w).0 ≡ ok b
      → (a : A) × ((r ≡ ok a) × ((f a w).0 ≡ ok b))
  continue-ok (ok a) f w b h = (a, (refl, h))
  continue-ok (err e) f w b h = cc

  infixl 5 ◌>>=◌ ◌>>◌
  abbrev pub ◌>>=◌ : Exec W A → (A → Exec W B) → Exec W B
  ◌>>=◌ m f w = continue (m w).0 f (m w).1

  abbrev pub ◌>>◌ : Exec W A → Exec W B → Exec W B
  m >> n = m >>= λ _. n

-- A call that cannot fail, such as a reading of the clock.
module _ {ℓ} {W A : Type ℓ} where
  abbrev pub call : (W → A × W) → Exec W A
  call f w = (ok (f w).0, (f w).1)

  abbrev pub lift : Result A → Exec W A
  lift r w = (r, w)

  -- `_ = f()`: the error is dropped.
  abbrev pub ignore : Exec W A → Exec W (Unit {ℓ})
  ignore f w = (ok tt, (f w).1)

-- The constructors of the Kratos package `errors` that the sources use.
abbrev pub bad_request : Text → Error
bad_request reason = record { code = 400; reason = reason }

abbrev pub unauthorized : Text → Error
unauthorized reason = record { code = 401; reason = reason }

abbrev pub forbidden : Text → Error
forbidden reason = record { code = 403; reason = reason }

abbrev pub not_found : Text → Error
not_found reason = record { code = 404; reason = reason }

abbrev pub conflict : Text → Error
conflict reason = record { code = 409; reason = reason }

abbrev pub internal_server : Text → Error
internal_server reason = record { code = 500; reason = reason }
