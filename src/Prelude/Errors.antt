-- ===== src/Prelude/Errors.antt =====
-- Go's `error` values, and the results of fallible functions.
use mathlib.Core.Path.{◌≡◌, refl}
use mathlib.Core.List.{List}
use mathlib.Core.Logic.{◌⊎◌, inl, inr}
use web_form.Prelude.Texts.{Text}

-- An error keeps the format and the operands that it was made with; no text is rendered.
pub data Error : Type 0 where
  new : Text → Error  -- errors.New, and the errors of other code
  errorf : Text → List Text → Error  -- fmt.Errorf without %w
  wrap : Text → List Text → Error → Error  -- fmt.Errorf with %w

pub data Result {ℓ} (A : Type ℓ) : Type ℓ where
  ok : A → Result A
  err : Error → Result A

infixl 5 ◌>>=◌
abbrev pub ◌>>=◌ {ℓ κ} : {A : Type ℓ} {B : Type κ} → Result A → (A → Result B) → Result B
ok value >>= next = next value
err failure >>= next = err failure

-- The error of a step, with the words that the caller puts in front.
abbrev pub wrapped {ℓ} : {A : Type ℓ} → Text → List Text → Result A → Result A
wrapped format args (ok a) = ok a
wrapped format args (err e) = err (wrap format args e)

pub Result-cases {ℓ} :
    {A : Type ℓ} (r : Result A) → ((a : A) × (r ≡ ok a)) ⊎ ((e : Error) × (r ≡ err e))
Result-cases (ok a) = inl (a, refl)
Result-cases (err e) = inr (e, refl)

pub ok-injective {ℓ} : {A : Type ℓ} {a b : A} → ok a ≡ ok b → a ≡ b
ok-injective h = cc

-- Both steps of a successful `>>=` succeed.
pub >>=-eq-ok {ℓ κ} :
    {A : Type ℓ} {B : Type κ} (r : Result A) (f : A → Result B) {b : B}
    → (r >>= f) ≡ ok b
    → (a : A) × (r ≡ ok a) × (f a ≡ ok b)
>>=-eq-ok (ok a) f h = (a, refl, h)
>>=-eq-ok (err e) f h = cc
