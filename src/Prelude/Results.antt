-- ===== src/Prelude/Results.antt =====
-- Rust's `Result` and its `?`, as a monad with its inversion lemma.
use mathlib.Core.Path.{◌≡◌, refl}
use mathlib.Core.Logic.{◌⊎◌, inl, inr}
use mathlib.Core.Option.{Option, none, some}

pub data Result {ε ℓ} (E : Type ε) (A : Type ℓ) : Type (ε ⊔ ℓ) where
  err : E → Result E A
  ok : A → Result E A

module _ {ε ℓ} {E : Type ε} {A : Type ℓ} where
  infixl 5 ◌>>=◌ ◌>>◌
  -- `?`
  abbrev pub ◌>>=◌ {κ} : {B : Type κ} → Result E A → (A → Result E B) → Result E B
  r >>= next = elim r [ ok value ↦ next value | err e ↦ err e ]

  abbrev pub ◌>>◌ {κ} : {B : Type κ} → Result E A → Result E B → Result E B
  first >> second = elim first [ ok value ↦ second | err e ↦ err e ]

  -- `Result::map_err`
  abbrev pub map_err {φ} : {F : Type φ} → (E → F) → Result E A → Result F A
  map_err f (ok value) = ok value
  map_err f (err e) = err (f e)

  -- `Option::ok_or`
  abbrev pub ok_or : E → Option A → Result E A
  ok_or e (some value) = ok value
  ok_or e none = err e

  pub Result-cases : (r : Result E A) → ((value : A) × (r ≡ ok value)) ⊎ ((e : E) × (r ≡ err e))
  Result-cases (err e) = inr (e, refl)
  Result-cases (ok value) = inl (value, refl)

  pub >>=-eq-ok {κ} :
      {B : Type κ} (r : Result E A) (next : A → Result E B) {final : B}
      → (r >>= next) ≡ ok final
      → (value : A) × (r ≡ ok value) × (next value ≡ ok final)
  >>=-eq-ok (err e) next h = cc
  >>=-eq-ok (ok value) next h = (value, refl, h)

-- What a result holds, if anything, has the property.
abbrev pub AllOk {ε ℓ κ} : {E : Type ε} {A : Type ℓ} → (A → Type κ) → Result E A → Type κ
AllOk P (ok value) = P value
AllOk P (err e) = Unit {κ}
