-- ===== src/Base/Errors.antt =====
-- Go's `(value, error)`: a value, or the text that the error's `Error()` returns.
use mathlib.Core.Path.{◌≡◌, refl}
use mathlib.Core.Logic.{◌⊎◌, inl, inr}
use scramjet_app.Base.Lists.{Bytes}

pub data Result {ℓ} (A : Type ℓ) : Type ℓ where
  ok : A → Result A
  err : Bytes → Result A

-- An error ends the function that meets it, as after `if err != nil { return err }`.
infixl 5 ◌>>=◌
abbrev pub ◌>>=◌ {ℓ κ} : {V : Type ℓ} {W : Type κ} → Result V → (V → Result W) → Result W
err message >>= rest = err message
ok value >>= rest = rest value

-- `value, _ := e` where `value` is the zero value `d` on an error.
abbrev pub or_zero {ℓ} : {A : Type ℓ} → A → Result A → A
or_zero d (ok a) = a
or_zero d (err e) = d

pub Result-cases {ℓ} :
    {A : Type ℓ} (r : Result A) → ((a : A) × (r ≡ ok a)) ⊎ ((e : Bytes) × (r ≡ err e))
Result-cases (ok a) = inl (a, refl)
Result-cases (err e) = inr (e, refl)

-- What succeeds succeeds at its first step, and at the rest from there.
pub >>=-eq-ok {ℓ κ} :
    {V : Type ℓ} {W : Type κ} (first : Result V) (rest : V → Result W) {last : W}
    → (first >>= rest) ≡ ok last
    → (value : V) × (first ≡ ok value) × (rest value ≡ ok last)
>>=-eq-ok (err message) rest fails = cc
>>=-eq-ok (ok value) rest succeeds = (value, refl, succeeds)

pub ok_inj {ℓ} : {A : Type ℓ} {a b : A} → ok a ≡ ok b → a ≡ b
ok_inj h = cc

pub ok-ne-err {ℓ} : {A : Type ℓ} {a : A} {e : Bytes} → ok a ≡ err e → ⊥
ok-ne-err h = cc
