-- ===== src/Prelude/Outcomes.antt =====
-- What a call of the program comes to: a value, a run-time panic, or no end within the fuel.
use mathlib.Core.Path.{◌≡◌, refl}
use mathlib.Core.Logic.{◌↔◌, ◌⊎◌, inl, inr}

pub data Outcome {ℓ} (A : Type ℓ) : Type ℓ where
  ret : A → Outcome A
  panics : Outcome A
  unfinished : Outcome A

infixl 5 ◌>>=◌
abbrev pub ◌>>=◌ {ℓ κ} : {A : Type ℓ} {B : Type κ} → Outcome A → (A → Outcome B) → Outcome B
ret a >>= f = f a
panics >>= f = panics
unfinished >>= f = unfinished

-- Inversion of a bind that returned.
pub >>=-eq-ret {ℓ κ} :
    {A : Type ℓ} {B : Type κ} (m : Outcome A) (f : A → Outcome B) {b : B}
    → (m >>= f) ≡ ret b
    → (a : A) × (m ≡ ret a) × (f a ≡ ret b)
>>=-eq-ret (ret a) f h = (a, refl, h)
>>=-eq-ret panics f h = cc
>>=-eq-ret unfinished f h = cc

-- A sequence panics in one of its calls.
pub >>=-eq-panics {ℓ κ} :
    {A : Type ℓ} {B : Type κ} (m : Outcome A) (f : A → Outcome B)
    → ((m >>= f) ≡ panics) ↔ ((m ≡ panics) ⊎ ((a : A) × (m ≡ ret a) × (f a ≡ panics)))
>>=-eq-panics (ret a) f =
    (λ h. inr (a, refl, h), λ h. elim h [ inl e ↦ absurd (cc e) | inr (a', e, h') ↦ cc (e, h') ])
>>=-eq-panics panics f = (λ h. inl refl, λ h. refl)
>>=-eq-panics unfinished f =
    (λ h. absurd (cc h), λ h. elim h [ inl e ↦ absurd (cc e) | inr (a', e, h') ↦ absurd (cc e) ])
