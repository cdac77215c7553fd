-- ===== src/Base/Effects.antt =====
-- Code that changes a state and may return an error. The state stays as it was left where the error
-- arose, so that a deferred clean-up or a caller sees it.
use mathlib.Core.Path.{◌≡◌, refl}
use mathlib.Core.Logic.{◌⊎◌, inl, inr}
use mathlib.Core.Bool.{Bool, true, false}
use readyfleet_lightagent.Base.Errors.{Error, Result, ok, err}

abbrev pub Act {ℓ κ} : Type ℓ → Type κ → Type (ℓ ⊔ κ)
Act S A = S → Result A × S

module _ {ℓ κ} {S : Type ℓ} {A : Type κ} where
  abbrev pub pure : A → Act S A
  pure a s = (ok a, s)

  abbrev pub fail : Error → Act S A
  fail e s = (err e, s)

  abbrev pub lift : Result A → Act S A
  lift r s = (r, s)

  abbrev pub gets : (S → A) → Act S A
  gets f s = (ok (f s), s)

abbrev pub modify {ℓ} : {S : Type ℓ} → (S → S) → Act S (Unit {0})
modify f s = (ok tt, f s)

module _ {ℓ κ μ} {S : Type ℓ} {A : Type κ} {B : Type μ} where
  -- What follows a call: the rest on success, and the early return on an error.
  abbrev pub resume : Result A → (A → Act S B) → Act S B
  resume (ok a) f s = f a s
  resume (err e) f s = (err e, s)

  infixl 10 ◌>>=◌ ◌>>◌
  abbrev pub ◌>>=◌ : Act S A → (A → Act S B) → Act S B
  ◌>>=◌ m f s = resume (m s).0 f (m s).1

  abbrev pub ◌>>◌ : Act S A → Act S B → Act S B
  m >> n = m >>= λ _. n

  -- `x, err := m()` with the error kept as a value.
  abbrev pub inspect : Act S A → (Result A → Act S B) → Act S B
  inspect m f s = f (m s).0 (m s).1

module _ {ℓ κ} {S : Type ℓ} {A : Type κ} where
  abbrev recover : Result A → (Error → Act S A) → Act S A
  recover (ok a) h s = (ok a, s)
  recover (err e) h s = h e s

  -- `if err := m(); err != nil { return h(err) }`
  abbrev pub catch : Act S A → (Error → Act S A) → Act S A
  catch m h s = recover (m s).0 h (m s).1

  -- `_ = m()`
  abbrev pub ignore : Act S A → Act S (Unit {0})
  ignore m s = (ok tt, (m s).1)

-- `if test { return e }`
abbrev pub guard {ℓ} : {S : Type ℓ} → Bool → Error → Act S (Unit {0})
guard true e s = (ok tt, s)
guard false e s = (err e, s)

abbrev pub when {ℓ} : {S : Type ℓ} → Bool → Act S (Unit {0}) → Act S (Unit {0})
when true m s = m s
when false m s = (ok tt, s)

-- To split on the outcome of a call and keep the equation.
pub Result-cases {ℓ} :
    {A : Type ℓ} (r : Result A) → ((a : A) × (r ≡ ok a)) ⊎ ((e : Error) × (r ≡ err e))
Result-cases (ok a) = inl (a, refl)
Result-cases (err e) = inr (e, refl)
