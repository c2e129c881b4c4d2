-- ===== src/Prelude/Outcome.antt =====
-- Go's `(value, error)` where an error comes with no value.
use mathlib.Core.Path.{◌≡◌, refl, ap, sym}
use mathlib.Core.Logic.{◌⊎◌, inl, inr}
use mathlib.Core.Option.{Option, none, some}
use mathlib.Core.Bool.{Bool, true, false, true≢false}

pub data Result {ℓ κ} (E : Type ℓ) (A : Type κ) : Type (ℓ ⊔ κ) where
  ok : A → Result E A
  err : E → Result E A

infixl 5 ◌>>=◌ ◌>>◌
abbrev pub ◌>>=◌ {ℓ κ μ} :
    {E : Type ℓ} {A : Type κ} {B : Type μ} → Result E A → (A → Result E B) → Result E B
ok a >>= f = f a
err e >>= f = err e

abbrev pub ◌>>◌ {ℓ κ} : {E : Type ℓ} {B : Type κ} → Result E (Unit {0}) → Result E B → Result E B
m >> k = m >>= λ _. k

-- `if bad { return err }`
abbrev pub fail_if {ℓ} : {E : Type ℓ} → Bool → E → Result E (Unit {0})
fail_if true e = err e
fail_if false e = ok tt

-- `if err != nil { return err }`
abbrev pub fail_on {ℓ} : {E : Type ℓ} → Option E → Result E (Unit {0})
fail_on none = ok tt
fail_on (some e) = err e

-- `fmt.Errorf("...: %w", err)`: the error with its context
abbrev pub map_err {ℓ κ μ} :
    {E : Type ℓ} {F : Type κ} {A : Type μ} → (E → F) → Result E A → Result F A
map_err f (ok a) = ok a
map_err f (err e) = err (f e)

pub Result-cases {ℓ κ} :
    {E : Type ℓ} {A : Type κ} (r : Result E A) → ((e : E) × (r ≡ err e)) ⊎ ((a : A) × (r ≡ ok a))
Result-cases (ok a) = inr (a, refl)
Result-cases (err e) = inl (e, refl)

module _ {ℓ κ} {E : Type ℓ} {A : Type κ} where
  abbrev ok_or : A → Result E A → A
  ok_or d (ok a) = a
  ok_or d (err e) = d

  abbrev is_ok : Result E A → Bool
  is_ok (ok a) = true
  is_ok (err e) = false

  pub ok-inj : {a b : A} → Path (Result E A) (ok a) (ok b) → a ≡ b
  ok-inj {a = a} e = ap (ok_or a) e

  pub err-ne-ok {μ} : {P : Type μ} {e : E} {a : A} → Path (Result E A) (err e) (ok a) → P
  err-ne-ok h = absurd (true≢false (ap is_ok (sym h)))

pub map_err-ok {ℓ κ μ} :
    {E : Type ℓ} {F : Type κ} {A : Type μ} (f : E → F) (r : Result E A) (a : A)
    → map_err f r ≡ ok a
    → r ≡ ok a
map_err-ok f (ok b) a h = ap ok (ok-inj h)
map_err-ok f (err e) a h = err-ne-ok h
