-- ===== src/Core/Outcome.antt =====
-- What evaluating an expression may end in: a value, an error, or a panic of the arithmetic.
use nova_db.Base.{◌≡◌, refl, ◌⊎◌, inl, inr}
use nova_db.Core.Error.{NovaError, new_error, ErrorCode, Result, ok, err}

pub data Outcome (A : Type 0) : Type 0 where
  done : A → Outcome A
  fail : NovaError → Outcome A
  panic : Outcome A

infixl 5 ◌>>=◌
abbrev pub ◌>>=◌ : {A B : Type 0} → Outcome A → (A → Outcome B) → Outcome B
done a >>= f = f a
fail e >>= f = fail e
panic >>= f = panic

abbrev pub raise : {A : Type 0} → ErrorCode → Outcome A
raise c = fail (new_error c)

pub Outcome-cases :
    {A : Type 0} (o : Outcome A)
    → ((a : A) × (o ≡ done a)) ⊎ (((e : NovaError) × (o ≡ fail e)) ⊎ (o ≡ panic))
Outcome-cases (done a) = inl (a, refl)
Outcome-cases (fail e) = inr (inl (e, refl))
Outcome-cases panic = inr (inr refl)

-- a result without a panic
abbrev pub returned : {A : Type 0} → Result A → Outcome A
returned (ok a) = done a
returned (err e) = fail e
