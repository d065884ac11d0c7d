-- ===== src/Prelude/Run.antt =====
-- Runs of code that may panic, and of loops on fuel.

pub data Run {ℓ} (A : Type ℓ) : Type ℓ where
  panic : Run A
  out_of_fuel : Run A
  ret : A → Run A

infixl 5 ◌>>=◌
abbrev pub ◌>>=◌ {ℓ κ} : {A : Type ℓ} {B : Type κ} → Run A → (A → Run B) → Run B
panic >>= next = panic
out_of_fuel >>= next = out_of_fuel
ret a >>= next = next a

-- What holds of the result of a run that returns, and of no run that does not.
abbrev pub Returns {ℓ} : {A : Type ℓ} → (A → Type 0) → Run A → Type 0
Returns P panic = ⊥
Returns P out_of_fuel = ⊥
Returns P (ret a) = P a

-- What holds of the result of a run, if it returns.
abbrev pub IfReturns {ℓ} : {A : Type ℓ} → (A → Type 0) → Run A → Type 0
IfReturns P panic = Unit
IfReturns P out_of_fuel = Unit
IfReturns P (ret a) = P a

pub IfReturns-bind {ℓ κ} :
    {A : Type ℓ} {B : Type κ} {Q : A → Type 0} (P : B → Type 0) (f : A → Run B) (r : Run A)
    → IfReturns Q r
    → ((a : A) → Q a → IfReturns P (f a))
    → IfReturns P (r >>= f)
IfReturns-bind P f panic h g = tt
IfReturns-bind P f out_of_fuel h g = tt
IfReturns-bind P f (ret a) h g = g a h

-- Nothing is known of the result.
pub IfReturns-any {ℓ} : {A : Type ℓ} (r : Run A) → IfReturns (λ _. Unit) r
IfReturns-any panic = tt
IfReturns-any out_of_fuel = tt
IfReturns-any (ret a) = tt

-- A value of which nothing is known.
pub skip {ℓ κ} :
    {A : Type ℓ} {B : Type κ} (P : B → Type 0) (f : A → Run B) (r : Run A)
    → ((a : A) → IfReturns P (f a))
    → IfReturns P (r >>= f)
skip P f panic h = tt
skip P f out_of_fuel h = tt
skip P f (ret a) h = h a

-- A run that does not run out of rounds.
abbrev pub Ends {ℓ} : {A : Type ℓ} → Run A → Type 0
Ends panic = Unit
Ends out_of_fuel = ⊥
Ends (ret a) = Unit

pub Ends-bind {ℓ κ} :
    {A : Type ℓ} {B : Type κ} (f : A → Run B) (r : Run A)
    → Ends r
    → ((a : A) → Ends (f a))
    → Ends (r >>= f)
Ends-bind f panic e g = tt
Ends-bind f out_of_fuel e g = absurd e
Ends-bind f (ret a) e g = g a
