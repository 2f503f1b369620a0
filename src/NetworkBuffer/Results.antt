-- ===== src/NetworkBuffer/Results.antt =====
-- How a call ends: with its result, with the exception of `new`, or in undefined behaviour.

pub data Fault : Type 0 where
  bad_alloc undefined : Fault

pub data Outcome {ℓ} (A : Type ℓ) : Type ℓ where
  ok : A → Outcome A
  err : Fault → Outcome A

infixl 5 ◌>>=◌
abbrev pub ◌>>=◌ {ℓ κ} : {A : Type ℓ} {B : Type κ} → Outcome A → (A → Outcome B) → Outcome B
ok a >>= f = f a
err e >>= f = err e
