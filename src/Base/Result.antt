-- ===== src/Base/Result.antt =====
-- The outcome of a C function that returns an error code: a value, or the code.

pub data Result {ℓ} (E : Type 0) (A : Type ℓ) : Type ℓ where
  ok : A → Result E A
  err : E → Result E A

infixl 5 ◌>>=◌
abbrev pub ◌>>=◌ {ℓ κ} :
    {E : Type 0} {A : Type ℓ} {B : Type κ} → Result E A → (A → Result E B) → Result E B
ok a >>= f = f a
err e >>= f = err e

abbrev pub value_or {ℓ} : {E : Type 0} {A : Type ℓ} → A → Result E A → A
value_or a (ok b) = b
value_or a (err e) = a
