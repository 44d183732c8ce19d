-- ===== src/Prelude/Result.antt =====
-- How a call of the C code can end: it returns, or the process stops there.
use mathlib.Core.Path.{◌≡◌, refl}
use mathlib.Core.Logic.{◌⊎◌, inl, inr}

-- `aborted`: `g_error`, `g_assert` or `abort`; `null_read`: a NULL pointer is read
-- or called;
-- `deadlock`: a mutex that the thread holds is locked again; `unfinished`: the loop has not ended
-- within the fuel that the model gives it.
pub data Fault : Type 0 where
  aborted null_read deadlock unfinished : Fault

pub data Run {ℓ} (A : Type ℓ) : Type ℓ where
  ret : A → Run A
  stop : Fault → Run A

infixl 5 ◌>>=◌
abbrev pub ◌>>=◌ {ℓ κ} : {A : Type ℓ} {B : Type κ} → Run A → (A → Run B) → Run B
ret a >>= f = f a
stop e >>= f = stop e

pub Run-cases {ℓ} :
    {A : Type ℓ} (m : Run A) → ((a : A) × (m ≡ ret a)) ⊎ ((e : Fault) × (m ≡ stop e))
Run-cases (ret a) = inl (a, refl)
Run-cases (stop e) = inr (e, refl)
