-- ===== src/Run.antt =====
-- A run of kernel code that may not return: a fault (an access through a null pointer, to a freed
-- object or outside an array) or panic of src/kernel.c, which loops.
use peachos.Base.{Option, none, some}

pub data Run {ℓ} (A : Type ℓ) : Type ℓ where
  done : A → Run A
  fault : Run A
  panic : Run A

infixl 5 ◌>>=◌
abbrev pub ◌>>=◌ {ℓ κ} : {A : Type ℓ} {B : Type κ} → Run A → (A → Run B) → Run B
done a >>= f = f a
fault >>= f = fault
panic >>= f = panic

-- What an access that may fail yields.
abbrev pub access {ℓ} : {A : Type ℓ} → Option A → Run A
access none = fault
access (some a) = done a
