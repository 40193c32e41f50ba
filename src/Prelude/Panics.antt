-- ===== src/Prelude/Panics.antt =====
-- What a kernel routine that may call `panic` gives: a value, or the panic.
use Prim.Native.String.{String}

pub data Outcome {ℓ} (A : Type ℓ) : Type ℓ where
  ok : A → Outcome A
  panic : String → Outcome A

infixl 5 ◌>>=◌
abbrev pub ◌>>=◌ {ℓ κ} : {A : Type ℓ} {B : Type κ} → Outcome A → (A → Outcome B) → Outcome B
ok a >>= f = f a
panic why >>= f = panic why

-- What holds of the result, where there is one.
abbrev pub IfOk : {A : Type 0} → (A → Type 0) → Outcome A → Type 0
IfOk P (ok x) = P x
IfOk P (panic why) = Unit {0}
