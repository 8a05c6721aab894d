-- ===== src/Prelude/Fallible.antt =====
-- What a service function returns or throws: the errors of `buildError` and `fail`, with their HTTP
-- status.
use Prim.Native.Nat.{ℕ}
use Prim.Native.String.{String}
use mathlib.Core.Bool.{Bool, true, false}

-- A value, or the HTTP status and the message of what is thrown.
pub data Result {ℓ} (A : Type ℓ) : Type ℓ where
  ok : A → Result A
  err : ℕ → String → Result A

infixl 5 ◌>>=◌ ◌>>◌
abbrev pub ◌>>=◌ {ℓ κ} : {A : Type ℓ} {B : Type κ} → Result A → (A → Result B) → Result B
ok a >>= f = f a
err status message >>= f = err status message

abbrev pub ◌>>◌ {ℓ} : {B : Type ℓ} → Result (Unit {0}) → Result B → Result B
m >> k = m >>= λ _. k

-- `if (test) throw …`
abbrev pub refuse_if : Bool → ℕ → String → Result (Unit {0})
refuse_if true status message = err status message
refuse_if false status message = ok tt
