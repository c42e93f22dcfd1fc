-- ===== src/Common/Outcome.antt =====
-- What a run of C code comes to, as a monad.
use Prim.Native.Nat.{ℕ}
use mathlib.Core.Path.{◌≡◌, refl}

-- `exit n` ends the process. `undefined` is behaviour that C leaves undefined: a null pointer
-- followed, an index outside an array, a division by zero, a variable read before it is set.
-- `diverged` says that the fuel of a loop ran out.
pub data Outcome {ℓ} (A : Type ℓ) : Type ℓ where
  done : A → Outcome A
  exit : ℕ → Outcome A
  undefined : Outcome A
  diverged : Outcome A

infixl 5 ◌>>=◌
abbrev pub ◌>>=◌ {ℓ κ} : {A : Type ℓ} {B : Type κ} → Outcome A → (A → Outcome B) → Outcome B
done a >>= f = f a
exit n >>= f = exit n
undefined >>= f = undefined
diverged >>= f = diverged

-- Inversion of a successful bind.
pub >>=-eq-done {ℓ κ} :
    {A : Type ℓ} {B : Type κ} (m : Outcome A) (f : A → Outcome B) {b : B}
    → (m >>= f) ≡ done b
    → (a : A) × (m ≡ done a) × (f a ≡ done b)
>>=-eq-done (done a) f h = (a, refl, h)
>>=-eq-done (exit n) f h = cc
>>=-eq-done undefined f h = cc
>>=-eq-done diverged f h = cc
