-- ===== src/Base/Calls.antt =====
-- The outcome of a call. The build has no exceptions: `THROW_*` of common/exception.hpp prints a
-- message and exits with a code, `BAIL` of extension_impl_handle.cpp aborts.
use mathlib.Core.Path.{◌≡◌, refl}

-- The exit codes of common/exception.hpp, `abort`, and what the C++ standard leaves undefined:
-- an access outside an array or through a null pointer, a cast to the wrong class, a double free.
-- `out_of_fuel` marks the bound of a modelled loop, and theorems show that it is not met.
pub data Stop : Type 0 where
  invalid_arg out_of_range logic_err runtime_err aborted undefined out_of_fuel : Stop

pub data Outcome {ℓ} (A : Type ℓ) : Type ℓ where
  ok : A → Outcome A
  stop : Stop → Outcome A

-- The rest of the work runs on the value of a call that returns.
infixl 5 ◌>>=◌ ◌>>◌
abbrev pub ◌>>=◌ {ℓ κ} :
    {Before : Type ℓ} {After : Type κ} → Outcome Before → (Before → Outcome After) → Outcome After
stop why >>= rest = stop why
ok value >>= rest = rest value

abbrev pub ◌>>◌ {ℓ κ} :
    {Before : Type ℓ} {After : Type κ} → Outcome Before → Outcome After → Outcome After
call >> rest = call >>= λ _. rest

-- The call returns, with a value that satisfies `P`.
abbrev pub Returns {ℓ κ} : {A : Type ℓ} → Outcome A → (A → Type κ) → Type (ℓ ⊔ κ)
Returns {A} m P = (a : A) × (m ≡ ok a) × P a

pub >>=_assoc {ℓ κ μ} :
    {A : Type ℓ} {B : Type κ} {C : Type μ} (m : Outcome A) (f : A → Outcome B) (g : B → Outcome C)
    → (m >>= f >>= g) ≡ (m >>= λ a. f a >>= g)
>>=_assoc (ok a) f g = refl
>>=_assoc (stop e) f g = refl
