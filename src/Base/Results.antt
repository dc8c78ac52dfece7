-- ===== src/Base/Results.antt =====
-- The exceptions of wembed as values, and the monad of code that changes a state or throws.
use Prim.Native.String.{String}
use mathlib.Core.Path.{◌≡◌}
use mathlib.Core.Bool.{Bool, true, false}

-- `malformed_exception`, `invalid_exception`, `std::runtime_error`, `unlinkable_exception` and
-- `vm_runtime_exception` with their messages; `bad_alloc`; a failed `assert`; and the runs that C++
-- leaves undefined: a read outside a buffer or a container, a shift by the width or more, and the
-- use of a null pointer. `std::bad_optional_access` is that of `value()` on an empty optional, and
-- `out_of_fuel` that of a loop of the model that has none left.
pub data Exception : Type 0 where
  malformed invalid runtime unlinkable vm_runtime : String → Exception
  bad_alloc : Exception
  assertion : Exception
  overrun : Exception
  null_pointer : Exception
  bad_shift : Exception
  bad_optional : Exception
  out_of_fuel : Exception

pub data Result {ℓ} (A : Type ℓ) : Type ℓ where
  ok : A → Result A
  throw : Exception → Result A

abbrev pub Stateful {ℓ κ} : Type ℓ → Type κ → Type (ℓ ⊔ κ)
Stateful S A = S → Result (A × S)

infixl 5 ◌>>=◌ ◌>>◌
unfoldable pub ◌>>=◌ {ℓ κ μ} :
    {S : Type ℓ} {A : Type κ} {B : Type μ}
    → (S → Result (A × S))
    → (A → S → Result (B × S))
    → S
    → Result (B × S)
m >>= f = λ s. elim (m s) [ ok (a, t) ↦ f a t | throw e ↦ throw e ]

abbrev pub ◌>>◌ {ℓ κ μ} :
    {S : Type ℓ} {A : Type κ} {B : Type μ}
    → (S → Result (A × S))
    → (S → Result (B × S))
    → S
    → Result (B × S)
m >> k = m >>= λ _. k

abbrev pub return {ℓ κ} : {S : Type ℓ} {A : Type κ} → A → S → Result (A × S)
return a s = ok (a, s)

abbrev pub fail {ℓ κ} : {S : Type ℓ} {A : Type κ} → Exception → S → Result (A × S)
fail e s = throw e

-- `if (b) throw e;`
abbrev pub throw_if {ℓ} : {S : Type ℓ} → Bool → Exception → S → Result (Unit {0} × S)
throw_if true e s = throw e
throw_if false e s = ok (tt, s)

-- `assert(b);`
abbrev pub assert {ℓ} : {S : Type ℓ} → Bool → S → Result (Unit {0} × S)
assert true s = ok (tt, s)
assert false s = throw assertion

pub ok_injective {ℓ} : {A : Type ℓ} (a b : A) → ok a ≡ ok b → a ≡ b
ok_injective a b e = cc
