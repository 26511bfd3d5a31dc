-- ===== src/Outcome.antt =====
-- How a piece of the virtual machine ends. vm/vm.h sets EXIT_ON_ERROR and BRUTAL_KILL, so
-- vm_error never returns: it ends the process, as a failed assert does.
use kek_on_rails.Base.{◌≡◌, refl, Bool, true, false}

-- `vm_error` and `assertion` are the stops that the source asks for. `bad_access` is a read or
-- write outside an object, `undefined` an operation that C leaves undefined, and `out_of_fuel`
-- a loop that did not end within the rounds it was given.
pub data Stop : Type 0 where
  vm_error assertion bad_access undefined out_of_fuel : Stop

pub data Outcome {ℓ} (A : Type ℓ) : Type ℓ where
  ok : A → Outcome A
  stop : Stop → Outcome A

infixl 5 ◌>>=◌ ◌>>◌
abbrev pub ◌>>=◌ : {A B : Type 0} → Outcome A → (A → Outcome B) → Outcome B
stop why >>= next = stop why
ok value >>= next = next value

abbrev pub ◌>>◌ : {B : Type 0} → Outcome (Unit {0}) → Outcome B → Outcome B
one >> two = one >>= λ _. two

-- `if (!b) …` with one of the ways to stop
abbrev pub require : Bool → Stop → Outcome (Unit {0})
require false why = stop why
require true why = ok tt

-- Where a sequence gives a value, so did its first part.
pub >>=-eq-ok :
    {A B : Type 0} (run : Outcome A) (next : A → Outcome B) {result : B}
    → (run >>= next) ≡ ok result
    → (value : A) × (run ≡ ok value) × (next value ≡ ok result)
>>=-eq-ok (stop why) next e = cc
>>=-eq-ok (ok value) next e = (value, refl, e)
