-- ===== src/Interp/StaticSyms.antt =====
-- vm/vm.c: `SYM_STATIC`, which finds a static symbol by its number, counted over a class and its
-- parents.
use kek_on_rails.Base.{ℕ, zero, suc, Option, none, some, List, [], ◌∷◌, get_elem?}
use kek_on_rails.Classes.Table.{Class}
use kek_on_rails.Int.{ℤ, ◌-ℤ◌, pos, negsuc}
use kek_on_rails.Loader.Records.{Symbol}
use kek_on_rails.Outcome.{◌>>=◌, Outcome, vm_error, bad_access, out_of_fuel, ok, stop}

-- The address of the first static symbol of a class, in the numbering that includes those of the
-- parents.
abbrev pub first_addr : List Symbol → Option ℕ
first_addr [] = none
first_addr (member ∷ syms) = some member.addr

abbrev pub class_rec : List Class → ℕ → Outcome Class
class_rec cs k = elim (get_elem? cs k) [ none ↦ stop bad_access | some c ↦ ok c ]

-- The distance of an index `n` from where the symbols of a class begin; a class without symbols leaves
-- the distance that its child had.
abbrev pub distance : ℕ → ℤ → Option ℕ → ℤ
distance n before none = before
distance n before (some a) = pos n -ℤ pos a

-- The loop of `SYM_STATIC` at the class `k`, at the distance `c_idx`.
unfoldable pub sym_static_loop : ℕ → List Class → ℕ → ℕ → ℤ → Option ℕ → Outcome (ℕ × ℕ)
sym_static_loop fuel cs n k (pos i) parent = ok (k, i)
sym_static_loop fuel cs n k (negsuc i) none = stop vm_error
sym_static_loop zero cs n k (negsuc i) (some p) = stop out_of_fuel
sym_static_loop (suc fuel) cs n k (negsuc i) (some p) = class_rec cs p >>= λ c.
    sym_static_loop fuel cs n p (distance n (negsuc i) (first_addr c.syms_static)) c.parent

-- The first read is not guarded by the count of symbols.
abbrev pub own_distance : ℕ → Option ℕ → Outcome ℤ
own_distance n none = stop bad_access
own_distance n (some a) = ok (pos n -ℤ pos a)

-- `SYM_STATIC`
unfoldable pub sym_static : ℕ → List Class → ℕ → ℕ → Outcome (ℕ × ℕ)
sym_static fuel cs k n = class_rec cs k >>= λ c.
    own_distance n (first_addr c.syms_static) >>= λ d. sym_static_loop fuel cs n k d c.parent
