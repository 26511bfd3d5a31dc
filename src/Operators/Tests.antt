-- ===== src/Operators/Tests.antt =====
-- Operators on small and boxed integers.
use kek_on_rails.Base.{ℕ, ◌-◌, ◌^◌, ◌≡◌, refl, Option, none, some, arith, ◌==◌, if◌then◌else◌}
use kek_on_rails.Heap.{Heap, read_obj, fresh_obj}
use kek_on_rails.Int.{pos, negsuc}
use kek_on_rails.Machine.{int_val}
use kek_on_rails.Objects.{Obj, imm, ptr, int}
use kek_on_rails.Operators.{quotient, remainder, int_op, divide, modulo, rsh}
use kek_on_rails.Operators.Bop.{bc_bop}
use kek_on_rails.Operators.Division.{IsDivision, int_op-IsDivision}
use kek_on_rails.Operators.Ints.{bc_bop-ints}
use kek_on_rails.Operators.Range.{IsInt}
use kek_on_rails.Outcome.{undefined, ok, stop}
use kek_on_rails.State.{Returns}

abbrev boxed : ℕ → Option Obj
boxed p = if p == 4096 then some (fresh_obj none (int (negsuc 6))) else none

abbrev memory : Heap
memory = record { beginning = 4096; used = 32; size = 1024; const_table = 8; cell = boxed }

seven : int_val (ptr 4096) memory ≡ ok (negsuc 6, memory)
unfolding int_val read_obj
seven = refl

two : int_val (imm 2) memory ≡ ok (pos 2, memory)
unfolding int_val
two = refl

seven_div_two : int_op divide (negsuc 6) (pos 2) ≡ ok (negsuc 2)
unfolding int_op quotient
seven_div_two = refl

seven_mod_two : int_op modulo (negsuc 6) (pos 2) ≡ ok (negsuc 0)
unfolding int_op quotient remainder
seven_mod_two = refl

min_div : int_op divide (negsuc (2 ^ 31 - 1)) (negsuc 0) ≡ stop undefined
unfolding int_op quotient
min_div = refl

shifts : int_op rsh (negsuc 6) (pos 1) ≡ ok (negsuc 3)
unfolding int_op
shifts = refl

seven-IsInt : IsInt (negsuc 6)
seven-IsInt = record { upper = omega arith; lower = omega arith }

two-IsInt : IsInt (pos 2)
two-IsInt = record { upper = omega arith; lower = omega arith }

int_op-IsDivision_example : IsDivision (negsuc 6) (pos 2) (negsuc 2) (negsuc 0)
int_op-IsDivision_example =
    int_op-IsDivision (negsuc 6) (pos 2) (negsuc 2) (negsuc 0) seven_div_two seven_mod_two

bc_bop-ints_example :
    Returns
      (λ v g. (int_val v g ≡ ok (negsuc 2, g)) × IsInt (negsuc 2))
      (bc_bop none divide (ptr 4096) (imm 2) memory)
bc_bop-ints_example =
    bc_bop-ints none divide (ptr 4096) (imm 2) (negsuc 6) (pos 2) (negsuc 2) memory seven two
      seven-IsInt two-IsInt seven_div_two (omega arith)
