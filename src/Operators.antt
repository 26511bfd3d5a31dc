-- ===== src/Operators.antt =====
-- vm/vm.c and vm/bc.h: the binary operators of the bytecode on integers.
pub mod Bop
pub mod Division
pub mod Range
pub mod Ints
mod Tests
use Prim.Native.Nat.{bit_and, bit_or, bit_xor}
use mathlib.Core.Bool.{not}
use kek_on_rails.Base.{
  ℕ, zero, suc, ◌-◌, ◌*◌, ◌/◌, ◌%◌, ◌^◌, Bool, true, false, ◌&&◌, ◌||◌, ltb, if◌then◌else◌,
}
use kek_on_rails.Int.{ℤ, ◌+ℤ◌, ◌-ℤ◌, ◌*ℤ◌, ltb_ℤ, eqb_ℤ, int_ok, pos, negsuc, int_of_word}
use kek_on_rails.Outcome.{◌>>=◌, Outcome, undefined, ok, stop}

-- The operators, without `Error`, which no code produces.
pub data Op : Type 0 where
  plus minus times divide modulo eq_op not_eq less greater less_or_eq greater_or_eq : Op
  log_or log_and bit_or_op bit_and_op xor_op lsh rsh : Op

-- The value of an int expression: outside the range, C gives it no meaning.
abbrev pub in_range : ℤ → Outcome ℤ
in_range z = if int_ok z then ok z else stop undefined

abbrev pub signed : Bool → ℕ → ℤ
signed true zero = pos 0
signed true (suc n) = negsuc n
signed false n = pos n

abbrev pub is_neg : ℤ → Bool
is_neg (pos n) = false
is_neg (negsuc n) = true

abbrev pub abs_ℤ : ℤ → ℕ
abs_ℤ (pos n) = n
abs_ℤ (negsuc n) = suc n

abbrev pub differ : Bool → Bool → Bool
differ true true = false
differ true false = true
differ false true = true
differ false false = false

-- `/` and `%` round to zero.
unfoldable pub quotient : ℤ → ℤ → ℤ
quotient x y = signed (differ (is_neg x) (is_neg y)) (abs_ℤ x / abs_ℤ y)

unfoldable pub remainder : ℤ → ℤ → ℤ
remainder x y = signed (is_neg x) (abs_ℤ x % abs_ℤ y)

-- An int as its 32 bits.
abbrev pub word_of : ℤ → ℕ
word_of (pos n) = n % 2 ^ 32
word_of (negsuc n) = (2 ^ 32 - 1 - n) % 2 ^ 32

abbrev pub truth : Bool → ℤ
truth true = pos 1
truth false = pos 0

abbrev pub is_zero : ℤ → Bool
is_zero z = eqb_ℤ z (pos 0)

-- A shift by a count below the width. A negative number is not shifted to the left, and is shifted
-- to the right with its sign, as compilers do.
abbrev pub shift_left : ℤ → ℕ → Outcome ℤ
shift_left (pos n) k = in_range (pos (n * 2 ^ k))
shift_left (negsuc n) k = stop undefined

abbrev pub shift_right : ℤ → ℕ → ℤ
shift_right (pos n) k = pos (n / 2 ^ k)
shift_right (negsuc n) k = negsuc (n / 2 ^ k)

abbrev pub shift_count : ℤ → Outcome ℕ
shift_count (pos k) = if ltb k 32 then ok k else stop undefined
shift_count (negsuc k) = stop undefined

unfoldable pub int_op : Op → ℤ → ℤ → Outcome ℤ
int_op plus x y = in_range (x +ℤ y)
int_op minus x y = in_range (x -ℤ y)
int_op times x y = in_range (x *ℤ y)
int_op divide x y = if is_zero y then stop undefined else in_range (quotient x y)
int_op modulo x y =
    if is_zero y then stop undefined else in_range (quotient x y) >>= λ _. ok (remainder x y)
int_op eq_op x y = ok (truth (eqb_ℤ x y))
int_op not_eq x y = ok (truth (not (eqb_ℤ x y)))
int_op less x y = ok (truth (ltb_ℤ x y))
int_op greater x y = ok (truth (ltb_ℤ y x))
int_op less_or_eq x y = ok (truth (not (ltb_ℤ y x)))
int_op greater_or_eq x y = ok (truth (not (ltb_ℤ x y)))
int_op log_or x y = ok (truth (not (is_zero x && is_zero y)))
int_op log_and x y = ok (truth (not (is_zero x || is_zero y)))
int_op bit_or_op x y = ok (int_of_word (bit_or (word_of x) (word_of y) % 2 ^ 32))
int_op bit_and_op x y = ok (int_of_word (bit_and (word_of x) (word_of y) % 2 ^ 32))
int_op xor_op x y = ok (int_of_word (bit_xor (word_of x) (word_of y) % 2 ^ 32))
int_op lsh x y = shift_count y >>= λ k. shift_left x k
int_op rsh x y = shift_count y >>= λ k. ok (shift_right x k)
