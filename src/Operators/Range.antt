-- ===== src/Operators/Range.antt =====
-- vm/vm.c: the range of the results of integer operators.
use Prim.Native.Nat.{bit_and, bit_or, bit_xor}
use mathlib.Core.Bool.{not}
use mathlib.Core.Path.{subst}
use native.Mathlib.Nat.{div-le_self, mod-lt}
use kek_on_rails.Base.{
  ℕ, ◌^◌, ◌≤◌, ◌<◌, ◌≡◌, refl, sym, ◌∙◌, inl, inr, Bool, true, false, ◌&&◌, arith, ltb, leb, ltb→lt,
  Bool-cases, zero, suc, ◌*◌, ◌%◌, ◌||◌, if◌then◌else◌, leb→le, ltb→ge,
}
use kek_on_rails.Int.{
  ℤ, pos_part, neg_part, int_ok, ◌+ℤ◌, ◌-ℤ◌, ◌*ℤ◌, ltb_ℤ, eqb_ℤ, pos, negsuc, int_of_word,
}
use kek_on_rails.Operators.{
  in_range, truth, Op, signed, is_neg, abs_ℤ, quotient, remainder, word_of, is_zero, shift_left,
  shift_right, shift_count, int_op, plus, minus, times, divide, modulo, eq_op, not_eq, less,
  greater, less_or_eq, greater_or_eq, log_or, log_and, bit_or_op, bit_and_op, xor_op, lsh, rsh,
}
use kek_on_rails.Outcome.{Stop, Outcome, undefined, ok, stop, ◌>>=◌, >>=-eq-ok}

pub record IsInt (z : ℤ) : Type 0 where
  pub upper : pos_part z < 2 ^ 31
  pub lower : neg_part z ≤ 2 ^ 31

and_true : (a b : Bool) → (a && b) ≡ true → (a ≡ true) × (b ≡ true)
and_true true b h = (refl, h)
and_true false b h = cc

IsInt-int_ok : (z : ℤ) → int_ok z ≡ true → IsInt z
IsInt-int_ok z h =
    let (u, l) = and_true (ltb (pos_part z) (2 ^ 31)) (leb (neg_part z) (2 ^ 31)) h in
    record { upper = ltb→lt (pos_part z) (2 ^ 31) u; lower = leb→le (neg_part z) (2 ^ 31) l }

pub ok_eq : {a b : ℤ} → ◌≡◌ {A = Outcome ℤ} (ok a) (ok b) → a ≡ b
ok_eq e = cc

pub stop_ok : {a : ℤ} {e : Stop} → ◌≡◌ {A = Outcome ℤ} (stop e) (ok a) → ⊥
stop_ok e = cc

IsInt-in_range : (z w : ℤ) → in_range z ≡ ok w → IsInt w
IsInt-in_range z w h = elim (Bool-cases (int_ok z)) [
  | inl fits ↦
      let done : in_range z ≡ ok z = rw (in_range, fits) refl in
      subst IsInt (ok_eq (sym done ∙ h)) (IsInt-int_ok z fits)
  | inr over ↦
      let fails : in_range z ≡ stop undefined = rw (in_range, over) refl in
      absurd (stop_ok (sym fails ∙ h))
]

IsInt-truth : (b : Bool) → IsInt (truth b)
IsInt-truth true = record { upper = omega arith; lower = omega arith }
IsInt-truth false = record { upper = omega arith; lower = omega arith }

IsInt-int_of_word : (w : ℕ) → w < 2 ^ 32 → IsInt (int_of_word w)
IsInt-int_of_word w h = elim (Bool-cases (ltb w (2 ^ 31))) [
  | inl low ↦ rw low (record { upper = ltb→lt w (2 ^ 31) low; lower = omega arith })
  | inr high ↦
      let above = ltb→ge w (2 ^ 31) high in
      rw high (record { upper = omega arith; lower = omega arith })
]

IsInt-word : (w : ℕ) → IsInt (int_of_word (w % 2 ^ 32))
IsInt-word w = IsInt-int_of_word (w % 2 ^ 32) (omega arith)

pub abs_signed : (b : Bool) (n : ℕ) → abs_ℤ (signed b n) ≡ n
abs_signed true zero = refl
abs_signed true (suc n) = refl
abs_signed false n = refl

IsInt-abs : (z : ℤ) → abs_ℤ z < 2 ^ 31 → IsInt z
IsInt-abs (pos n) h = record { upper = h; lower = omega arith }
IsInt-abs (negsuc n) h = record { upper = omega arith; lower = omega arith }

abs-IsInt : (z : ℤ) → IsInt z → abs_ℤ z ≤ 2 ^ 31
abs-IsInt (pos n) is = omega (arith, is.upper)
abs-IsInt (negsuc n) is = is.lower

pub abs_nonzero : (z : ℤ) → is_zero z ≡ false → 0 < abs_ℤ z
abs_nonzero (pos zero) h = cc
abs_nonzero (pos (suc n)) h = omega arith
abs_nonzero (negsuc n) h = omega arith

IsInt-remainder : (x y : ℤ) → IsInt y → is_zero y ≡ false → IsInt (remainder x y)
unfolding remainder
IsInt-remainder x y is nonzero =
    let below = mod-lt (abs_ℤ x) (abs_nonzero y nonzero) in
    let size = abs_signed (is_neg x) (abs_ℤ x % abs_ℤ y) in
    IsInt-abs (signed (is_neg x) (abs_ℤ x % abs_ℤ y)) (omega (arith, below, size, abs-IsInt y is))

IsInt-shift_right : (x : ℤ) (k : ℕ) → IsInt x → IsInt (shift_right x k)
IsInt-shift_right (pos n) k is = record {
  upper = omega (arith, div-le_self n (2 ^ k), is.upper);
  lower = omega arith;
}
IsInt-shift_right (negsuc n) k is = record {
  upper = omega arith;
  lower = omega (arith, div-le_self n (2 ^ k), is.lower);
}

IsInt-shift_left : (x z : ℤ) (k : ℕ) → shift_left x k ≡ ok z → IsInt z
IsInt-shift_left (pos n) z k h = IsInt-in_range (pos (n * 2 ^ k)) z h
IsInt-shift_left (negsuc n) z k h = cc

IsInt-ok : (z w : ℤ) → IsInt z → ◌≡◌ {A = Outcome ℤ} (ok z) (ok w) → IsInt w
IsInt-ok z w is h = subst IsInt (ok_eq h) is

pub guarded :
    (b : Bool) (m : Outcome ℤ) (z : ℤ)
    → (if b then stop undefined else m) ≡ ok z
    → (b ≡ false) × (m ≡ ok z)
guarded true m z h = cc
guarded false m z h = (refl, h)

pub int_op-IsInt : (o : Op) (x y z : ℤ) → IsInt x → IsInt y → int_op o x y ≡ ok z → IsInt z
unfolding int_op
int_op-IsInt plus x y z ix iy h = IsInt-in_range (x +ℤ y) z h
int_op-IsInt minus x y z ix iy h = IsInt-in_range (x -ℤ y) z h
int_op-IsInt times x y z ix iy h = IsInt-in_range (x *ℤ y) z h
int_op-IsInt divide x y z ix iy h =
    let (_, e) = guarded (is_zero y) (in_range (quotient x y)) z h in
    IsInt-in_range (quotient x y) z e
int_op-IsInt modulo x y z ix iy h =
    let (nonzero, e) =
      guarded (is_zero y) (in_range (quotient x y) >>= λ _. ok (remainder x y)) z h in
    let (_, _, last) = >>=-eq-ok (in_range (quotient x y)) (λ _. ok (remainder x y)) e in
    IsInt-ok (remainder x y) z (IsInt-remainder x y iy nonzero) last
int_op-IsInt eq_op x y z ix iy h = IsInt-ok _ z (IsInt-truth (eqb_ℤ x y)) h
int_op-IsInt not_eq x y z ix iy h = IsInt-ok _ z (IsInt-truth (not (eqb_ℤ x y))) h
int_op-IsInt less x y z ix iy h = IsInt-ok _ z (IsInt-truth (ltb_ℤ x y)) h
int_op-IsInt greater x y z ix iy h = IsInt-ok _ z (IsInt-truth (ltb_ℤ y x)) h
int_op-IsInt less_or_eq x y z ix iy h = IsInt-ok _ z (IsInt-truth (not (ltb_ℤ y x))) h
int_op-IsInt greater_or_eq x y z ix iy h = IsInt-ok _ z (IsInt-truth (not (ltb_ℤ x y))) h
int_op-IsInt log_or x y z ix iy h = IsInt-ok _ z (IsInt-truth (not (is_zero x && is_zero y))) h
int_op-IsInt log_and x y z ix iy h = IsInt-ok _ z (IsInt-truth (not (is_zero x || is_zero y))) h
int_op-IsInt bit_or_op x y z ix iy h = IsInt-ok _ z (IsInt-word (bit_or (word_of x) (word_of y))) h
int_op-IsInt bit_and_op x y z ix iy h =
    IsInt-ok _ z (IsInt-word (bit_and (word_of x) (word_of y))) h
int_op-IsInt xor_op x y z ix iy h = IsInt-ok _ z (IsInt-word (bit_xor (word_of x) (word_of y))) h
int_op-IsInt lsh x y z ix iy h =
    let (k, _, e) = >>=-eq-ok (shift_count y) (λ k. shift_left x k) h in IsInt-shift_left x z k e
int_op-IsInt rsh x y z ix iy h =
    let (k, _, e) = >>=-eq-ok (shift_count y) (λ k. ok (shift_right x k)) h in
    IsInt-ok _ z (IsInt-shift_right x k ix) e
