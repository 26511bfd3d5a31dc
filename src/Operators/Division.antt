-- ===== src/Operators/Division.antt =====
-- vm/vm.c: what Divide and Modulo compute.
use mathlib.Core.Path.{subst, ap₂}
use native.Mathlib.Nat.{div-add-mod, mod-lt}
use kek_on_rails.Base.{
  ℕ, zero, suc, ◌+◌, ◌*◌, ◌/◌, ◌%◌, ◌<◌, ◌≡◌, refl, sym, ◌∙◌, ◌⊎◌, inl, inr, Bool, true, false,
  Bool-cases,
}
use kek_on_rails.Int.{ℤ, int_ok, pos}
use kek_on_rails.Operators.{
  in_range, signed, is_neg, abs_ℤ, differ, quotient, remainder, is_zero, int_op, divide, modulo,
}
use kek_on_rails.Operators.Range.{ok_eq, stop_ok, abs_signed, abs_nonzero, guarded}
use kek_on_rails.Outcome.{◌>>=◌, >>=-eq-ok, undefined, ok, stop}

-- The division of `x` by `y` that rounds to zero.
pub record IsDivision (x y q r : ℤ) : Type 0 where
  pub size : abs_ℤ y * abs_ℤ q + abs_ℤ r ≡ abs_ℤ x
  pub small : abs_ℤ r < abs_ℤ y
  pub sign_r : (r ≡ pos 0) ⊎ (is_neg r ≡ is_neg x)
  pub sign_q : (q ≡ pos 0) ⊎ (is_neg q ≡ differ (is_neg x) (is_neg y))

sign_signed : (b : Bool) (n : ℕ) → (signed b n ≡ pos 0) ⊎ (is_neg (signed b n) ≡ b)
sign_signed true zero = inl refl
sign_signed true (suc n) = inr refl
sign_signed false n = inr refl

in_range-eq : (z w : ℤ) → in_range z ≡ ok w → z ≡ w
in_range-eq z w h = elim (Bool-cases (int_ok z)) [
  | inl fits ↦ let done : in_range z ≡ ok z = rw (in_range, fits) refl in ok_eq (sym done ∙ h)
  | inr over ↦
      let fails : in_range z ≡ stop undefined = rw (in_range, over) refl in
      absurd (stop_ok (sym fails ∙ h))
]

quotient-IsDivision : (x y : ℤ) → is_zero y ≡ false → IsDivision x y (quotient x y) (remainder x y)
unfolding quotient remainder
quotient-IsDivision x y nonzero =
    let k = abs_ℤ y in
    let m = abs_ℤ x in
    record {
      size =
          ap₂ (λ a b. k * a + b) (abs_signed (differ (is_neg x) (is_neg y)) (m / k))
            (abs_signed (is_neg x) (m % k))
          ∙ div-add-mod m k;
      small =
          subst (λ a. a < k) (sym (abs_signed (is_neg x) (m % k)))
            (mod-lt m (abs_nonzero y nonzero));
      sign_r = sign_signed (is_neg x) (m % k);
      sign_q = sign_signed (differ (is_neg x) (is_neg y)) (m / k);
    }

-- Where both Divide and Modulo have a result, the two are a division with remainder that rounds to
-- zero: the remainder is smaller than the divisor and has the sign of the dividend.
pub int_op-IsDivision :
    (x y q r : ℤ) → int_op divide x y ≡ ok q → int_op modulo x y ≡ ok r → IsDivision x y q r
unfolding int_op
int_op-IsDivision x y q r hq hr =
    let (nonzero, e) = guarded (is_zero y) (in_range (quotient x y)) q hq in
    let (_, f) = guarded (is_zero y) (in_range (quotient x y) >>= λ _. ok (remainder x y)) r hr in
    let (_, _, g) = >>=-eq-ok (in_range (quotient x y)) (λ _. ok (remainder x y)) f in
    subst (IsDivision x y q) (ok_eq g) (
      subst (λ p. IsDivision x y p (remainder x y)) (in_range-eq (quotient x y) q e)
        (quotient-IsDivision x y nonzero))
