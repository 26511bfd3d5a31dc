-- ===== src/Classes/Names.antt =====
-- Equality of names, and the cases of equations that clauses need.
use mathlib.Core.Path.{subst, ap₂}
use kek_on_rails.Base.{
  ℕ, ◌≡◌, refl, sym, ◌∙◌, ◌≢◌, Bool, true, false, ◌&&◌, some, List, [], ◌∷◌, ◌==◌, eq→==, ==→eq,
}
use kek_on_rails.Classes.Table.{streq}
use kek_on_rails.Outcome.{Outcome, ok}

pub and-true : (a b : Bool) → (a && b) ≡ true → (a ≡ true) × (b ≡ true)
and-true true b h = (refl, h)
and-true false b h = cc

pub streq→eq : (xs ys : List ℕ) → streq xs ys ≡ true → xs ≡ ys
streq→eq [] [] h = refl
streq→eq [] (y ∷ ys) h = cc
streq→eq (x ∷ xs) [] h = cc
streq→eq (x ∷ xs) (y ∷ ys) h =
    let (here, further) = and-true (x == y) (streq xs ys) h in
    ap₂ (λ a l. a ∷ l) (==→eq x y here) (streq→eq xs ys further)

pub streq_refl : (xs : List ℕ) → streq xs xs ≡ true
streq_refl [] = refl
streq_refl (x ∷ xs) = rw (eq→== x x refl, streq_refl xs)

pub true-false : true ≢ false
true-false e = cc

pub ok_same : {A : Type 0} {a b : A} → ◌≡◌ {A = Outcome A} (ok a) (ok b) → a ≡ b
ok_same e = cc

pub streq-false : (xs ys : List ℕ) → streq xs ys ≡ false → xs ≢ ys
streq-false xs ys h e =
    let equal : streq xs ys ≡ true = subst (λ l. streq xs l ≡ true) e (streq_refl xs) in
    true-false (sym equal ∙ h)

pub some_same : {A : Type 0} {a b : A} → some a ≡ some b → a ≡ b
some_same e = cc
