-- ===== src/Classes/Sizes.antt =====
-- vm/vm.c: calc_total_syms_cnt on tables of classes that keep some counts already.
use mathlib.Core.Path.{subst, ap₂}
use kek_on_rails.Base.{
  ℕ, zero, suc, ◌+◌, ◌%◌, ◌^◌, ◌≤◌, ◌≡◌, refl, sym, ap, ◌∙◌, ◌≢◌, inl, inr, true, false, Option,
  none, some, List, arith, ◌==◌, eq→==, Bool-cases, length, get_elem?, get_elem?-set_self,
}
use kek_on_rails.Classes.Layout.{class_at, set_total, calc_total_syms_cnt}
use kek_on_rails.Classes.Memo.{
  Total, Total_unique, Memo, shape_at, get_elem?-lt, Memo-set_total, root, derived,
}
use kek_on_rails.Classes.Names.{true-false}
use kek_on_rails.Classes.Table.{Class, unset}
use kek_on_rails.Outcome.{out_of_fuel, ok, stop}
use kek_on_rails.State.{State, and_then, ◌>>=◌, Returns, Returns-bind, returns}

class_at_lem :
    (cs : List Class) (i : ℕ) (c : Class) → get_elem? cs i ≡ some c → class_at i cs ≡ ok (c, cs)
unfolding class_at
class_at_lem cs i c e = rw (class_at, e)

-- What a run of the function must end with: the count, kept at the class, and a table that is
-- still right.
abbrev pub Counted : (ℕ → Option (ℕ × Option ℕ)) → ℕ → ℕ → ℕ → List Class → Type 0
Counted S i n m cs =
    (m ≡ n)
    × Memo S cs
    × ((c : Class) × (get_elem? cs i ≡ some c) × (c.total_syms_instance_cnt ≡ n))

set_total-Counted :
    {S : ℕ → Option (ℕ × Option ℕ)} {d n : ℕ} (cs : List Class) (i : ℕ) (c : Class)
    → Memo S cs
    → get_elem? cs i ≡ some c
    → Total S d i n
    → Returns (Counted S i n) (set_total i c n cs)
unfolding set_total
set_total-Counted cs i c memo at t = returns (
  refl,
  Memo-set_total cs i c memo at t,
  (_, get_elem?-set_self cs i _ (get_elem?-lt cs i c at), refl),
)

unset_ne : (n : ℕ) → (n == unset) ≡ false → n ≢ unset
unset_ne n h e = true-false (sym (eq→== n unset e) ∙ h)

kept-Counted :
    {S : ℕ → Option (ℕ × Option ℕ)} {d n : ℕ} (cs : List Class) (i : ℕ) (c : Class)
    → Total S d i n
    → Memo S cs
    → get_elem? cs i ≡ some c
    → (c.total_syms_instance_cnt == unset) ≡ false
    → Returns (Counted S i n) (ok (c.total_syms_instance_cnt, cs))
kept-Counted cs i c t memo at kept =
    let (_, is) = memo.right i c at (unset_ne c.total_syms_instance_cnt kept) in
    let same = Total_unique is t in returns (same, memo, (c, at, same))

module _ (fuel : ℕ) (cs : List Class) (i : ℕ) (c : Class) (at : get_elem? cs i ≡ some c) where
  step_kept :
      (c.total_syms_instance_cnt == unset) ≡ false
      → calc_total_syms_cnt (suc fuel) i cs ≡ ok (c.total_syms_instance_cnt, cs)
  unfolding calc_total_syms_cnt
  step_kept kept = rw (calc_total_syms_cnt, class_at_lem cs i c at, kept) refl

  step_root :
      (c.total_syms_instance_cnt == unset) ≡ true
      → c.parent ≡ none
      → calc_total_syms_cnt (suc fuel) i cs ≡ set_total i c (length c.syms_instance) cs
  unfolding calc_total_syms_cnt
  step_root missing par =
      rw (calc_total_syms_cnt, class_at_lem cs i c at, missing)
        (ap
          (λ o.
            elim o as (λ _. State (List Class) ℕ) [
              | none ↦ set_total i c (length c.syms_instance)
              | some p ↦
                  (calc_total_syms_cnt fuel p >>= λ n.
                  class_at i >>= λ d. set_total i d ((length c.syms_instance + n) % 2 ^ 32))
            ]
              cs)
          par)

  step_derived :
      (p : ℕ)
      → (c.total_syms_instance_cnt == unset) ≡ true
      → c.parent ≡ some p
      → calc_total_syms_cnt (suc fuel) i cs
        ≡ and_then
            (calc_total_syms_cnt fuel p cs)
            (λ n. class_at i >>= λ d. set_total i d ((length c.syms_instance + n) % 2 ^ 32))
  unfolding calc_total_syms_cnt
  step_derived p missing par = rw (calc_total_syms_cnt, class_at_lem cs i c at, missing, par) refl

-- Computing the count of a class gives the number of its symbols and those of all its parents,
-- whatever counts the table already keeps, provided those are right; the count is then kept at the
-- class, and every count in the table is right. The fuel covers the parents.
pub calc_total_syms_cnt-Counted :
    {S : ℕ → Option (ℕ × Option ℕ)} (fuel : ℕ) (cs : List Class) {d i n : ℕ}
    → Total S d i n
    → d ≤ fuel
    → Memo S cs
    → Returns (Counted S i n) (calc_total_syms_cnt fuel i cs)
unfolding calc_total_syms_cnt
calc_total_syms_cnt-Counted zero cs (root s) le memo = absurd (omega arith)
calc_total_syms_cnt-Counted zero cs (derived s t) le memo = absurd (omega arith)
calc_total_syms_cnt-Counted {S} (suc fuel) cs {i} (root {k} s) le memo =
    let (c, at, cnt, par) = shape_at cs i k none (memo.shaped i ∙ s) in
    elim (Bool-cases (c.total_syms_instance_cnt == unset)) [
      | inl missing ↦ subst (Returns (Counted S i k)) (sym (step_root fuel cs i c at missing par)) (
          subst (λ j. Returns (Counted S i k) (set_total i c j cs)) (sym cnt)
            (set_total-Counted cs i c memo at (root {d = 0} s)))
      | inr kept ↦
          subst (Returns (Counted S i k)) (sym (step_kept fuel cs i c at kept))
            (kept-Counted cs i c (root {d = 0} s) memo at kept)
    ]
calc_total_syms_cnt-Counted {S} (suc fuel) cs {i} (derived {d} {k} {p} {m} s t) le memo =
    let (c, at, cnt, par) = shape_at cs i k (some p) (memo.shaped i ∙ s) in
    elim (Bool-cases (c.total_syms_instance_cnt == unset)) [
      | inl missing ↦
          subst (Returns (Counted S i ((k + m) % 2 ^ 32)))
            (sym (step_derived fuel cs i c at p missing par))
            (Returns-bind (calc_total_syms_cnt-Counted fuel cs t (omega arith) memo)
              λ n ds (same, right, _).
                let (e, there, _, _) = shape_at ds i k (some p) (right.shaped i ∙ s) in
                rw (class_at_lem ds i e there) (
                  subst (λ j. Returns (Counted S i ((k + m) % 2 ^ 32)) (set_total i e j ds))
                    (sym (ap₂ (λ x y. (x + y) % 2 ^ 32) cnt same))
                    (set_total-Counted ds i e right there (derived s t))))
      | inr kept ↦
          subst (Returns (Counted S i ((k + m) % 2 ^ 32))) (sym (step_kept fuel cs i c at kept))
            (kept-Counted cs i c (derived s t) memo at kept)
    ]

-- A class that is its own parent, as a file may name it, is never counted: the recursion does not
-- end, whatever fuel it has.
pub calc_total_syms_cnt-self_parent :
    (fuel : ℕ) (cs : List Class) (i : ℕ) (c : Class)
    → get_elem? cs i ≡ some c
    → c.parent ≡ some i
    → c.total_syms_instance_cnt ≡ unset
    → calc_total_syms_cnt fuel i cs ≡ stop out_of_fuel
unfolding calc_total_syms_cnt
calc_total_syms_cnt-self_parent zero cs i c at self missing = refl
calc_total_syms_cnt-self_parent (suc fuel) cs i c at self missing =
    step_derived fuel cs i c at i (eq→== c.total_syms_instance_cnt unset missing) self
    ∙ rw (calc_total_syms_cnt-self_parent fuel cs i c at self missing) refl
