-- ===== src/Classes/Memo.antt =====
-- vm/vm.c: what it is for the counts of symbols that a table of classes keeps to be right.
use mathlib.Core.Path.{subst, ap₂}
use kek_on_rails.Base.{
  ℕ, zero, suc, ◌+◌, ◌%◌, ◌^◌, ◌<◌, ◌≡◌, refl, sym, ap, ◌∙◌, ◌≢◌, ◌⊎◌, inl, inr, Option, none, some,
  List, [], ◌∷◌, arith, ◌==◌, eq→==, Bool-cases, ==→eq, length, get_elem?, set, get_elem?-set_self,
  get_elem?-set_ne,
}
use kek_on_rails.Classes.Names.{true-false, some_same}
use kek_on_rails.Classes.Table.{Class, unset}

-- How many symbols a class has of its own, and its parent.
abbrev pub shape : List Class → ℕ → Option (ℕ × Option ℕ)
shape cs i = elim (get_elem? cs i) [
  | none ↦ none
  | some c ↦ some (length c.syms_instance, c.parent)
]

-- The count with the parents', as an unsigned 32-bit number, for a class with at most `d` classes
-- from itself up to the top one.
pub data Total (S : ℕ → Option (ℕ × Option ℕ)) : ℕ → ℕ → ℕ → Type 0 where
  root : {d i k : ℕ} → S i ≡ some (k, none) → Total S (suc d) i k
  derived :
      {d i k p m : ℕ}
      → S i ≡ some (k, some p)
      → Total S d p m
      → Total S (suc d) i ((k + m) % 2 ^ 32)

root_same : {o : Option (ℕ × Option ℕ)} {k j : ℕ} → o ≡ some (k, none) → o ≡ some (j, none) → k ≡ j
root_same e f = cc

root_derived :
    {o : Option (ℕ × Option ℕ)} {k j p : ℕ} → o ≡ some (k, none) → o ≡ some (j, some p) → ⊥
root_derived e f = cc

derived_same :
    {o : Option (ℕ × Option ℕ)} {k j p q : ℕ}
    → o ≡ some (k, some p)
    → o ≡ some (j, some q)
    → (k ≡ j) × (p ≡ q)
derived_same e f = (cc, cc)

pub Total_unique :
    {S : ℕ → Option (ℕ × Option ℕ)} {d e i n m : ℕ} → Total S d i n → Total S e i m → n ≡ m
Total_unique (root a) (root b) = root_same a b
Total_unique (root a) (derived b t) = absurd (root_derived a b)
Total_unique (derived a t) (root b) = absurd (root_derived b a)
Total_unique {S} {e} (derived {k} a t) (derived {d = d'} {m = m'} b u) =
    let (same, up) = derived_same a b in
    ap₂ (λ x y. (x + y) % 2 ^ 32) same (Total_unique t (subst (λ q. Total S d' q m') (sym up) u))

-- The table has the shape, and every count that is kept is the right one.
pub record Memo (S : ℕ → Option (ℕ × Option ℕ)) (cs : List Class) : Type 0 where
  pub shaped : (i : ℕ) → shape cs i ≡ S i
  pub right :
      (i : ℕ) (c : Class)
      → get_elem? cs i ≡ some c
      → c.total_syms_instance_cnt ≢ unset
      → (d : ℕ) × Total S d i c.total_syms_instance_cnt

shape_in :
    (o : Option Class) (k : ℕ) (p : Option ℕ)
    → elim o as (λ _. Option (ℕ × Option ℕ)) [
      | none ↦ none
      | some c ↦ some (length c.syms_instance, c.parent)
    ]
      ≡ some (k, p)
    → (c : Class) × (o ≡ some c) × (length c.syms_instance ≡ k) × (c.parent ≡ p)
shape_in none k p e = cc
shape_in (some c) k p e = (c, refl, ap (λ s. s.0) (some_same e), ap (λ s. s.1) (some_same e))

pub shape_at :
    (cs : List Class) (i k : ℕ) (p : Option ℕ)
    → shape cs i ≡ some (k, p)
    → (c : Class) × (get_elem? cs i ≡ some c) × (length c.syms_instance ≡ k) × (c.parent ≡ p)
shape_at cs i k p e = shape_in (get_elem? cs i) k p e

pub get_elem?-lt :
    {A : Type 0} (xs : List A) (i : ℕ) (x : A) → get_elem? xs i ≡ some x → i < length xs
get_elem?-lt [] i x e = cc
get_elem?-lt (y ∷ ys) zero x e = omega arith
get_elem?-lt (y ∷ ys) (suc i) x e = omega (arith, get_elem?-lt ys i x e)

shape-some :
    (cs : List Class) (i : ℕ) (c : Class)
    → get_elem? cs i ≡ some c
    → shape cs i ≡ some (length c.syms_instance, c.parent)
shape-some cs i c e =
    ap (λ o. elim o [ none ↦ none | some c ↦ some (length c.syms_instance, c.parent) ]) e

eq_cases : (a b : ℕ) → (a ≡ b) ⊎ (a ≢ b)
eq_cases a b = elim (Bool-cases (a == b)) [
  | inl same ↦ inl (==→eq a b same)
  | inr apart ↦ inr (λ e. true-false (sym (eq→== a b e) ∙ apart))
]

pub Memo-set_total :
    {S : ℕ → Option (ℕ × Option ℕ)} {d n : ℕ} (cs : List Class) (i : ℕ) (c : Class)
    → Memo S cs
    → get_elem? cs i ≡ some c
    → Total S d i n
    → Memo S (set cs i (record c { total_syms_instance_cnt = n }))
Memo-set_total {S} {d} {n} cs i c memo at t =
    let c' : Class = record c { total_syms_instance_cnt = n } in
    let now : get_elem? (set cs i c') i ≡ some c' =
      get_elem?-set_self cs i c' (get_elem?-lt cs i c at) in
    record {
      shaped = λ j. elim (eq_cases i j) [
        | inl same ↦
            subst (λ j. shape (set cs i c') j ≡ S j) same
              (shape-some (set cs i c') i c' now ∙ sym (shape-some cs i c at) ∙ memo.shaped i)
        | inr apart ↦
            ap (λ o. elim o [ none ↦ none | some c ↦ some (length c.syms_instance, c.parent) ])
              (get_elem?-set_ne cs c' apart)
            ∙ memo.shaped j
      ];
      right = λ j e there known. elim (eq_cases i j) [
        | inl same ↦
            let is : c' ≡ e = some_same (sym now ∙ ap (get_elem? (set cs i c')) same ∙ there) in
            (
              d,
              subst (λ k. Total S d k e.total_syms_instance_cnt) same
                  (subst (Total S d i) (ap Class.total_syms_instance_cnt is) t),
            )
        | inr apart ↦ memo.right j e (sym (get_elem?-set_ne cs c' apart) ∙ there) known
      ];
    }
