-- ===== src/Classes/Search.antt =====
-- vm/vm.c: what the searches by name find.
use kek_on_rails.Base.{
  ℕ, zero, suc, ◌≤◌, ◌≡◌, refl, sym, ap, ◌∙◌, inl, inr, Option, none, some, List, [], ◌∷◌, ◌++◌,
  arith, Option-cases, some-ne-none, length, get_elem?,
}
use kek_on_rails.Classes.Table.{Class, find_in_lineage}
use kek_on_rails.Outcome.{ok}

-- A class and its parents up to the top one.
pub data Lineage (cs : List Class) : ℕ → List Class → Type 0 where
  top : {i : ℕ} {c : Class} → get_elem? cs i ≡ some c → c.parent ≡ none → Lineage cs i (c ∷ [])
  below :
      {i p : ℕ} {c : Class} {l : List Class}
      → get_elem? cs i ≡ some c
      → c.parent ≡ some p
      → Lineage cs p l
      → Lineage cs i (c ∷ l)

-- The first answer in a list of classes.
abbrev pub nearest : {A : Type 0} → (Class → Option A) → List Class → Option A
nearest own [] = none
nearest own (c ∷ cs) = elim (own c) [ none ↦ nearest own cs | some a ↦ some a ]

module _ {A : Type 0} (own : Class → Option A) where
  pub nearest-none :
      (c : Class) (cs : List Class) → own c ≡ none → nearest own (c ∷ cs) ≡ nearest own cs
  nearest-none c cs e = rw (nearest, e) refl

  pub nearest-some :
      (c : Class) (cs : List Class) (a : A) → own c ≡ some a → nearest own (c ∷ cs) ≡ some a
  nearest-some c cs a e = rw (nearest, e) refl

pub find_in_lineage-nearest :
    {A : Type 0} (own : Class → Option A) (fuel : ℕ) {cs : List Class} {i : ℕ} {l : List Class}
    → Lineage cs i l
    → length l ≤ fuel
    → find_in_lineage own fuel cs i ≡ ok (nearest own l)
unfolding find_in_lineage
find_in_lineage-nearest own zero (top e n) h = absurd (omega arith)
find_in_lineage-nearest own zero (below e n l) h = absurd (omega arith)
find_in_lineage-nearest own (suc fuel) {cs} {i} (top {c} e n) h = elim (Option-cases (own c)) [
  | inl nothing ↦
      let found : find_in_lineage own (suc fuel) cs i ≡ ok none =
        rw (find_in_lineage, e, nothing, n) refl in
      found ∙ ap ok (sym (nearest-none own c [] nothing))
  | inr (a, it_is) ↦
      let found : find_in_lineage own (suc fuel) cs i ≡ ok (some a) =
        rw (find_in_lineage, e, it_is) refl in
      found ∙ ap ok (sym (nearest-some own c [] a it_is))
]
find_in_lineage-nearest own (suc fuel) {cs} {i} (below {p} {c} {l} e n line) h =
    elim (Option-cases (own c)) [
      | inl nothing ↦
          let found : find_in_lineage own (suc fuel) cs i ≡ find_in_lineage own fuel cs p =
            rw (find_in_lineage, e, nothing, n) refl in
          found
          ∙ find_in_lineage-nearest own fuel line (omega arith)
          ∙ ap ok (sym (nearest-none own c l nothing))
      | inr (a, it_is) ↦
          let found : find_in_lineage own (suc fuel) cs i ≡ ok (some a) =
            rw (find_in_lineage, e, it_is) refl in
          found ∙ ap ok (sym (nearest-some own c l a it_is))
    ]

abbrev pub NoneOwn : {A : Type 0} → (Class → Option A) → List Class → Type 0
NoneOwn own [] = Unit {0}
NoneOwn own (c ∷ cs) = (own c ≡ none) × NoneOwn own cs

-- The answer is the class's own in the first class of the lineage that has one.
pub record IsNearest {A : Type 0} (own : Class → Option A) (l : List Class) (a : A) : Type 0 where
  pub before : List Class
  pub owner : Class
  pub after : List Class
  pub split : l ≡ before ++ owner ∷ after
  pub skipped : NoneOwn own before
  pub owned : own owner ≡ some a

module _ {A : Type 0} (own : Class → Option A) where
  pub nearest-IsNearest : (l : List Class) (a : A) → nearest own l ≡ some a → IsNearest own l a
  nearest-IsNearest [] a e = cc
  nearest-IsNearest (c ∷ cs) a e = elim (Option-cases (own c)) [
    | inr (b, stands) ↦ record {
      before = [];
      owner = c;
      after = cs;
      split = refl;
      skipped = tt;
      owned = stands ∙ sym (nearest-some own c cs b stands) ∙ e;
    }
    | inl nothing ↦
        let further = nearest-IsNearest cs a (sym (nearest-none own c cs nothing) ∙ e) in
        record {
          before = c ∷ further.before;
          owner = further.owner;
          after = further.after;
          split = ap (λ l. c ∷ l) further.split;
          skipped = (nothing, further.skipped);
          owned = further.owned;
        }
  ]

  pub nearest-NoneOwn : (l : List Class) → nearest own l ≡ none → NoneOwn own l
  nearest-NoneOwn [] e = tt
  nearest-NoneOwn (c ∷ cs) e = elim (Option-cases (own c)) [
    | inr (b, stands) ↦ absurd (some-ne-none (nearest-some own c cs b stands) e)
    | inl nothing ↦ (nothing, nearest-NoneOwn cs (sym (nearest-none own c cs nothing) ∙ e))
  ]

-- What a search by name must give for a class with this lineage: nothing where no class of it has
-- an answer of its own, else that of the nearest one.
abbrev pub IsAnswer : {A : Type 0} → (Class → Option A) → List Class → Option A → Type 0
IsAnswer own l none = NoneOwn own l
IsAnswer own l (some a) = IsNearest own l a

pub IsAnswer-nearest :
    {A : Type 0} (own : Class → Option A) (l : List Class) (o : Option A)
    → nearest own l ≡ o
    → IsAnswer own l o
IsAnswer-nearest own l none e = nearest-NoneOwn own l e
IsAnswer-nearest own l (some a) e = nearest-IsNearest own l a e
