-- ===== src/Classes/Parents.antt =====
-- vm/vm.c: what vm_init_parent_pointers sets.
use mathlib.Core.Path.{subst}
use kek_on_rails.Base.{
  ℕ, suc, ◌+◌, ◌<◌, ◌≡◌, refl, sym, ◌∙◌, ◌≢◌, inl, inr, Option, none, some, List, [], ◌∷◌, arith,
  Bool-cases, get_elem?, zero, ap, false,
}
use kek_on_rails.Classes.Names.{streq→eq, ok_same, streq-false, some_same}
use kek_on_rails.Classes.Table.{
  Class, streq, find_class_loop, vm_find_class, parent_of, parents_loop, vm_init_parent_pointers,
  linked,
}
use kek_on_rails.Outcome.{>>=-eq-ok, ok}

-- The index of the first class with this name.
pub record IsFirst (name : List ℕ) (cs : List Class) (p : ℕ) : Type 0 where
  pub found : Class
  pub at : get_elem? cs p ≡ some found
  pub named : found.name ≡ name
  pub first : (j : ℕ) (d : Class) → j < p → get_elem? cs j ≡ some d → d.name ≢ name

later :
    (c : Class) (name : List ℕ) (cs : List Class) (k : ℕ)
    → IsFirst name cs k
    → streq c.name name ≡ false
    → (j : ℕ) (d : Class) → j < suc k
    → get_elem? (c ∷ cs) j ≡ some d
    → d.name ≢ name
later c name cs k is other zero d lt e same =
    streq-false c.name name other (ap Class.name (some_same e) ∙ same)
later c name cs k is other (suc j) d lt e same = is.first j d (omega arith) e same

-- The search from `i` on gives an index that counts on from `i`.
find_class_loop-IsFirst :
    (name : List ℕ) (i : ℕ) (cs : List Class) (p : ℕ)
    → find_class_loop name i cs ≡ some p
    → (k : ℕ) × (p ≡ i + k) × IsFirst name cs k
unfolding find_class_loop
find_class_loop-IsFirst name i [] p e = cc
find_class_loop-IsFirst name i (c ∷ cs) p e = elim (Bool-cases (streq c.name name)) [
  | inl here ↦
      let now : find_class_loop name i (c ∷ cs) ≡ some i = rw (find_class_loop, here) refl in
      (
        0,
        some_same (sym e ∙ now) ∙ omega arith,
        record {
          found = c;
          at = refl;
          named = streq→eq c.name name here;
          first = λ j d lt _. absurd (omega arith);
        },
      )
  | inr other ↦
      let skip : find_class_loop name i (c ∷ cs) ≡ find_class_loop name (i + 1) cs =
        rw (find_class_loop, other) refl in
      let (k, at, is) = find_class_loop-IsFirst name (i + 1) cs p (sym skip ∙ e) in
      (
        suc k,
        at ∙ omega arith,
        record {
          found = is.found;
          at = is.at;
          named = is.named;
          first = later c name cs k is other;
        },
      )
]

vm_find_class-IsFirst :
    (cs : List Class) (name : List ℕ) (p : ℕ) → vm_find_class cs name ≡ some p → IsFirst name cs p
unfolding vm_find_class
vm_find_class-IsFirst cs name p e =
    let (k, at, is) = find_class_loop-IsFirst name 0 cs p e in
    subst (IsFirst name cs) (sym (at ∙ omega arith)) is

-- What the parent of a class is to be.
abbrev pub HasParent : List Class → Class → Option ℕ → Type 0
HasParent cs c none = c.parent_name ≡ []
HasParent cs c (some p) = (c.parent_name ≢ []) × IsFirst c.parent_name cs p

abbrev pub AllLinked : List Class → List Class → List Class → Type 0
AllLinked all [] [] = Unit {0}
AllLinked all [] (d ∷ ds) = ⊥
AllLinked all (c ∷ cs) [] = ⊥
AllLinked all (c ∷ cs) (d ∷ ds) =
    (d ≡ record c { parent = d.parent }) × HasParent all c d.parent × AllLinked all cs ds

linked-eq-ok : (x o : Option ℕ) → linked x ≡ ok o → (p : ℕ) × (x ≡ some p) × (o ≡ some p)
linked-eq-ok none o e = cc
linked-eq-ok (some p) o e = (p, refl, cc)

parent_of-HasParent :
    (cs : List Class) (c : Class) (o : Option ℕ) → parent_of cs c ≡ ok o → HasParent cs c o
unfolding parent_of
parent_of-HasParent cs c o e = elim (Bool-cases (streq c.parent_name [])) [
  | inl unnamed ↦
      let root : parent_of cs c ≡ ok none = rw (parent_of, unnamed) refl in
      subst (HasParent cs c) (ok_same (sym root ∙ e)) (streq→eq c.parent_name [] unnamed)
  | inr named ↦
      let step : parent_of cs c ≡ linked (vm_find_class cs c.parent_name) =
        rw (parent_of, named) refl in
      let (p, there, is) = linked-eq-ok (vm_find_class cs c.parent_name) o (sym step ∙ e) in
      subst (HasParent cs c) (sym is)
        (streq-false c.parent_name [] named, vm_find_class-IsFirst cs c.parent_name p there)
]

parents_loop-AllLinked :
    (all cs ds : List Class) → parents_loop all cs ≡ ok ds → AllLinked all cs ds
unfolding parents_loop
parents_loop-AllLinked all [] ds e = subst (AllLinked all []) (ok_same e) tt
parents_loop-AllLinked all (c ∷ cs) ds e =
    let (p, has, next) = >>=-eq-ok (parent_of all c) _ e in
    let (rest, more, last) = >>=-eq-ok (parents_loop all cs) _ next in
    subst (AllLinked all (c ∷ cs)) (ok_same last)
      (refl, parent_of-HasParent all c p has, parents_loop-AllLinked all cs rest more)

-- Where linking the parents does not fail an assertion, every class keeps all but its parent, a
-- class without a parent's name has no parent, and any other has the first class of that name.
pub vm_init_parent_pointers-AllLinked :
    (cs ds : List Class) → vm_init_parent_pointers cs ≡ ok ds → AllLinked cs cs ds
unfolding vm_init_parent_pointers
vm_init_parent_pointers-AllLinked cs ds e = parents_loop-AllLinked cs cs ds e
