-- ===== src/Cheney/Unseen.antt =====
-- vm/memory.c: a program cannot see that a collection has moved the objects.
use mathlib.Core.Path.{subst, ap₂}
use kek_on_rails.Base.{
  ℕ, zero, suc, ◌≡◌, refl, sym, ap, ◌⊎◌, true, Option, none, some, List, ◌∷◌, ◌∙◌, inl, inr, [],
}
use kek_on_rails.Cheney.Collection.{RootsFollow, IsCollected, nothing_moved}
use kek_on_rails.Cheney.Copying.{
  Follows, FollowAll, IsScanned, Pending, same_null, same_imm, same_chr, same_dptr, same_const,
  same_class, new_place, none_follow, one_follows, scanned_int, scanned_str, scanned_symbol,
  scanned_file, scanned_term, scanned_empty, scanned_arr, scanned_objs, scanned_expt, scanned_udo,
  IsMoved, IsRepointed, Follows-mono, unchanged, gone, repointed,
}
use kek_on_rails.Cheney.Observe.{
  hide, hide_all, hide_elems, hide_body, elems_ref, slot_below, udo_slot, ref_at, object_of,
  seen_obj, next_ref, observe,
}
use kek_on_rails.Cheney.Roots.{RootVars}
use kek_on_rails.Cheney.Whole.{Outside, outside_generations-IsSound, IsObject}
use kek_on_rails.Classes.Names.{true-false, some_same}
use kek_on_rails.Objects.{
  copied, Value, Body, Obj, ptr, arr, arr_objs, expt, udo, nil, int, str, symbol, exinfo, file,
  term, cls, stack, copied,
}
use kek_on_rails.OldSpace.{outside_generations, to_elems}
use kek_on_rails.Space.{Space, is_const}

-- Two slots that may be missing.
pub data FollowOption (s0 t : Space) : Option Value → Option Value → Type 0 where
  both_missing : FollowOption s0 t none none
  both_there : {v w : Value} → Follows s0 t v w → FollowOption s0 t (some v) (some w)

hide-Follows : {s0 t : Space} {v w : Value} → Follows s0 t v w → hide v ≡ hide w
hide-Follows same_null = refl
hide-Follows (same_imm n) = refl
hide-Follows (same_chr n) = refl
hide-Follows (same_dptr n) = refl
hide-Follows (same_const c object) = refl
hide-Follows (same_class e out o) = refl
hide-Follows (new_place m) = refl

hide_all-FollowAll :
    {s0 t : Space} {n : ℕ} {vs ws : List Value} → FollowAll s0 t n vs ws → hide_all vs ≡ hide_all ws
hide_all-FollowAll none_follow = refl
hide_all-FollowAll (one_follows f fs) =
    ap₂ (λ v vs. v ∷ vs) (hide-Follows f) (hide_all-FollowAll fs)

hide_body-IsScanned :
    {s0 t : Space} {c : Option ℕ} {b b' : Body} → IsScanned s0 t c b b' → hide_body b ≡ hide_body b'
hide_body-IsScanned (scanned_int n) = refl
hide_body-IsScanned (scanned_str n bytes) = refl
hide_body-IsScanned (scanned_symbol n bytes) = refl
hide_body-IsScanned scanned_file = refl
hide_body-IsScanned scanned_term = refl
hide_body-IsScanned (scanned_empty a e) = refl
hide_body-IsScanned (scanned_arr a e f) = ap (λ x. arr (record a { elems = hide_elems x })) e
hide_body-IsScanned (scanned_objs a fs) =
    ap (λ l. arr_objs (record a { elems = l })) (hide_all-FollowAll fs)
hide_body-IsScanned (scanned_expt f) = ap expt (hide-Follows f)
hide_body-IsScanned (scanned_udo offset e fs) = ap (udo offset) (hide_all-FollowAll fs)

slot_below-FollowAll :
    {s0 t : Space} {n : ℕ} {vs ws : List Value}
    → FollowAll s0 t n vs ws
    → (i : ℕ) → FollowOption s0 t (slot_below n vs i) (slot_below n ws i)
slot_below-FollowAll none_follow i = both_missing
slot_below-FollowAll (one_follows f fs) zero = both_there f
slot_below-FollowAll (one_follows f fs) (suc i) = slot_below-FollowAll fs i

ref_at-IsScanned :
    {s0 t : Space} {c : Option ℕ} {b b' : Body}
    → IsScanned s0 t c b b'
    → (i : ℕ) → FollowOption s0 t (ref_at s0.var_count c b i) (ref_at s0.var_count c b' i)
ref_at-IsScanned (scanned_int n) i = both_missing
ref_at-IsScanned (scanned_str n bytes) i = both_missing
ref_at-IsScanned (scanned_symbol n bytes) i = both_missing
ref_at-IsScanned scanned_file i = both_missing
ref_at-IsScanned scanned_term i = both_missing
ref_at-IsScanned (scanned_empty a e) i = rw e both_missing
ref_at-IsScanned {s0} {t} (scanned_arr a {q} e f) i =
    subst (λ x. FollowOption s0 t (elems_ref x) (some (ptr q))) (sym e) (both_there f)
ref_at-IsScanned (scanned_objs a fs) i = slot_below-FollowAll fs i
ref_at-IsScanned (scanned_expt f) i = both_there f
ref_at-IsScanned {s0} {t} (scanned_udo offset {vs} {ws} e fs) i =
    subst (λ x. FollowOption s0 t (udo_slot s0.var_count x vs i) (udo_slot s0.var_count x ws i))
      (sym e) (slot_below-FollowAll fs i)

-- The constants refer to what does not move, but for the arrays that the collector knows.
pub record AreConstsFixed (s0 : Space) (arrays : List ℕ) : Type 0 where
  pub fixed :
      (p : ℕ) (o : Obj)
      → is_const s0 p ≡ true
      → s0.cell p ≡ some o
      → Pending p arrays
        ⊎ ((i : ℕ)
            → FollowOption s0 s0
                (ref_at s0.var_count o.cls o.body i)
                (ref_at s0.var_count o.cls o.body i))

no_refs :
    (count : ℕ → ℕ) (c : Option ℕ) (b : Body) (i : ℕ)
    → outside_generations b ≡ true
    → ref_at count c b i ≡ none
no_refs count c nil i e = cc
no_refs count c (int n) i e = cc
no_refs count c (str n bytes) i e = cc
no_refs count c (symbol n bytes) i e = cc
no_refs count c (arr a) i e = cc
no_refs count c (arr_objs a) i e = cc
no_refs count c (exinfo v blocks) i e = cc
no_refs count c (expt v) i e = cc
no_refs count c file i e = cc
no_refs count c term i e = cc
no_refs count c (udo offset vs) i e = cc
no_refs count c (cls k) i e = refl
no_refs count c stack i e = refl
no_refs count c (copied to) i e = cc

-- Two objects that look the same, and whose references follow.
LooksSame : Space → Space → Option Obj → Option Obj → Type 0
LooksSame s0 t x y =
    (seen_obj x ≡ seen_obj y) × ((i : ℕ) → FollowOption s0 t (next_ref s0 x i) (next_ref t y i))

FollowOption-mono :
    {s0 s t : Space} {v w : Option Value}
    → ((p q : ℕ) → IsMoved s0 s p q → IsMoved s0 t p q)
    → FollowOption s0 s v w
    → FollowOption s0 t v w
FollowOption-mono on both_missing = both_missing
FollowOption-mono on (both_there f) = both_there (Follows-mono on f)

module _ {s0 t : Space} {r r' : RootVars} (collected : IsCollected s0 t)
    (follow : RootsFollow s0 t r r') (consts : AreConstsFixed s0 r.carrlist) where
  with_counts :
      {v : Option Value} (c : Option ℕ) (b : Body) (i : ℕ)
      → FollowOption s0 t v (ref_at s0.var_count c b i)
      → FollowOption s0 t v (ref_at t.var_count c b i)
  with_counts {v} c b i f =
      subst (λ x. FollowOption s0 t v (ref_at x c b i)) (sym collected.spaces.count_same) f

  object-LooksSame :
      {p q : ℕ} {o o' : Obj}
      → s0.cell p ≡ some o
      → t.cell q ≡ some o'
      → LooksSame s0 t (some o) (some o')
      → LooksSame s0 t (s0.cell p) (t.cell q)
  unfolding LooksSame
  object-LooksSame {p} {q} {o} {o'} e e' same =
      subst (λ x. LooksSame s0 t x (t.cell q)) (sym e)
        (subst (λ y. LooksSame s0 t (some o) y) (sym e') same)

  copy-LooksSame :
      (o : Obj) {b : Body}
      → IsScanned s0 t o.cls o.body b
      → LooksSame s0 t (some o) (some (record o { body = b }))
  unfolding LooksSame
  copy-LooksSame o {b} scanned = (
    ap (λ x. some (o.cls, x)) (hide_body-IsScanned scanned),
    λ i. with_counts o.cls b i (ref_at-IsScanned scanned i),
  )

  array-LooksSame : {p : ℕ} → IsRepointed s0 t p → LooksSame s0 t (s0.cell p) (t.cell p)
  array-LooksSame r = object-LooksSame r.was r.now (
      copy-LooksSame r.old (
        subst (λ b. IsScanned s0 t r.old.cls b (to_elems r.head r.to_place)) (sym r.array)
          (scanned_arr r.head r.elements r.follows)))

  unchanged-LooksSame :
      (o : Obj)
      → ((i : ℕ)
          → FollowOption s0 s0
              (ref_at s0.var_count o.cls o.body i)
              (ref_at s0.var_count o.cls o.body i))
      → LooksSame s0 t (some o) (some o)
  unfolding LooksSame
  unchanged-LooksSame o fixed = (
    refl,
    λ i. with_counts o.cls o.body i (FollowOption-mono (λ p q m. nothing_moved m) (fixed i)),
  )

  constant-LooksSame :
      (p : ℕ) → is_const s0 p ≡ true → IsObject s0 p → LooksSame s0 t (s0.cell p) (t.cell p)
  constant-LooksSame p c object = elim (consts.fixed p object.held c object.found) [
    | inl listed ↦ array-LooksSame (follow.arrays_follow p listed)
    | inr fixed ↦ elim (collected.kept p object.held object.place object.found) [
      | unchanged now ↦ object-LooksSame object.found now (unchanged-LooksSame object.held fixed)
      | gone m ↦ absurd (true-false (sym c ∙ m.variable))
      | repointed a ↦ array-LooksSame a
    ]
  ]

  class-LooksSame :
      {p : ℕ} {o : Obj}
      → s0.cell p ≡ some o
      → Outside s0 p
      → outside_generations o.body ≡ true
      → LooksSame s0 t (s0.cell p) (t.cell p)
  class-LooksSame {p} {o} e out class = elim (collected.kept p o out e) [
    | unchanged now ↦ object-LooksSame e now (
        unchanged-LooksSame o (λ i.
          subst (λ x. FollowOption s0 s0 x x) (sym (no_refs s0.var_count o.cls o.body i class))
            both_missing))
    | gone m ↦ absurd (
        true-false (
          sym class
          ∙ ap (λ x. outside_generations x.body) (some_same (sym e ∙ m.was))
          ∙ outside_generations-IsSound s0 m.sound))
    | repointed a ↦ array-LooksSame a
  ]

  no_object : LooksSame s0 t none none
  unfolding LooksSame
  no_object = (refl, λ i. both_missing)

  ref-LooksSame : {v w : Value} → Follows s0 t v w → LooksSame s0 t (object_of s0 v) (object_of t w)
  ref-LooksSame same_null = no_object
  ref-LooksSame (same_imm n) = no_object
  ref-LooksSame (same_chr n) = no_object
  ref-LooksSame (same_dptr n) = no_object
  ref-LooksSame (same_const {p} c object) = constant-LooksSame p c object
  ref-LooksSame (same_class e out class) = class-LooksSame e out class
  ref-LooksSame (new_place {p} {q} m) =
      let copy = collected.scanned p q m in
      object-LooksSame m.was copy.copy (copy-LooksSame m.old copy.scanned)

  pub observe-FollowOption :
      (path : List ℕ) {v w : Option Value}
      → FollowOption s0 t v w
      → observe s0 v path ≡ observe t w path
  unfolding observe LooksSame
  observe-FollowOption path both_missing = refl
  observe-FollowOption [] (both_there f) =
      ap₂ (λ x y. some (x, y)) (hide-Follows f) (ref-LooksSame f).0
  observe-FollowOption (i ∷ path) (both_there f) = observe-FollowOption path ((ref-LooksSame f).1 i)
