-- ===== src/Cheney/Sample.antt =====
-- vm/memory.c: a small heap for the tests of a collection: an object that refers to itself, to a text
-- that two variables share and to nil, and an array of the table of constants.
use mathlib.Core.Path.{subst, ap₂}
use kek_on_rails.Base.{
  ℕ, ◌+◌, ◌*◌, ◌≡◌, refl, sym, ap, ◌∙◌, ◌⊎◌, inl, inr, true, false, Option, none, some, List, [],
  ◌∷◌, arith, ◌==◌, if◌then◌else◌, Bool-cases, ==→eq, ◌<◌,
}
use kek_on_rails.Cheney.Collection.{AreRoots}
use kek_on_rails.Cheney.Copying.{Pending, Fits, first, later, weight}
use kek_on_rails.Cheney.Observe.{ref_at}
use kek_on_rails.Cheney.Repoint.{no_arrays, one_array}
use kek_on_rails.Cheney.Rooted.{All, all_nil, all_cons, variable_ptr, slot_good}
use kek_on_rails.Cheney.Roots.{RootVars, swap_spaces}
use kek_on_rails.Cheney.Unseen.{FollowOption, AreConstsFixed, both_missing}
use kek_on_rails.Cheney.Whole.{
  IsObject, IsSound, IsMortal, IsWhole, good_null, good_imm, good_ptr, no_slots, one_slot,
  sound_str, sound_objs, sound_udo,
}
use kek_on_rails.Classes.Names.{true-false, some_same}
use kek_on_rails.Heap.{aligned}
use kek_on_rails.Objects.{
  Body, Obj, null, imm, ptr, nil, str, arr, arr_objs, udo, unknown_state, first_gen_young,
}
use kek_on_rails.Space.{Space, is_const, new_segment_size}

abbrev Cells : Type 0
Cells = List (ℕ × Obj)

abbrev find : Cells → ℕ → Option Obj
find [] p = none
find ((q, o) ∷ cells) p = if q == p then some o else find cells p

abbrev pub young_obj : Option ℕ → Body → Obj
young_obj c b = record { cls = c; state = first_gen_young; body = b }

abbrev nil_obj : Obj
nil_obj = record { cls = none; state = unknown_state; body = nil }

abbrev const_array : Obj
const_array = record {
  cls = none;
  state = unknown_state;
  body = arr (record { length = 1; alloc_size = 1; elems = some 1000100 });
}

abbrev user_obj : Obj
user_obj = young_obj (some 0) (udo 0 (ptr 1000000 ∷ ptr 1000056 ∷ ptr 8 ∷ []))

abbrev pub text_obj : Obj
text_obj = young_obj none (str 2 (104 ∷ 105 ∷ []))

abbrev elems_obj : Obj
elems_obj =
    young_obj none (arr_objs (record { length = 1; alloc_size = 1; elems = ptr 1000056 ∷ [] }))

abbrev sample_cells : Cells
sample_cells =
    (8, nil_obj)
    ∷ (56, const_array)
    ∷ (1000000, user_obj)
    ∷ (1000056, text_obj)
    ∷ (1000100, elems_obj)
    ∷ []

abbrev pub sample : Space
sample = record {
  cell = find sample_cells;
  from_space = 2000000;
  to_space = 1000000;
  to_space_free = 1000200;
  to_space_size = 140;
  scan_ptr = 0;
  cheney_iteration = 0;
  const_from = 8;
  const_to = 104;
  var_count = λ c. 3;
  generational = false;
  malloc = λ n. 3000000 + n * 100;
  os_items = [];
}

abbrev pub sample_roots : RootVars
sample_roots = record {
  statics = ptr 1000056 ∷ null ∷ [];
  variables = ptr 1000000 ∷ [];
  carrlist = 56 ∷ [];
  stack_vars = imm 7 ∷ ptr 8 ∷ ptr 1000000 ∷ [];
  remembered = [];
}

find-All :
    {Q : ℕ × Obj → Type 0} {p : ℕ} {o : Obj} (cells : Cells)
    → All Q cells
    → find cells p ≡ some o
    → Q (p, o)
find-All [] all_nil e = cc
find-All {Q} {p} {o} ((q, x) ∷ cells) (all_cons h hs) e = elim (Bool-cases (q == p)) [
  | inl same ↦
      subst Q
        (ap₂ (λ a b. (a, b)) (==→eq q p same)
          (some_same (sym (ap (λ b. if b then some x else find cells p) same) ∙ e)))
        h
  | inr other ↦ find-All cells hs (sym (ap (λ b. if b then some x else find cells p) other) ∙ e)
]

user-IsObject : IsObject (swap_spaces sample) 1000000
unfolding swap_spaces
user-IsObject = record {
  held = user_obj;
  found = refl;
  place = inl (omega arith);
  mortal = λ c. refl;
}

text-IsObject : IsObject (swap_spaces sample) 1000056
unfolding swap_spaces
text-IsObject = record {
  held = text_obj;
  found = refl;
  place = inl (omega arith);
  mortal = λ c. refl;
}

elems-IsObject : IsObject (swap_spaces sample) 1000100
unfolding swap_spaces
elems-IsObject = record {
  held = elems_obj;
  found = refl;
  place = inl (omega arith);
  mortal = λ c. refl;
}

nil-IsObject : IsObject (swap_spaces sample) 8
unfolding swap_spaces
nil-IsObject = record {
  held = nil_obj;
  found = refl;
  place = inl (omega arith);
  mortal = λ c. refl;
}

EntryOk : ℕ × Obj → Type 0
EntryOk (p, o) =
    IsMortal (swap_spaces sample) p o
    → (o.state ≡ first_gen_young)
      × IsSound (swap_spaces sample) o.cls o.body
      × Pending p (1000000 ∷ 1000056 ∷ 1000100 ∷ [])

entries_ok : All EntryOk sample_cells
unfolding EntryOk swap_spaces
entries_ok =
    all_cons (λ m. absurd (true-false m.variable))
      (all_cons (λ m. absurd (true-false m.variable))
        (all_cons
          (λ m. (
            refl,
            sound_udo 0 refl (
                one_slot (good_ptr user-IsObject) (λ e. cc)
                  (one_slot (good_ptr text-IsObject) (λ e. cc)
                    (one_slot (good_ptr nil-IsObject) (λ e. cc) no_slots))),
            first,
          ))
          (all_cons (λ m. (refl, sound_str 2 (104 ∷ 105 ∷ []), later first))
            (all_cons
              (λ m. (
                refl,
                sound_objs _ (one_slot (good_ptr text-IsObject) (λ e n. cc) no_slots),
                later (later first),
              ))
              all_nil))))

entry_ok : (p : ℕ) (o : Obj) → (swap_spaces sample).cell p ≡ some o → EntryOk (p, o)
unfolding swap_spaces
entry_ok p o e = find-All sample_cells entries_ok e

pub sample-IsWhole : IsWhole (swap_spaces sample)
unfolding EntryOk swap_spaces
sample-IsWhole = record {
  one_generation = refl;
  young = λ p o m. (entry_ok p o m.found m).0;
  sound = λ p o m. (entry_ok p o m.found m).1;
}

pub sample-Fits : Fits (swap_spaces sample) (swap_spaces sample)
unfolding EntryOk swap_spaces
sample-Fits = record {
  left = 1000000 ∷ 1000056 ∷ 1000100 ∷ [];
  room = omega arith;
  covers = λ p o m e. (entry_ok p o m.found m).2;
}

pub sample-AreRoots : AreRoots (swap_spaces sample) sample_roots
unfolding swap_spaces
sample-AreRoots = record {
  statics_good = all_cons (good_ptr text-IsObject) (all_cons good_null all_nil);
  variables_good = all_cons (variable_ptr user-IsObject) all_nil;
  arrays_good =
      one_array
        (record {
          old = const_array;
          head = record { length = 1; alloc_size = 1; elems = some 1000100 };
          from_elems = 1000100;
          constant = refl;
          place = inl (omega arith);
          was = refl;
          array = refl;
          elements = refl;
          object = elems-IsObject;
        })
        (λ w. elim w [ ]) no_arrays;
  slots_good = all_cons (slot_good (good_imm 7)) (
      all_cons (slot_good (good_ptr nil-IsObject))
        (all_cons (slot_good (good_ptr user-IsObject)) all_nil));
}

ConstOk : ℕ × Obj → Type 0
ConstOk (p, o) =
    is_const (swap_spaces sample) p ≡ true
    → Pending p (56 ∷ [])
      ⊎ ((i : ℕ)
          → FollowOption (swap_spaces sample) (swap_spaces sample) (ref_at (λ c. 3) o.cls o.body i)
              (ref_at (λ c. 3) o.cls o.body i))

consts_ok : All ConstOk sample_cells
unfolding ConstOk swap_spaces
consts_ok =
    all_cons (λ c. inr (λ i. both_missing))
      (all_cons (λ c. inl first)
        (all_cons (λ c. absurd (true-false (sym c)))
          (all_cons (λ c. absurd (true-false (sym c)))
            (all_cons (λ c. absurd (true-false (sym c))) all_nil))))

pub sample-AreConstsFixed : AreConstsFixed (swap_spaces sample) sample_roots.carrlist
unfolding ConstOk swap_spaces
sample-AreConstsFixed = record {
  fixed = λ p o c e. find-All {Q = ConstOk} sample_cells consts_ok e c;
}

pub text_fits_too : weight (swap_spaces sample) sample-Fits.left + aligned 524100 < new_segment_size
unfolding sample-Fits swap_spaces
text_fits_too = omega arith
