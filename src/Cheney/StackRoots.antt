-- ===== src/Cheney/StackRoots.antt =====
-- vm/memory.c: the part of `gc_rootset` for the slots of the stack.
use kek_on_rails.Base.{
  ℕ, ◌≡◌, refl, sym, ap, ◌∙◌, inl, inr, Bool, true, false, Option, some, Bool-cases,
}
use kek_on_rails.Cheney.Copying.{
  Follows, IsCopying, GoesOn, GoesOn-refl, same_null, same_imm, same_chr, same_dptr, same_const,
  same_class, unchanged, gone, repointed, Fits,
}
use kek_on_rails.Cheney.Fields.{MovesObjects}
use kek_on_rails.Cheney.Inner.{is_const-same}
use kek_on_rails.Cheney.Moves.{load_lem}
use kek_on_rails.Cheney.Rooted.{MovesRoot, IsSlot, slot_good, slot_class}
use kek_on_rails.Cheney.Roots.{is_nil, stack_place, stack_root}
use kek_on_rails.Cheney.Whole.{
  Outside, IsObject, IsGood, IsSound, IsWhole, outside_generations-IsSound, good_null, good_imm,
  good_chr, good_dptr, good_ptr, sound_int, sound_str, sound_symbol, sound_file, sound_term,
  sound_empty, sound_arr, sound_objs, sound_expt, sound_udo,
}
use kek_on_rails.Classes.Names.{true-false, some_same}
use kek_on_rails.Objects.{Value, Body, Obj, ptr}
use kek_on_rails.OldSpace.{outside_generations}
use kek_on_rails.Space.{Space, is_const}
use kek_on_rails.State.{State, pure, Ends, Ends-bind, ends}

is_nil-IsSound : (s : Space) {c : Option ℕ} {b : Body} → IsSound s c b → is_nil b ≡ false
is_nil-IsSound s (sound_int n) = refl
is_nil-IsSound s (sound_str n bytes) = refl
is_nil-IsSound s (sound_symbol n bytes) = refl
is_nil-IsSound s sound_file = refl
is_nil-IsSound s sound_term = refl
is_nil-IsSound s (sound_empty a e) = refl
is_nil-IsSound s (sound_arr a e h) = refl
is_nil-IsSound s (sound_objs a h) = refl
is_nil-IsSound s (sound_expt h) = refl
is_nil-IsSound s (sound_udo offset e h) = refl

module _ {s0 s : Space} {d : ℕ} {move : ℕ → State Space ℕ} (moves : MovesObjects s0 move)
    (whole : IsWhole s0) (h : IsCopying s0 d s) where
  abbrev Gives : Value → Value → Space → Type 0
  Gives v w t = IsCopying s0 d t × GoesOn s0 s t × Follows s0 t v w

  left_alone : {v : Value} → Follows s0 s v v → Ends (Fits s0 s0) (Gives v) (pure v s)
  left_alone f = ends (h, GoesOn-refl s0 s, f)

  module _ {p : ℕ} where
    moved_on :
        IsObject s0 p → Ends (Fits s0 s0) (Gives (ptr p)) (stack_place move p false false false s)
    moved_on object = Ends-bind (moves s d p h object) λ q t m. ends (m.0, m.1, m.2)

    constant_place :
        (class isnil : Bool)
        → is_const s0 p ≡ true
        → IsObject s0 p
        → Ends (Fits s0 s0) (Gives (ptr p)) (stack_place move p class isnil true s)
    constant_place true isnil c object = left_alone (same_const c object)
    constant_place false true c object = left_alone (same_const c object)
    constant_place false false c object = left_alone (same_const c object)

    held_place :
        (object : IsObject s0 p) (o : Obj)
        → s.cell p ≡ some o
        → (is_const s0 p ≡ false → (outside_generations o.body ≡ false) × (is_nil o.body ≡ false))
        → Ends (Fits s0 s0) (Gives (ptr p)) (stack_root move (ptr p) s)
    held_place object o now plain = elim (Bool-cases (is_const s0 p)) [
      | inl c ↦ rw (load_lem s now, is_const-same h p ∙ c) (constant_place _ _ c object)
      | inr c ↦
          let (a, b) = plain c in rw (load_lem s now, is_const-same h p ∙ c, a, b) (moved_on object)
    ]

    object_place : IsObject s0 p → Ends (Fits s0 s0) (Gives (ptr p)) (stack_root move (ptr p) s)
    object_place object = elim (h.kept p object.held object.place object.found) [
      | unchanged now ↦ held_place object object.held now (λ c. (
        object.mortal c,
        is_nil-IsSound s0 (
            whole.sound p object.held (record {
              found = object.found;
              place = object.place;
              variable = c;
              mortal = object.mortal c;
            })),
      ))
      | gone m ↦ held_place object _ m.now (λ c. (refl, refl))
      | repointed r ↦ held_place object _ r.now (λ c. (refl, refl))
    ]

    class_place :
        {o : Obj}
        → s0.cell p ≡ some o
        → Outside s0 p
        → is_const s0 p ≡ false
        → outside_generations o.body ≡ true
        → Ends (Fits s0 s0) (Gives (ptr p)) (stack_root move (ptr p) s)
    class_place {o} e out variable class = elim (h.kept p o out e) [
      | unchanged now ↦ rw (load_lem s now, class) (left_alone (same_class e out class))
      | gone m ↦ absurd (
          true-false (
            sym class
            ∙ ap (λ x. outside_generations x.body) (some_same (sym e ∙ m.was))
            ∙ outside_generations-IsSound s0 m.sound))
      | repointed r ↦ absurd (true-false (sym r.constant ∙ variable))
    ]

  good_place : {v : Value} → IsGood s0 v → Ends (Fits s0 s0) (Gives v) (stack_root move v s)
  good_place good_null = left_alone same_null
  good_place (good_imm n) = left_alone (same_imm n)
  good_place (good_chr n) = left_alone (same_chr n)
  good_place (good_dptr n) = left_alone (same_dptr n)
  good_place (good_ptr object) = object_place object

  slot_place : {v : Value} → IsSlot s0 v → Ends (Fits s0 s0) (Gives v) (stack_root move v s)
  slot_place (slot_good good) = good_place good
  slot_place (slot_class e out variable class) = class_place e out variable class

pub stack-MovesRoot :
    {s0 : Space} {move : ℕ → State Space ℕ}
    → MovesObjects s0 move
    → IsWhole s0
    → MovesRoot s0 (IsSlot s0) (stack_root move)
stack-MovesRoot moves whole s d v h good = slot_place moves whole h good
