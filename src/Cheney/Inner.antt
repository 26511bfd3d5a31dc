-- ===== src/Cheney/Inner.antt =====
-- vm/memory.c: `gc_cheney_copy_root_obj` and `gc_cheney_copy_neighbor_inner` keep the invariant of a
-- collection, and give the place that the object has now.
use mathlib.Core.Path.{subst, ap₂}
use kek_on_rails.Base.{
  ℕ, ◌+◌, ◌≤◌, ◌<◌, ◌≡◌, refl, sym, ◌∙◌, ◌⊎◌, inl, inr, Bool, true, false, ◌&&◌, some, arith, ltb,
  leb, ltb→lt, Bool-cases, ltb→ge, ap,
}
use kek_on_rails.Cheney.{copy_root_obj, move_root, move_inner, copy_neighbor_inner}
use kek_on_rails.Cheney.Copying.{
  IsMoved, Follows, IsCopying, GoesOn, GoesOn-refl, same_const, new_place, unchanged, gone,
  repointed, room_of, room_at, Fits,
}
use kek_on_rails.Cheney.Moves.{load_lem, move_obj_lem, move_obj-full}
use kek_on_rails.Cheney.Steps.{
  free-ne, after_move-IsCopying, after_move-GoesOn, after_move-IsMoved, weight-without,
}
use kek_on_rails.Cheney.Whole.{
  Outside, IsObject, IsSound, IsWhole, obj_size-IsSound, forwarded-IsSound, in_to_space-Outside,
  outside_generations-IsSound, IsMortal,
}
use kek_on_rails.Classes.Names.{true-false}
use kek_on_rails.Heap.{aligned}
use kek_on_rails.Objects.{Obj, ptr, first_gen_young}
use kek_on_rails.OldSpace.{
  state_is_old, outside_generations, gc_os_is_in_old, forwarded, unless_forwarded,
}
use kek_on_rails.Outcome.{ok}
use kek_on_rails.Space.{
  new_segment_size, Space, is_const, obj_size, move_obj, sizeof_header, ptr_in_to_space,
}
use kek_on_rails.State.{pure, Ends, ends, gives_up, lift}

-- What a step of the collector from `s` gives for the object at `p`.
abbrev pub Moves : Space → ℕ → Space → ℕ → ℕ → Space → Type 0
Moves s0 d s p q t = IsCopying s0 d t × GoesOn s0 s t × Follows s0 t (ptr p) (ptr q)

module _ {s0 s : Space} {d : ℕ} (h : IsCopying s0 d s) where
  pub is_const-same : (p : ℕ) → is_const s p ≡ is_const s0 p
  is_const-same p = ap₂ (λ a b. leb a p && ltb p b) h.spaces.from_same h.spaces.const_same

  pub Outside-same : {p : ℕ} → Outside s0 p → Outside s p
  Outside-same {p} out =
      subst (λ x. (p < x) ⊎ (x + new_segment_size ≤ p)) (sym h.spaces.to_same) out

  pub obj_size-same :
      (o : Obj) {n : ℕ} → obj_size s0.var_count o ≡ ok n → obj_size s.var_count o ≡ ok n
  obj_size-same o {n} e = subst (λ c. obj_size c o ≡ ok n) (sym h.spaces.count_same) e

  module _ {p : ℕ} {o : Obj} (place : Outside s0 p) (variable : is_const s0 p ≡ false)
      (was : s0.cell p ≡ some o) (now : s.cell p ≡ some o) (sound : IsSound s0 o.cls o.body) where
    -- An object that has not moved has room where all that is left fits.
    no_room :
        {n : ℕ}
        → obj_size s0.var_count o ≡ ok n
        → s0.to_space + new_segment_size ≤ s.to_space_free + aligned n
        → ¬ Fits s0 s0
    no_room {n} size full c =
        let f = (h.fits c).rest in
        let here_left =
          f.covers p o
            (record {
              found = was;
              place = place;
              variable = variable;
              mortal = outside_generations-IsSound s0 sound;
            })
            now in
        let here_weight : room_at s0.var_count (s0.cell p) ≡ aligned n =
          ap (room_at s0.var_count) was ∙ ap room_of size in
        absurd (omega (arith, f.room, full, here_weight, weight-without s0 p f.left here_left))

    move_obj-room :
        (n : ℕ)
        → obj_size s0.var_count o ≡ ok n
        → 32 ≤ n
        → (r : Bool) → ltb (s.to_space_free + aligned n) (s0.to_space + new_segment_size) ≡ r
        → Ends (Fits s0 s0) (Moves s0 d s p) (move_obj p s)
    move_obj-room n size big true r =
        let room = ltb→lt (s.to_space_free + aligned n) (s0.to_space + new_segment_size) r in
        subst (Ends (Fits s0 s0) (Moves s0 d s p))
          (sym (
            move_obj_lem s now (obj_size-same o size)
              (λ e. free-ne h place variable was now sound size big room (sym e))
              (omega (arith, h.spaces.to_same))))
          (ends (
            after_move-IsCopying h place variable was now sound size big room,
            after_move-GoesOn h place variable was now sound size big room,
            new_place (after_move-IsMoved h place variable was now sound size big room),
          ))
    move_obj-room n size big false r =
        let full = ltb→ge (s.to_space_free + aligned n) (s0.to_space + new_segment_size) r in
        subst (Ends (Fits s0 s0) (Moves s0 d s p))
          (sym (move_obj-full s now (obj_size-same o size) (omega (arith, h.spaces.to_same))))
          (gives_up (no_room size full))

    pub move_obj-Ends : Ends (Fits s0 s0) (Moves s0 d s p) (move_obj p s)
    move_obj-Ends =
        let (n, size, big) = obj_size-IsSound s0 sound in move_obj-room n size big _ refl

pub IsMoved-IsMortal : {s0 s : Space} {p q : ℕ} (m : IsMoved s0 s p q) → IsMortal s0 p m.old
IsMoved-IsMortal {s0} m = record {
  found = m.was;
  place = m.place;
  variable = m.variable;
  mortal = outside_generations-IsSound s0 m.sound;
}

module _ {s0 s : Space} {d : ℕ} (whole : IsWhole s0) (h : IsCopying s0 d s) where
  pub still_const :
      {p : ℕ} → is_const s p ≡ true → IsObject s0 p → Ends (Fits s0 s0) (Moves s0 d s p) (pure p s)
  still_const {p} c object =
      ends (h, GoesOn-refl s0 s, same_const (sym (is_const-same h p) ∙ c) object)

  pub moved_before : {p q : ℕ} → IsMoved s0 s p q → Ends (Fits s0 s0) (Moves s0 d s p) (pure q s)
  moved_before m = ends (h, GoesOn-refl s0 s, new_place m)

  module _ {p : ℕ} (object : IsObject s0 p) (variable : is_const s p ≡ false) where
    variable_before : is_const s0 p ≡ false
    variable_before = sym (is_const-same h p) ∙ variable

    IsMortal-before : IsMortal s0 p object.held
    IsMortal-before = record {
      found = object.found;
      place = object.place;
      variable = variable_before;
      mortal = object.mortal variable_before;
    }

    pub IsSound-before : IsSound s0 object.held.cls object.held.body
    IsSound-before = whole.sound p object.held IsMortal-before

    pub young_before : object.held.state ≡ first_gen_young
    young_before = whole.young p object.held IsMortal-before

  pub move_root-young :
      (depth p : ℕ) (o : Obj) (generational : Bool)
      → generational ≡ false
      → Ends (Fits s0 s0) (Moves s0 d s p) (move_obj p s)
      → Ends (Fits s0 s0) (Moves s0 d s p) (move_root depth p o false generational s)
  move_root-young depth p o true e run = cc
  move_root-young depth p o false e run = run

  pub copy_root_obj-Ends :
      (depth p : ℕ) → IsObject s0 p → Ends (Fits s0 s0) (Moves s0 d s p) (copy_root_obj depth p s)
  unfolding copy_root_obj
  copy_root_obj-Ends depth p object = elim (Bool-cases (is_const s p)) [
    | inl c ↦ elim (h.kept p object.held object.place object.found) [
      | unchanged now ↦ rw (load_lem s now, c) (still_const c object)
      | gone m ↦ rw (load_lem s m.now, c) (still_const c object)
      | repointed r ↦ rw (load_lem s r.now, c) (still_const c object)
    ]
    | inr c ↦ elim (h.kept p object.held object.place object.found) [
      | unchanged now ↦
          rw
            (
              load_lem s now,
              c,
              forwarded-IsSound s0 (IsSound-before object c),
              in_to_space-Outside s p (Outside-same h object.place),
            )
            (move_root-young depth p object.held s.generational
              (h.spaces.generation_same ∙ whole.one_generation)
              (move_obj-Ends h object.place (sym (is_const-same h p) ∙ c) object.found now
                (IsSound-before object c)))
      | gone m ↦ rw (load_lem s m.now, c) (moved_before m)
      | repointed r ↦ absurd (true-false (sym r.constant ∙ sym (is_const-same h p) ∙ c))
    ]
  ]

  module _ {p : ℕ} {o : Obj} (now : s.cell p ≡ some o) (c : is_const s p ≡ false) where
    -- An object of a collector without generations is not old.
    not_old :
        outside_generations o.body ≡ false
        → o.state ≡ first_gen_young
        → gc_os_is_in_old p s ≡ ok (false, s)
    unfolding gc_os_is_in_old
    not_old inside young = rw (c, load_lem s now, inside) (ap (λ x. lift (state_is_old x) s) young)

    copy_neighbor_inner-young :
        outside_generations o.body ≡ false
        → o.state ≡ first_gen_young
        → copy_neighbor_inner p s
          ≡ unless_forwarded (move_inner p (ptr_in_to_space s p sizeof_header)) (forwarded o.body) s
    unfolding copy_neighbor_inner
    copy_neighbor_inner-young inside young = rw (c, not_old inside young, load_lem s now) refl

  pub copy_neighbor_inner-Ends :
      (p : ℕ) → IsObject s0 p → Ends (Fits s0 s0) (Moves s0 d s p) (copy_neighbor_inner p s)
  unfolding copy_neighbor_inner
  copy_neighbor_inner-Ends p object = elim (Bool-cases (is_const s p)) [
    | inl c ↦ rw c (still_const c object)
    | inr c ↦ elim (h.kept p object.held object.place object.found) [
      | unchanged now ↦
          subst (Ends (Fits s0 s0) (Moves s0 d s p))
            (sym (
              copy_neighbor_inner-young now c
                (outside_generations-IsSound s0 (IsSound-before object c)) (young_before object c)))
            (rw
              (
                forwarded-IsSound s0 (IsSound-before object c),
                in_to_space-Outside s p (Outside-same h object.place),
              )
              (move_obj-Ends h object.place (sym (is_const-same h p) ∙ c) object.found now
                (IsSound-before object c)))
      | gone m ↦
          subst (Ends (Fits s0 s0) (Moves s0 d s p))
            (sym
              (copy_neighbor_inner-young m.now c refl (whole.young p m.old (IsMoved-IsMortal m))))
            (moved_before m)
      | repointed r ↦ absurd (true-false (sym r.constant ∙ sym (is_const-same h p) ∙ c))
    ]
  ]
