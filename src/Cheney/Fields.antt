-- ===== src/Cheney/Fields.antt =====
-- vm/memory.c: the switch of `gc_cheney_copy_neighbor` gives the body with all references to the
-- copies of the objects.
use mathlib.Core.Path.{subst}
use kek_on_rails.Base.{
  ℕ, zero, suc, ◌≡◌, ◌≢◌, Bool, true, false, Option, List, [], ◌∷◌, refl, sym, ap, ◌∙◌, none, some,
  some-ne-none,
}
use kek_on_rails.Cheney.{copy_neighbor_inner, inner_elems, inner_fields}
use kek_on_rails.Cheney.Copying.{
  Follows, FollowAll, IsScanned, IsCopying, GoesOn, GoesOn-refl, GoesOn-trans, same_null, same_imm,
  same_chr, same_dptr, none_follow, Follows-mono, one_follows, scanned_int, scanned_str,
  scanned_symbol, scanned_file, scanned_term, scanned_empty, scanned_arr, scanned_objs,
  scanned_expt, scanned_udo, Fits,
}
use kek_on_rails.Cheney.Inner.{Moves, copy_neighbor_inner-Ends}
use kek_on_rails.Cheney.Whole.{
  IsObject, IsGood, AreGood, good_ptr, one_slot, IsSound, IsWhole, sound_int, sound_str,
  sound_symbol, sound_file, sound_term, sound_empty, sound_arr, sound_objs, sound_expt, sound_udo,
}
use kek_on_rails.Classes.Names.{some_same}
use kek_on_rails.Objects.{Value, Body, null, imm, chr, dptr, ptr, ArrayHead, arr}
use kek_on_rails.OldSpace.{move_value, move_slots, class_vars}
use kek_on_rails.Outcome.{bad_access, ok}
use kek_on_rails.Space.{Space}
use kek_on_rails.State.{State, pure, Ends, Ends-bind, ends, halt}

-- A function of the collector that moves an object, whatever has been done before.
abbrev pub MovesObjects : Space → (ℕ → State Space ℕ) → Type 0
MovesObjects s0 move =
    (s : Space) (d p : ℕ)
    → IsCopying s0 d s
    → IsObject s0 p
    → Ends (Fits s0 s0) (Moves s0 d s p) (move p s)

-- What a step from `s` gives for a reference, for slots and for a body.
abbrev pub MovesValue : Space → ℕ → Space → Value → Value → Space → Type 0
MovesValue s0 d s v w t = IsCopying s0 d t × GoesOn s0 s t × Follows s0 t v w

abbrev pub MovesSlots : Space → ℕ → Space → ℕ → List Value → List Value → Space → Type 0
MovesSlots s0 d s n vs ws t = IsCopying s0 d t × GoesOn s0 s t × FollowAll s0 t n vs ws

abbrev pub MovesBody : Space → ℕ → Space → Option ℕ → Body → Body → Space → Type 0
MovesBody s0 d s c b b' t = IsCopying s0 d t × GoesOn s0 s t × IsScanned s0 t c b b'

null_skipped :
    {on_null : State Space Value} (nonnull : Bool)
    → (nonnull ≡ false → on_null ≡ pure null)
    → (nonnull ≡ true → ◌≢◌ {A = Value} null null)
    → on_null ≡ pure null
null_skipped true skipped ne = absurd (ne refl refl)
null_skipped false skipped ne = skipped refl

module _ {s0 : Space} (move : ℕ → State Space ℕ) (moves : MovesObjects s0 move)
    (on_null : State Space Value) (nonnull : Bool)
    (skip_null : nonnull ≡ false → on_null ≡ pure null) where
  pub move_value-Ends :
      {s : Space} {d : ℕ} (v : Value)
      → IsCopying s0 d s
      → IsGood s0 v
      → (nonnull ≡ true → v ≢ null)
      → Ends (Fits s0 s0) (MovesValue s0 d s v) (move_value move on_null v s)
  move_value-Ends {s} null h good ne =
      let skipped = null_skipped nonnull skip_null ne in
      rw skipped (ends (h, GoesOn-refl s0 s, same_null))
  move_value-Ends {s} (imm n) h good ne = ends (h, GoesOn-refl s0 s, same_imm n)
  move_value-Ends {s} (chr n) h good ne = ends (h, GoesOn-refl s0 s, same_chr n)
  move_value-Ends {s} (dptr n) h good ne = ends (h, GoesOn-refl s0 s, same_dptr n)
  move_value-Ends {s} {d} (ptr p) h (good_ptr object) ne =
      Ends-bind (moves s d p h object) λ q t m. ends m

  pub move_slots-Ends :
      {s : Space} {d : ℕ} (n : ℕ) (vs : List Value)
      → IsCopying s0 d s
      → AreGood s0 nonnull n vs
      → Ends (Fits s0 s0) (MovesSlots s0 d s n vs) (move_slots move on_null n vs s)
  unfolding move_slots
  move_slots-Ends {s} zero vs h good = ends (h, GoesOn-refl s0 s, none_follow)
  move_slots-Ends {s} (suc n) [] h good = elim good [ ]
  move_slots-Ends {s} {d} (suc n) (v ∷ vs) h (one_slot good ne more) =
      Ends-bind (move_value-Ends v h good ne) λ w t first_done.
        Ends-bind (move_slots-Ends n vs first_done.0 more) λ ws u rest_done. ends (
          rest_done.0,
          GoesOn-trans first_done.1 rest_done.1,
          one_follows (Follows-mono rest_done.1.moves first_done.2) rest_done.2,
        )

module _ {s0 s : Space} {d : ℕ} (whole : IsWhole s0) (h : IsCopying s0 d s) where
  inner : MovesObjects s0 copy_neighbor_inner
  inner t e p k object = copy_neighbor_inner-Ends whole k p object

  -- A body that holds no reference.
  stays :
      {c : Option ℕ} {b : Body}
      → IsScanned s0 s c b b
      → Ends (Fits s0 s0) (MovesBody s0 d s c b) (pure b s)
  stays scanned = ends (h, GoesOn-refl s0 s, scanned)

  class_vars-same :
      {c : Option ℕ} {k : ℕ} → c ≡ some k → class_vars s.var_count c ≡ ok (s0.var_count k)
  class_vars-same {k} e = ap (class_vars s.var_count) e ∙ ap (λ f. ok (f k)) h.spaces.count_same

  inner_elems-Ends :
      (c : Option ℕ) (a : ArrayHead) (elems : Option ℕ)
      → a.elems ≡ elems
      → ((p : ℕ) → elems ≡ some p → IsObject s0 p)
      → Ends (Fits s0 s0) (MovesBody s0 d s c (arr a)) (inner_elems a elems s)
  inner_elems-Ends c a none e objects = stays (scanned_empty a e)
  inner_elems-Ends c a (some p) e objects =
      Ends-bind (inner s d p h (objects p refl)) λ q t m. ends (m.0, m.1, scanned_arr a e m.2)

  pub inner_fields-Ends :
      (c : Option ℕ) (b : Body)
      → IsSound s0 c b
      → Ends (Fits s0 s0) (MovesBody s0 d s c b) (inner_fields c b s)
  unfolding inner_fields
  inner_fields-Ends c b (sound_int n) = stays (scanned_int n)
  inner_fields-Ends c b (sound_str n bytes) = stays (scanned_str n bytes)
  inner_fields-Ends c b (sound_symbol n bytes) = stays (scanned_symbol n bytes)
  inner_fields-Ends c b sound_file = stays scanned_file
  inner_fields-Ends c b sound_term = stays scanned_term
  inner_fields-Ends c b (sound_empty a e) =
      inner_elems-Ends c a a.elems refl (λ p f. absurd (some-ne-none f e))
  inner_fields-Ends c b (sound_arr a {p} e object) =
      inner_elems-Ends c a a.elems refl (λ x f. subst (IsObject s0) (some_same (sym e ∙ f)) object)
  inner_fields-Ends c b (sound_objs a good) =
      Ends-bind
        (move_slots-Ends copy_neighbor_inner inner (halt bad_access) true (λ e. cc) a.length a.elems
          h good)
        λ vs t m. ends (m.0, m.1, scanned_objs a m.2)
  inner_fields-Ends c b (sound_expt {v} good) =
      Ends-bind
        (move_value-Ends copy_neighbor_inner inner (pure null) false (λ e. refl) v h good (λ e. cc))
        λ w t m. ends (m.0, m.1, scanned_expt m.2)
  inner_fields-Ends c b (sound_udo offset {k} {vs} e good) = rw (class_vars-same e) (
      Ends-bind
        (move_slots-Ends copy_neighbor_inner inner (pure null) false (λ e. refl) (s0.var_count k) vs
          h good)
        λ ws t m. ends (m.0, m.1, scanned_udo offset e m.2))
