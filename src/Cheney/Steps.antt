-- ===== src/Cheney/Steps.antt =====
-- vm/memory.c: to copy one more object keeps the invariant of a collection.
use mathlib.Core.Path.{subst}
use kek_on_rails.Base.{
  ℕ, ◌+◌, ◌≤◌, ◌<◌, ◌≡◌, refl, sym, ap, ◌∙◌, ◌≢◌, inl, inr, Option, none, some, arith, some-ne-none,
  ◌⊎◌, [], ◌∷◌, ◌++◌, ◌==◌, eq→==, Bool-cases, ==→eq, true, false, List, if◌then◌else◌, ne→==,
}
use kek_on_rails.Cheney.Copying.{
  IsMoved, IsCopying, Pending, Stands, GoesOn, HasScannedCopy-mono, Kept, Kept-mono, gone, room_at,
  weight, first, later, room_of, Fits, Within,
}
use kek_on_rails.Cheney.Moves.{
  Layout-le, after_move, update_self, update_ne, Layout-mono, Layout-snoc, Pending-snoc,
  Pending-last,
}
use kek_on_rails.Cheney.Whole.{
  Outside, IsSound, forwarded-IsSound, aligned-le, IsMortal, outside_generations-IsSound,
}
use kek_on_rails.Classes.Names.{some_same, true-false}
use kek_on_rails.Heap.{aligned, update}
use kek_on_rails.Objects.{copied, Obj}
use kek_on_rails.OldSpace.{forwarded}
use kek_on_rails.Outcome.{ok}
use kek_on_rails.Space.{new_segment_size, Space, obj_size, is_const}

pub place-ne :
    (s0 : Space) (p q : ℕ)
    → Outside s0 p
    → s0.to_space ≤ q
    → q < s0.to_space + new_segment_size
    → p ≢ q
place-ne s0 p q (inl low) l u e = absurd (omega (arith, e))
place-ne s0 p q (inr high) l u e = absurd (omega (arith, e))

-- An object that has been copied is no longer what it was.
abbrev target : Option Obj → Option ℕ
target none = none
target (some o) = forwarded o.body

pub not_moved :
    {s0 s : Space} {p q : ℕ} {o : Obj}
    → IsMoved s0 s p q
    → s.cell p ≡ some o
    → IsSound s0 o.cls o.body
    → {A : Type 0} → A
not_moved {s0} {q = q} m now sound = absurd (
    some-ne-none {o = some q} refl
      (sym (ap target m.now) ∙ ap target now ∙ forwarded-IsSound s0 sound))

pub eq_or_ne : (a b : ℕ) → (a ≡ b) ⊎ (a ≢ b)
eq_or_ne a b = elim (Bool-cases (a == b)) [
  | inl same ↦ inl (==→eq a b same)
  | inr other ↦ inr (λ e. true-false (sym (eq→== a b e) ∙ other))
]

-- The list without the first `p`.
abbrev pub without : ℕ → List ℕ → List ℕ
without p [] = []
without p (q ∷ qs) = if p == q then qs else q ∷ without p qs

Pending_rest : {a q : ℕ} {qs : List ℕ} → Pending a (q ∷ qs) → q ≢ a → Pending a qs
Pending_rest first ne = absurd (ne refl)
Pending_rest (later w) ne = w

pub weight-without :
    (s0 : Space) (p : ℕ) (ps : List ℕ)
    → Pending p ps
    → room_at s0.var_count (s0.cell p) + weight s0 (without p ps) ≡ weight s0 ps
weight-without s0 p [] w = elim w [ ]
weight-without s0 p (q ∷ ps) w = elim (Bool-cases (p == q)) [
  | inl same ↦ rw same (ap (λ x. room_at s0.var_count (s0.cell x) + weight s0 ps) (==→eq p q same))
  | inr other ↦
      let ne : q ≢ p = λ e. true-false (sym (eq→== p q (sym e)) ∙ other) in
      let rest = weight-without s0 p ps (Pending_rest w ne) in rw other (omega (arith, rest))
]

Pending-without : {a : ℕ} (p : ℕ) (ps : List ℕ) → p ≢ a → Pending a ps → Pending a (without p ps)
Pending-without p [] ne w = w
Pending-without p (q ∷ ps) ne first = rw (ne→== p q ne) first
Pending-without p (q ∷ ps) ne (later w) = elim (Bool-cases (p == q)) [
  | inl same ↦ rw same w
  | inr other ↦ rw other (later (Pending-without p ps ne w))
]

module _ {s0 s : Space} {d p n : ℕ} {o : Obj} (h : IsCopying s0 d s) (place : Outside s0 p)
    (variable : is_const s0 p ≡ false) (was : s0.cell p ≡ some o) (now : s.cell p ≡ some o)
    (sound : IsSound s0 o.cls o.body) (size : obj_size s0.var_count o ≡ ok n) (big : 32 ≤ n)
    (room : s.to_space_free + aligned n < s0.to_space + new_segment_size) where
  free_low : s0.to_space ≤ s.to_space_free
  free_low = omega (arith, h.low, Layout-le h.layout)

  pub free-ne : p ≢ s.to_space_free
  free-ne = place-ne s0 p s.to_space_free place free_low h.high

  at_free : (after_move s p o n).cell s.to_space_free ≡ some o
  at_free =
      update_ne (update s.cell s.to_space_free o) p s.to_space_free _ free-ne
      ∙ update_self s.cell s.to_space_free o

  at_p : (after_move s p o n).cell p ≡ some (record o { body = copied s.to_space_free })
  at_p = update_self (update s.cell s.to_space_free o) p _

  elsewhere : (q : ℕ) → p ≢ q → s.to_space_free ≢ q → (after_move s p o n).cell q ≡ s.cell q
  elsewhere q a b =
      update_ne (update s.cell s.to_space_free o) p q _ a ∙ update_ne s.cell s.to_space_free q o b

  moved_now : IsMoved s0 (after_move s p o n) p s.to_space_free
  moved_now = record {
    old = o;
    place = place;
    variable = variable;
    was = was;
    sound = sound;
    now = at_p;
  }

  other-ne : (a q : ℕ) → IsMoved s0 s a q → p ≢ a
  other-ne a q m e = not_moved m (subst (λ x. s.cell x ≡ some o) e now) sound

  still_moved : (a q : ℕ) → IsMoved s0 s a q → IsMoved s0 (after_move s p o n) a q
  still_moved a q m = record {
    old = m.old;
    place = m.place;
    variable = m.variable;
    was = m.was;
    sound = m.sound;
    now =
        elsewhere a (other-ne a q m)
          (λ e. place-ne s0 a s.to_space_free m.place free_low h.high (sym e))
        ∙ m.now;
  }

  was_moved : (a q : ℕ) (m : IsMoved s0 (after_move s p o n) a q) → p ≢ a → IsMoved s0 s a q
  was_moved a q m ne = record {
    old = m.old;
    place = m.place;
    variable = m.variable;
    was = m.was;
    sound = m.sound;
    now =
        sym (elsewhere a ne (λ e. place-ne s0 a s.to_space_free m.place free_low h.high (sym e)))
        ∙ m.now;
  }

  new_target : (q : ℕ) → IsMoved s0 (after_move s p o n) p q → q ≡ s.to_space_free
  new_target q m = some_same (sym (ap target m.now) ∙ ap target at_p)

  kept_copies :
      (q : ℕ) → s0.to_space ≤ q → q < s.to_space_free → (after_move s p o n).cell q ≡ s.cell q
  kept_copies q l u =
      elsewhere q (place-ne s0 p q place l (omega (arith, h.high))) (λ e. omega (arith, e))

  Stands-on :
      (old : Obj) (q : ℕ)
      → s0.to_space ≤ q
      → q < s.to_space_free
      → Stands s0 s d h.pending old q
      → Stands s0 (after_move s p o n) d (h.pending ++ s.to_space_free ∷ []) old q
  Stands-on old q l u (inl (below_d, copy)) =
      inl (below_d, HasScannedCopy-mono still_moved (kept_copies q l u) copy)
  Stands-on old q l u (inr (waits, same)) =
      inr (Pending-snoc h.pending s.to_space_free waits, kept_copies q l u ∙ same)

  old_same : (old : Obj) → s0.cell p ≡ some old → o ≡ old
  old_same old e = some_same (sym was ∙ e)

  new-Stands :
      (a q : ℕ) (m : IsMoved s0 (after_move s p o n) a q)
      → (p ≡ a) ⊎ (p ≢ a)
      → (s0.to_space ≤ q)
        × (q < s.to_space_free + aligned n)
        × Stands s0 (after_move s p o n) d (h.pending ++ s.to_space_free ∷ []) m.old q
  unfolding was_moved
  new-Stands a q m (inl e) =
      let at_end : q ≡ s.to_space_free =
        new_target q (subst (λ x. IsMoved s0 (after_move s p o n) x q) (sym e) m) in
      let same : o ≡ m.old = old_same m.old (subst (λ x. s0.cell x ≡ some m.old) (sym e) m.was) in
      (
        omega (arith, free_low, at_end),
        omega (arith, at_end, aligned-le n),
        inr (
          subst (λ x. Pending x (h.pending ++ s.to_space_free ∷ [])) (sym at_end)
              (Pending-last h.pending s.to_space_free),
          subst (λ x. (after_move s p o n).cell x ≡ some m.old) (sym at_end)
              (subst (λ y. (after_move s p o n).cell s.to_space_free ≡ some y) same at_free),
        ),
      )
  new-Stands a q m (inr ne) =
      let (l, u, st) = h.stands a q (was_moved a q m ne) in
      (l, omega arith, Stands-on m.old q l u st)

  Kept-on :
      (a : ℕ) (old : Obj)
      → Outside s0 a
      → s0.cell a ≡ some old
      → (p ≡ a) ⊎ (p ≢ a)
      → Kept s0 (after_move s p o n) a old
  Kept-on a old out e (inl same) =
      gone (subst (λ x. IsMoved s0 (after_move s p o n) x s.to_space_free) same moved_now)
  Kept-on a old out e (inr ne) =
      Kept-mono still_moved
        (elsewhere a ne (λ f. place-ne s0 a s.to_space_free out free_low h.high (sym f)))
        (h.kept a old out e)

  same_consts_on :
      (a : ℕ) → is_const s0 a ≡ true → Outside s0 a → (after_move s p o n).cell a ≡ s.cell a
  same_consts_on a c out =
      elsewhere a (λ f. true-false (sym c ∙ subst (λ x. is_const s0 x ≡ false) f variable))
        (λ f. place-ne s0 a s.to_space_free out free_low h.high (sym f))

  one_copy_on :
      (a b q : ℕ)
      → IsMoved s0 (after_move s p o n) a q
      → IsMoved s0 (after_move s p o n) b q
      → (p ≡ a) ⊎ (p ≢ a)
      → (p ≡ b) ⊎ (p ≢ b)
      → a ≡ b
  one_copy_on a b q m k (inl e) (inl f) = sym e ∙ f
  one_copy_on a b q m k (inl e) (inr g) =
      let (l, u, st) = h.stands b q (was_moved b q k g) in
      let at_end : q ≡ s.to_space_free =
        new_target q (subst (λ x. IsMoved s0 (after_move s p o n) x q) (sym e) m) in
      absurd (omega (arith, u, at_end))
  one_copy_on a b q m k (inr g) (inl e) =
      let (l, u, st) = h.stands a q (was_moved a q m g) in
      let at_end : q ≡ s.to_space_free =
        new_target q (subst (λ x. IsMoved s0 (after_move s p o n) x q) (sym e) k) in
      absurd (omega (arith, u, at_end))
  one_copy_on a b q m k (inr g) (inr f) = h.one_copy a b q (was_moved a q m g) (was_moved b q k f)

  weight_here : room_at s0.var_count (s0.cell p) ≡ aligned n
  weight_here = ap (room_at s0.var_count) was ∙ ap room_of size

  here-IsMortal : IsMortal s0 p o
  here-IsMortal = record {
    found = was;
    place = place;
    variable = variable;
    mortal = outside_generations-IsSound s0 sound;
  }

  not_back : (a : ℕ) (x : Obj) → IsMortal s0 a x → (after_move s p o n).cell a ≡ some x → p ≢ a
  not_back a x mortal e f =
      let same : o ≡ x = old_same x (subst (λ y. s0.cell y ≡ some x) (sym f) mortal.found) in
      not_moved moved_now
        (subst (λ y. (after_move s p o n).cell p ≡ some y) (sym same)
          (subst (λ y. (after_move s p o n).cell y ≡ some x) (sym f) e))
        sound

  Within-on : {f : Fits s0 s0} → Within s0 s f → Within s0 (after_move s p o n) f
  Within-on w =
      let here = w.rest.covers p o here-IsMortal now in
      let less = weight-without s0 p w.rest.left here in
      record {
        rest = record {
          left = without p w.rest.left;
          room = omega (arith, w.rest.room, weight_here, less);
          covers = λ a x mortal e.
              let ne = not_back a x mortal e in
              let other : s.to_space_free ≢ a =
                λ g. place-ne s0 a s.to_space_free mortal.place free_low h.high (sym g) in
              Pending-without p w.rest.left ne
                (w.rest.covers a x mortal (sym (elsewhere a ne other) ∙ e));
        };
        used = omega (arith, w.used, weight_here, less);
      }

  pub after_move-IsCopying : IsCopying s0 d (after_move s p o n)
  after_move-IsCopying = record {
    spaces = record {
      to_same = h.spaces.to_same;
      from_same = h.spaces.from_same;
      const_same = h.spaces.const_same;
      count_same = h.spaces.count_same;
      generation_same = h.spaces.generation_same;
    };
    pending = h.pending ++ s.to_space_free ∷ [];
    low = h.low;
    high = room;
    layout =
        Layout-snoc (Layout-mono (λ q l u. kept_copies q (omega (arith, h.low)) u) h.layout) at_free
          sound size big;
    fits = λ f. Within-on (h.fits f);
    one_copy = λ a b q m k. one_copy_on a b q m k (eq_or_ne p a) (eq_or_ne p b);
    kept = λ a old out e. Kept-on a old out e (eq_or_ne p a);
    stands = λ a q m. new-Stands a q m (eq_or_ne p a);
  }

  pub after_move-GoesOn : GoesOn s0 s (after_move s p o n)
  after_move-GoesOn = record {
    grows = omega arith;
    same_scan = refl;
    moves = still_moved;
    same_consts = same_consts_on;
    same_copies = kept_copies;
  }

  pub after_move-IsMoved : IsMoved s0 (after_move s p o n) p s.to_space_free
  after_move-IsMoved = moved_now
