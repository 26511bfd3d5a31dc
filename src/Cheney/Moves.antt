-- ===== src/Cheney/Moves.antt =====
-- vm/memory.c: the steps of the collector that copy one object keep the invariant of a collection.
use kek_on_rails.Base.{
  ℕ, ◌+◌, ◌≤◌, ◌<◌, ◌≡◌, ◌∙◌, some, List, [], ◌∷◌, ◌++◌, arith, refl, ◌≢◌, Option, lt→ltb, le→ltb,
  eq→==, ne→==,
}
use kek_on_rails.Cheney.Copying.{Pending, Layout, first, later, end, laid}
use kek_on_rails.Cheney.Whole.{IsSound}
use kek_on_rails.Heap.{aligned, update}
use kek_on_rails.Objects.{copied, Obj, copied}
use kek_on_rails.Outcome.{ok, vm_error, stop}
use kek_on_rails.Space.{
  Space, obj_size, new_segment_size, load, store, copy_obj_to_space_free, forward, move_obj,
}

-- Copies wait from the lower end on.
pub Layout-le : {s0 s : Space} {a b : ℕ} {qs : List ℕ} → Layout s0 s a qs b → a ≤ b
Layout-le end = omega arith
Layout-le (laid {n} e h size big rest) = omega (arith, Layout-le rest)

pub Pending-le :
    {s0 s : Space} {a b q : ℕ} {qs : List ℕ} → Layout s0 s a qs b → Pending q qs → (a ≤ q) × (q < b)
Pending-le end w = elim w [ ]
Pending-le (laid {n} e h size big rest) first = (omega arith, omega (arith, Layout-le rest))
Pending-le (laid {n} e h size big rest) (later w) = omega (arith, Pending-le rest w)

-- Another heap that holds the same copies.
pub Layout-mono :
    {s0 s t : Space} {a b : ℕ} {qs : List ℕ}
    → ((q : ℕ) → a ≤ q → q < b → t.cell q ≡ s.cell q)
    → Layout s0 s a qs b
    → Layout s0 t a qs b
Layout-mono same end = end
Layout-mono same (laid {a} {b} {n} e h size big rest) =
    laid (same a (omega arith) (omega (arith, Layout-le rest)) ∙ e) h size big
      (Layout-mono (λ q l u. same q (omega arith) u) rest)

-- One more copy at the upper end.
pub Layout-snoc :
    {s0 s : Space} {a b n : ℕ} {qs : List ℕ} {o : Obj}
    → Layout s0 s a qs b
    → s.cell b ≡ some o
    → IsSound s0 o.cls o.body
    → obj_size s0.var_count o ≡ ok n
    → 32 ≤ n
    → Layout s0 s a (qs ++ b ∷ []) (b + aligned n)
Layout-snoc end e h size big = laid e h size big end
Layout-snoc (laid e' h' size' big' rest) e h size big =
    laid e' h' size' big' (Layout-snoc rest e h size big)

pub Pending-snoc : {q : ℕ} (qs : List ℕ) (b : ℕ) → Pending q qs → Pending q (qs ++ b ∷ [])
Pending-snoc [] b w = elim w [ ]
Pending-snoc (p ∷ qs) b first = first
Pending-snoc (p ∷ qs) b (later w) = later (Pending-snoc qs b w)

pub Pending-last : (qs : List ℕ) (b : ℕ) → Pending b (qs ++ b ∷ [])
Pending-last [] b = first
Pending-last (p ∷ qs) b = later (Pending-last qs b)

abbrev pub copied_space : Space → Obj → ℕ → Space
copied_space s o n = record s {
  cell = update s.cell s.to_space_free o;
  to_space_free = s.to_space_free + aligned n;
}

-- The heap after the object `o` at `p` has been copied behind the last copy.
abbrev pub after_move : Space → ℕ → Obj → ℕ → Space
after_move s p o n = record s {
  cell = update (update s.cell s.to_space_free o) p (record o { body = copied s.to_space_free });
  to_space_free = s.to_space_free + aligned n;
}

pub update_self : (f : ℕ → Option Obj) (p : ℕ) (o : Obj) → update f p o p ≡ some o
update_self f p o = rw (eq→== p p refl) refl

pub update_ne : (f : ℕ → Option Obj) (p q : ℕ) (o : Obj) → p ≢ q → update f p o q ≡ f q
update_ne f p q o ne = rw (ne→== p q ne) refl

pub load_lem : (s : Space) {p : ℕ} {o : Obj} → s.cell p ≡ some o → load p s ≡ ok (o, s)
unfolding load
load_lem s e = rw (e, load) refl

module _ (s : Space) {p n : ℕ} {o : Obj} (e : s.cell p ≡ some o)
    (size : obj_size s.var_count o ≡ ok n) where
  pub move_obj_lem :
      s.to_space_free ≢ p
      → s.to_space_free + aligned n < s.to_space + new_segment_size
      → move_obj p s ≡ ok (s.to_space_free, after_move s p o n)
  unfolding move_obj copy_obj_to_space_free forward store load
  move_obj_lem ne room =
      rw
        (
          e,
          size,
          lt→ltb (s.to_space_free + aligned n) (s.to_space + new_segment_size) room,
          update_ne s.cell s.to_space_free p o ne,
          e,
        )
        refl

  pub move_obj-full :
      s.to_space + new_segment_size ≤ s.to_space_free + aligned n → move_obj p s ≡ stop vm_error
  unfolding move_obj copy_obj_to_space_free
  move_obj-full full =
      rw
        (
          load_lem s e,
          size,
          le→ltb (s.to_space_free + aligned n) (s.to_space + new_segment_size) full,
        )
        refl
