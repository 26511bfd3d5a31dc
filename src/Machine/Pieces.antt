-- ===== src/Machine/Pieces.antt =====
-- The uses of the stack by the instructions that are no calls: PUSH, POP, ARG and LOC of
-- vm/stack.h.
use mathlib.Core.Path.{subst}
use kek_on_rails.Base.{ℕ, ◌+◌, ◌-◌, ◌≤◌, ◌<◌, ◌≡◌, refl, ap, ◌∙◌, ◌⊎◌, inl, inr, arith, lt→ltb, sym}
use kek_on_rails.Classes.Names.{ok_same}
use kek_on_rails.Heap.{Heap, IsHeap}
use kek_on_rails.Int.{ℤ}
use kek_on_rails.Machine.{
  stack_size, stack_slots, Machine, put_slot, int_val, stack_push, stack_pop, write_slot,
  push_integer,
}
use kek_on_rails.Machine.Calls.{HasFrame}
use kek_on_rails.Machine.Frames.{
  put_slot_self, put_slot-ne, int_ref, int_heap, HasRoom, int_val-int_ref, push_integer_lem,
}
use kek_on_rails.Machine.Numbers.{KeepsInts, int_heap-KeepsInts}
use kek_on_rails.Machine.Runs.{
  Works, OwnStep, pushes, pushes_integer, pops, assigns, jumps, heap_changes,
}
use kek_on_rails.Objects.{Value}
use kek_on_rails.Outcome.{ok, Outcome}
use kek_on_rails.State.{Returns, returns, Returns-eq}

KeepsInts-self : (h : Heap) → KeepsInts h h
KeepsInts-self h v n e = e

ends_in :
    {A : Type 0} {P : A → Machine → Type 0} {r : Outcome (A × Machine)} {a : A} {t : Machine}
    → Returns P r
    → r ≡ ok (a, t)
    → P a t
ends_in {P} h e =
    let (a', t', e', p) = Returns-eq h in subst (λ x. P x.0 x.1) (ok_same (sym e' ∙ e)) p

module _ {cnt : ℕ} {ret : ℤ} {a f : ℕ} (s : Machine) (fr : HasFrame s cnt ret a f) where
  stack_push-Works :
      (v : Value)
      → s.fp < s.sp
      → s.sp < stack_size
      → Returns (λ _ t. Works s t × (t.slot (t.sp - 1) ≡ v)) (stack_push v s)
  unfolding stack_push
  stack_push-Works v above room = rw (lt→ltb s.sp stack_size room) (
      returns (
        record {
          same_ap = refl;
          same_fp = refl;
          below = λ i lt. put_slot-ne s.slot s.sp i v (λ e. absurd (omega (arith, e, fr.frame)));
          saved = λ i lt _. put_slot-ne s.slot s.sp i v (λ e. absurd (omega (arith, e)));
          numbers = KeepsInts-self s.heap;
        },
        ap (put_slot s.slot s.sp v) (omega arith) ∙ put_slot_self s.slot s.sp v,
      ))

  push_integer-Works :
      (n : ℤ)
      → IsHeap s.heap
      → HasRoom n s.heap
      → s.fp < s.sp
      → s.sp < stack_size
      → Returns
          (λ _ t. Works s t × (int_val (t.slot (t.sp - 1)) t.heap ≡ ok (n, t.heap)))
          (push_integer n s)
  push_integer-Works n is room above fits =
      let v = int_ref n s.heap in
      rw (push_integer_lem n s room fits) (
        returns (
          record {
            same_ap = refl;
            same_fp = refl;
            below = λ i lt. put_slot-ne s.slot s.sp i v (λ e. absurd (omega (arith, e, fr.frame)));
            saved = λ i lt _. put_slot-ne s.slot s.sp i v (λ e. absurd (omega (arith, e)));
            numbers = int_heap-KeepsInts n s.heap is;
          },
          ap (λ w. int_val w (int_heap n s.heap))
                (ap (put_slot s.slot s.sp v) (omega arith) ∙ put_slot_self s.slot s.sp v)
              ∙ int_val-int_ref n s.heap,
        ))

  stack_pop-Works :
      s.fp + 1 < s.sp
      → Returns (λ v t. Works s t × (v ≡ s.slot (s.sp - 1)) × (t.fp < t.sp)) (stack_pop s)
  unfolding stack_pop
  stack_pop-Works above = rw (lt→ltb 0 s.sp (omega arith)) (
      returns (
        record {
          same_ap = refl;
          same_fp = refl;
          below = λ i lt. refl;
          saved = λ i lt _. refl;
          numbers = KeepsInts-self s.heap;
        },
        refl,
        omega arith,
      ))

  apart_low : (i j : ℕ) → j < s.ap → i ≡ j → (s.ap ≤ i × (i ≤ s.ap + cnt)) ⊎ (s.fp ≤ i) → ⊥
  apart_low i j lt e (inl (lo, hi)) = omega (arith, e)
  apart_low i j lt e (inr beyond) = omega (arith, e, fr.frame)

  apart_saved :
      (i j : ℕ) → j < s.fp → s.fp ≤ j + 3 → i ≡ j → (s.ap ≤ i × (i ≤ s.ap + cnt)) ⊎ (s.fp ≤ i) → ⊥
  apart_saved i j lt near e (inl (lo, hi)) = omega (arith, e, fr.frame)
  apart_saved i j lt near e (inr beyond) = omega (arith, e)

  write_slot-Works :
      (i : ℕ) (v : Value)
      → i < stack_slots
      → (s.ap ≤ i × (i ≤ s.ap + cnt)) ⊎ (s.fp ≤ i)
      → Returns (λ _ t. Works s t × (t.slot i ≡ v)) (write_slot i v s)
  unfolding write_slot
  write_slot-Works i v inside place = rw (lt→ltb i stack_slots inside) (
      returns (
        record {
          same_ap = refl;
          same_fp = refl;
          below = λ j lt. put_slot-ne s.slot i j v (λ e. apart_low i j lt e place);
          saved = λ j lt near. put_slot-ne s.slot i j v (λ e. apart_saved i j lt near e place);
          numbers = KeepsInts-self s.heap;
        },
        put_slot_self s.slot i v,
      ))

  unmoved-Works :
      (t : Machine)
      → t.ap ≡ s.ap
      → t.fp ≡ s.fp
      → t.slot ≡ s.slot
      → KeepsInts s.heap t.heap
      → Works s t
  unmoved-Works t same_ap same_fp same_slot numbers = record {
    same_ap = same_ap;
    same_fp = same_fp;
    below = λ i lt. ap (λ g. g i) same_slot;
    saved = λ i lt near. ap (λ g. g i) same_slot;
    numbers = numbers;
  }

  -- A step that minds its frame leaves it as it was.
  pub OwnStep-Works : {t : Machine} → OwnStep s t → Works s t
  OwnStep-Works (pushes v above room e) = (ends_in (stack_push-Works v above room) e).0
  OwnStep-Works (pushes_integer n is room above fits e) =
      (ends_in (push_integer-Works n is room above fits) e).0
  OwnStep-Works (pops v above e) = (ends_in (stack_pop-Works above) e).0
  OwnStep-Works (assigns i v inside (inl (low, high)) e) =
      (ends_in (write_slot-Works i v inside (inl (low, omega (arith, high, fr.frame)))) e).0
  OwnStep-Works (assigns i v inside (inr high) e) =
      (ends_in (write_slot-Works i v inside (inr high)) e).0
  OwnStep-Works {t} (jumps to) = unmoved-Works t refl refl refl (KeepsInts-self s.heap)
  OwnStep-Works {t} (heap_changes h keeps) = unmoved-Works t refl refl refl keeps

  -- In a frame with a value on the stack and room for another: pushing a reference or a number,
  -- popping, and assigning to an argument or to a slot above the frame pointer all go through and
  -- leave the frame and the numbers in the heap as they were; what was pushed is on top, and a
  -- number, also a negative one, is read back from there.
  pub stack_ops-Works :
      (v : Value) (n : ℤ) (i k : ℕ)
      → IsHeap s.heap
      → HasRoom n s.heap
      → s.fp + 1 < s.sp
      → s.sp < stack_size
      → i ≤ cnt
      → s.fp + 1 + k < s.sp
      → Returns (λ _ t. Works s t × (t.slot (t.sp - 1) ≡ v)) (stack_push v s)
        × Returns
            (λ _ t. Works s t × (int_val (t.slot (t.sp - 1)) t.heap ≡ ok (n, t.heap)))
            (push_integer n s)
        × Returns (λ w t. Works s t × (w ≡ s.slot (s.sp - 1)) × (t.fp < t.sp)) (stack_pop s)
        × Returns (λ _ t. Works s t × (t.slot (s.ap + i) ≡ v)) (write_slot (s.ap + i) v s)
        × Returns (λ _ t. Works s t × (t.slot (s.fp + 1 + k) ≡ v)) (write_slot (s.fp + 1 + k) v s)
  stack_ops-Works v n i k is room above fits arg local = (
    stack_push-Works v (omega arith) fits,
    push_integer-Works n is room (omega arith) fits,
    stack_pop-Works above,
    write_slot-Works (s.ap + i) v (omega (arith, fr.frame, fr.inside))
        (inl (omega arith, omega arith)),
    write_slot-Works (s.fp + 1 + k) v (omega arith) (inr (omega arith)),
  )
