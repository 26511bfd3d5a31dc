-- ===== src/Machine/Nesting.antt =====
-- vm/stack.h: the frames that BC_CALL and BC_TCALL set up.
use kek_on_rails.Base.{ℕ, ◌+◌, ◌-◌, ◌≤◌, ◌<◌, ◌≡◌, refl, ap, ◌∙◌, arith}
use kek_on_rails.Heap.{Heap}
use kek_on_rails.Int.{ℤ}
use kek_on_rails.Machine.{stack_size, stack_slots, Machine, int_val, bc_call, bc_tcall}
use kek_on_rails.Machine.Calls.{HasFrame, bc_call_lem, bc_tcall_lem, called}
use kek_on_rails.Machine.Frames.{
  copied, copied-below, copied-at, int_ref, int_heap, HasRoom, int_val-int_ref, framed,
  framed-below, framed-ret, framed-ap, framed-fp, framed-locals,
}
use kek_on_rails.Objects.{Value, null, imm}
use kek_on_rails.State.{Returns, returns}

-- What the code of a call of `arg_cnt` arguments from `s` finds: the frame with what a return
-- needs, the arguments and the receiver in their places, and locals that are NULL.
pub record Entered (s t : Machine) (entry ret : ℤ) (arg_cnt locals_cnt : ℕ) : Type 0 where
  pub frame : HasFrame t arg_cnt ret s.ap s.fp
  pub base : t.ap + arg_cnt + 1 ≡ s.sp
  pub below : (i : ℕ) → i < s.sp → t.slot i ≡ s.slot i
  pub locals : (k : ℕ) → k < locals_cnt → t.slot (t.fp + 1 + k) ≡ null
  pub top : t.sp ≡ t.fp + 1 + locals_cnt
  pub ip : t.ip ≡ entry

-- The saved registers of a new frame, read at the indices that HasFrame names.
pub framed-HasFrame :
    (f : ℕ → Value) (entry ret : ℤ) (a arg_cnt sp locals_cnt ap' fp' p : ℕ) (h : Heap)
    → a + arg_cnt + 1 ≡ p
    → a < stack_size
    → p + 3 < stack_slots
    → HasFrame
        (record {
          slot = framed f p (int_ref ret h) (imm ap') (imm fp') locals_cnt;
          sp = sp;
          ap = a;
          fp = p + 1 + 1 + 1;
          ip = entry;
          heap = int_heap ret h;
        })
        arg_cnt
        ret
        ap'
        fp'
unfolding int_val
framed-HasFrame f entry ret a arg_cnt sp locals_cnt ap' fp' p h e low inside = record {
  frame = omega (arith, e);
  low = low;
  inside = omega arith;
  saved_ret =
      let g = framed f p (int_ref ret h) (imm ap') (imm fp') locals_cnt in
      ap (λ i. int_val (g i) (int_heap ret h)) e
      ∙ ap (λ v. int_val v (int_heap ret h))
          (framed-ret f p (int_ref ret h) (imm ap') (imm fp') locals_cnt)
      ∙ int_val-int_ref ret h;
  saved_ap =
      let g = framed f p (int_ref ret h) (imm ap') (imm fp') locals_cnt in
      let i : a + arg_cnt + 2 ≡ p + 1 = omega (arith, e) in
      ap (λ i. int_val (g i) (int_heap ret h)) i
      ∙ ap (λ v. int_val v (int_heap ret h))
          (framed-ap f p (int_ref ret h) (imm ap') (imm fp') locals_cnt);
  saved_fp =
      let g = framed f p (int_ref ret h) (imm ap') (imm fp') locals_cnt in
      let i : a + arg_cnt + 3 ≡ p + 1 + 1 = omega (arith, e) in
      ap (λ i. int_val (g i) (int_heap ret h)) i
      ∙ ap (λ v. int_val v (int_heap ret h))
          (framed-fp f p (int_ref ret h) (imm ap') (imm fp') locals_cnt);
}

pub called-HasFrame :
    (entry ret : ℤ) (arg_cnt locals_cnt : ℕ) (s : Machine)
    → arg_cnt + 1 ≤ s.sp
    → s.sp + 3 ≤ stack_size
    → HasFrame (called entry ret arg_cnt locals_cnt s) arg_cnt ret s.ap s.fp
called-HasFrame entry ret arg_cnt locals_cnt s args fits =
    framed-HasFrame s.slot entry ret (s.sp + 1 + 1 - arg_cnt - 3) arg_cnt
      (s.sp + 1 + 1 + 1 + locals_cnt + 1) locals_cnt s.ap s.fp s.sp s.heap (omega arith)
      (omega arith) (omega arith)

-- BC_CALL, with the receiver and its arguments on the stack and room for the frame, never stops:
-- it saves the return address, also the negative one of a native caller, and the two registers of
-- the caller, leaves the stack below as it was, and clears the locals.
pub bc_call-Entered :
    (entry ret : ℤ) (arg_cnt locals_cnt : ℕ) (s : Machine)
    → HasRoom ret s.heap
    → arg_cnt + 1 ≤ s.sp
    → s.sp + 3 ≤ stack_size
    → s.sp + 3 + locals_cnt < stack_slots
    → Returns
        (λ _ t. Entered s t entry ret arg_cnt locals_cnt)
        (bc_call entry ret arg_cnt locals_cnt s)
bc_call-Entered entry ret arg_cnt locals_cnt s room args fits locals =
    rw (bc_call_lem entry ret arg_cnt locals_cnt s room args fits locals) (
      returns (record {
        frame = called-HasFrame entry ret arg_cnt locals_cnt s args fits;
        base = omega arith;
        below = framed-below s.slot s.sp (int_ref ret s.heap) (imm s.ap) (imm s.fp) locals_cnt;
        locals = framed-locals s.slot s.sp (int_ref ret s.heap) (imm s.ap) (imm s.fp) locals_cnt;
        top = omega arith;
        ip = refl;
      }))

-- BC_TCALL replaces the frame by that of the called method: the new arguments and the receiver
-- stand where the old ones began, whatever the two counts are, the caller's part of the stack is
-- as it was, and what is saved for the return is that of the frame that is gone.
pub bc_tcall-HasFrame :
    {old_cnt : ℕ} {ret : ℤ} {ap fp : ℕ} (entry : ℤ) (arg_cnt locals_cnt : ℕ) (s : Machine)
    → HasFrame s old_cnt ret ap fp
    → HasRoom ret s.heap
    → s.fp + arg_cnt + 2 ≤ s.sp
    → s.sp ≤ stack_slots
    → s.ap + arg_cnt + 4 ≤ stack_size
    → s.ap + arg_cnt + 4 + locals_cnt < stack_slots
    → Returns
        (λ _ t.
          HasFrame t arg_cnt ret ap fp
          × (t.ap ≡ s.ap)
          × ((i : ℕ) → i ≤ arg_cnt → t.slot (t.ap + i) ≡ s.slot (s.sp - arg_cnt - 1 + i))
          × ((i : ℕ) → i < s.ap → t.slot i ≡ s.slot i))
        (bc_tcall entry arg_cnt locals_cnt s)
bc_tcall-HasFrame {ret} {ap} {fp} entry arg_cnt locals_cnt s f room args used fits locals =
    let p = s.ap + arg_cnt + 1 in
    let f0 = copied s.slot (arg_cnt + 1) (s.sp - arg_cnt - 1) s.ap in
    let down : s.ap ≤ s.sp - arg_cnt - 1 = omega (arith, f.frame) in
    rw (bc_tcall_lem entry arg_cnt locals_cnt s f room args used fits locals) (
      returns (
        framed-HasFrame f0 entry ret s.ap arg_cnt (p + 1 + 1 + 1 + locals_cnt + 1) locals_cnt ap fp
            p s.heap refl f.low (omega arith),
        refl,
        λ i le.
            framed-below f0 p (int_ref ret s.heap) (imm ap) (imm fp) locals_cnt (s.ap + i)
              (omega arith)
            ∙ copied-at s.slot (arg_cnt + 1) (s.sp - arg_cnt - 1) s.ap i down (omega arith),
        λ i lt.
            framed-below f0 p (int_ref ret s.heap) (imm ap) (imm fp) locals_cnt i (omega arith)
            ∙ copied-below s.slot (arg_cnt + 1) (s.sp - arg_cnt - 1) s.ap i lt,
      ))
