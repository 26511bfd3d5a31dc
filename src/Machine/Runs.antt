-- ===== src/Machine/Runs.antt =====
-- Runs of the code of a call over vm/stack.h: calls inside it, tail calls, and other instructions.
use mathlib.Core.Path.{subst}
use kek_on_rails.Base.{ℕ, ◌+◌, ◌≤◌, ◌<◌, ◌≡◌, ap, sym, ◌∙◌, arith, ◌-◌, refl, lt→ltb, ◌⊎◌}
use kek_on_rails.Heap.{IsHeap, Heap}
use kek_on_rails.Int.{ℤ, pos}
use kek_on_rails.Machine.{
  stack_size, stack_slots, Machine, int_val, bc_call, bc_ret, put_slot, sizeof_integer, stack_pop,
  bc_tcall, stack_push, write_slot, push_integer,
}
use kek_on_rails.Machine.Calls.{HasFrame, leave_lem, called, bc_call_lem}
use kek_on_rails.Machine.Frames.{HasRoom, put_slot-ne, int_ref, framed-below}
use kek_on_rails.Machine.Nesting.{called-HasFrame}
use kek_on_rails.Machine.Numbers.{KeepsInts, int_heap-KeepsInts}
use kek_on_rails.Objects.{imm, Value}
use kek_on_rails.Outcome.{ok, Outcome}

-- What an instruction that is no call leaves: the registers of the frame, what lies below the
-- arguments, the three saved registers, and the numbers in the heap.
pub record Works (s t : Machine) : Type 0 where
  pub same_ap : t.ap ≡ s.ap
  pub same_fp : t.fp ≡ s.fp
  pub below : (i : ℕ) → i < s.ap → t.slot i ≡ s.slot i
  pub saved : (i : ℕ) → i < s.fp → s.fp ≤ i + 3 → t.slot i ≡ s.slot i
  pub numbers : KeepsInts s.heap t.heap

-- What a call needs: the receiver and the arguments above the frame, and room for the new one.
pub record CanCall (s : Machine) (ret : ℤ) (arg_cnt locals_cnt : ℕ) : Type 0 where
  pub heap : IsHeap s.heap
  pub room : HasRoom ret s.heap
  pub args : s.fp + arg_cnt + 2 ≤ s.sp
  pub fits : s.sp + 3 ≤ stack_size
  pub locals : s.sp + 3 + locals_cnt < stack_slots

-- A tail call needs them too; that the return address can be saved again, negative or not, is the
-- room for one number.
pub record CanTail (s : Machine) (arg_cnt locals_cnt : ℕ) : Type 0 where
  pub heap : IsHeap s.heap
  pub room : s.heap.used + sizeof_integer ≤ s.heap.size
  pub args : s.fp + arg_cnt + 2 ≤ s.sp
  pub used : s.sp ≤ stack_slots
  pub fits : s.ap + arg_cnt + 4 ≤ stack_size
  pub locals : s.ap + arg_cnt + 4 + locals_cnt < stack_slots

-- A step of the code of a call that is no call and minds its frame: it pushes a reference or a number,
-- pops what is above the frame, assigns to an argument, the receiver or a slot from the frame
-- pointer on, jumps, or changes the heap but for the numbers in it.
pub data OwnStep : Machine → Machine → Type 0 where
  pushes :
      {s t : Machine} (v : Value)
      → s.fp < s.sp
      → s.sp < stack_size
      → stack_push v s ≡ ok (tt, t)
      → OwnStep s t
  pushes_integer :
      {s t : Machine} (n : ℤ)
      → IsHeap s.heap
      → HasRoom n s.heap
      → s.fp < s.sp
      → s.sp < stack_size
      → push_integer n s ≡ ok (tt, t)
      → OwnStep s t
  pops : {s t : Machine} (v : Value) → s.fp + 1 < s.sp → stack_pop s ≡ ok (v, t) → OwnStep s t
  assigns :
      {s t : Machine} (i : ℕ) (v : Value)
      → i < stack_slots
      → (s.ap ≤ i × (i + 4 ≤ s.fp)) ⊎ (s.fp ≤ i)
      → write_slot i v s ≡ ok (tt, t)
      → OwnStep s t
  jumps : {s : Machine} (to : ℤ) → OwnStep s (record s { ip = to })
  heap_changes : {s : Machine} (h : Heap) → KeepsInts s.heap h → OwnStep s (record s { heap = h })

-- A run of the code of one call, from one of its states to another one. A call inside it is the
-- code of that call, with a value on its stack at the end, and its return.
pub data Run : Machine → Machine → Type 0 where
  done : {s : Machine} → Run s s
  own : {s t u : Machine} → OwnStep s t → Run t u → Run s u
  call :
      {s t u w x : Machine} (entry ret : ℤ) (arg_cnt locals_cnt : ℕ)
      → CanCall s ret arg_cnt locals_cnt
      → bc_call entry ret arg_cnt locals_cnt s ≡ ok (tt, t)
      → Run t u
      → u.fp + 2 ≤ u.sp
      → bc_ret u ≡ ok (tt, w)
      → Run w x
      → Run s x
  tail :
      {s t u : Machine} (entry : ℤ) (arg_cnt locals_cnt : ℕ)
      → CanTail s arg_cnt locals_cnt
      → bc_tcall entry arg_cnt locals_cnt s ≡ ok (tt, t)
      → Run t u
      → Run s u

-- Inside a call that was made in `s` and whose arguments begin at `b`.
pub record IsInside (s : Machine) (ret : ℤ) (b : ℕ) (t : Machine) : Type 0 where
  pub cnt : ℕ
  pub frame : HasFrame t cnt ret s.ap s.fp
  pub base : t.ap ≡ b
  pub below : (i : ℕ) → i < b → t.slot i ≡ s.slot i
  pub numbers : KeepsInts s.heap t.heap

-- The machine after BC_RET with `v` on top
abbrev pub returned : Machine → ℤ → ℕ → ℕ → Machine
returned u ret ap fp = record u {
  slot = put_slot u.slot u.ap (u.slot (u.sp - 1));
  sp = u.ap + 1;
  ap = ap;
  fp = fp;
  ip = ret;
}

pub bc_ret_lem :
    {cnt : ℕ} {ret : ℤ} {ap fp : ℕ} (u : Machine)
    → HasFrame u cnt ret ap fp
    → 0 < u.sp
    → bc_ret u ≡ ok (tt, returned u ret ap fp)
unfolding bc_ret stack_pop
bc_ret_lem {cnt} {ret} {ap} {fp} u f full =
    let u1 : Machine = record u { sp = u.sp - 1 } in
    let f1 : HasFrame u1 cnt ret ap fp = record {
      frame = f.frame;
      low = f.low;
      inside = f.inside;
      saved_ret = f.saved_ret;
      saved_ap = f.saved_ap;
      saved_fp = f.saved_fp;
    } in
    rw (lt→ltb 0 u.sp full, leave_lem (u.slot (u.sp - 1)) u1 f1)

int_val-Works :
    (s t : Machine) (cnt k : ℕ) (n : ℤ)
    → Works s t
    → s.fp ≡ s.ap + cnt + 4
    → 1 ≤ k
    → k ≤ 3
    → int_val (s.slot (s.ap + cnt + k)) s.heap ≡ ok (n, s.heap)
    → int_val (t.slot (t.ap + cnt + k)) t.heap ≡ ok (n, t.heap)
int_val-Works s t cnt k n w frame low high e =
    let at : t.slot (t.ap + cnt + k) ≡ s.slot (s.ap + cnt + k) =
      ap (λ a. t.slot (a + cnt + k)) w.same_ap
      ∙ w.saved (s.ap + cnt + k) (omega (arith, frame)) (omega (arith, frame)) in
    subst (λ v. int_val v t.heap ≡ ok (n, t.heap)) (sym at)
      (w.numbers (s.slot (s.ap + cnt + k)) n e)

-- A frame stays one while its registers, its saved slots and the numbers stay.
HasFrame-Works :
    {cnt : ℕ} {ret : ℤ} {a f : ℕ} (s t : Machine)
    → Works s t
    → HasFrame s cnt ret a f
    → HasFrame t cnt ret a f
HasFrame-Works {cnt} {ret} {a} {f} s t w fr = record {
  frame = w.same_fp ∙ fr.frame ∙ ap (λ b. b + cnt + 4) (sym w.same_ap);
  low = subst (λ b. b < stack_size) (sym w.same_ap) fr.low;
  inside = subst (λ b. b < stack_slots) (sym w.same_fp) fr.inside;
  saved_ret = int_val-Works s t cnt 1 ret w fr.frame (omega arith) (omega arith) fr.saved_ret;
  saved_ap = int_val-Works s t cnt 2 (pos a) w fr.frame (omega arith) (omega arith) fr.saved_ap;
  saved_fp = int_val-Works s t cnt 3 (pos f) w fr.frame (omega arith) (omega arith) fr.saved_fp;
}

pub IsInside-Works :
    {s t u : Machine} {ret : ℤ} {b : ℕ} → IsInside s ret b t → Works t u → IsInside s ret b u
IsInside-Works {s} {t} {u} is w = record {
  cnt = is.cnt;
  frame = HasFrame-Works t u w is.frame;
  base = w.same_ap ∙ is.base;
  below = λ i lt. w.below i (subst (λ a. i < a) (sym is.base) lt) ∙ is.below i lt;
  numbers = λ v n e. w.numbers v n (is.numbers v n e);
}

pub ok_state :
    {s t : Machine} → ◌≡◌ {A = Outcome (Unit {0} × Machine)} (ok (tt, s)) (ok (tt, t)) → s ≡ t
ok_state e = cc

-- A call puts the machine inside it.
pub bc_call-IsInside :
    {s t : Machine} (entry : ℤ) {ret : ℤ} {arg_cnt locals_cnt : ℕ}
    → CanCall s ret arg_cnt locals_cnt
    → bc_call entry ret arg_cnt locals_cnt s ≡ ok (tt, t)
    → IsInside s ret (s.sp - arg_cnt - 1) t
bc_call-IsInside {s} {t} entry {ret} {arg_cnt} {locals_cnt} can e =
    let done : bc_call entry ret arg_cnt locals_cnt s
        ≡ ok (tt, called entry ret arg_cnt locals_cnt s) =
      bc_call_lem entry ret arg_cnt locals_cnt s can.room (omega (arith, can.args)) can.fits
        can.locals in
    subst (IsInside s ret (s.sp - arg_cnt - 1)) (ok_state (sym done ∙ e)) (record {
      cnt = arg_cnt;
      frame = called-HasFrame entry ret arg_cnt locals_cnt s (omega (arith, can.args)) can.fits;
      base = omega (arith, can.args);
      below = λ i lt.
          framed-below s.slot s.sp (int_ref ret s.heap) (imm s.ap) (imm s.fp) locals_cnt i
            (omega arith);
      numbers = int_heap-KeepsInts ret s.heap can.heap;
    })

-- After a call and its return the caller has only worked: its frame is untouched.
pub returned-Works :
    {s u : Machine} {ret : ℤ} {arg_cnt locals_cnt : ℕ} (cnt : ℕ)
    → CanCall s ret arg_cnt locals_cnt
    → s.fp ≡ s.ap + cnt + 4
    → IsInside s ret (s.sp - arg_cnt - 1) u
    → Works s (returned u ret s.ap s.fp)
returned-Works {s} {u} {arg_cnt} cnt can frame is = record {
  same_ap = refl;
  same_fp = refl;
  below = λ i lt.
      put_slot-ne u.slot u.ap i (u.slot (u.sp - 1))
        (λ e. absurd (omega (arith, e, is.base, can.args)))
      ∙ is.below i (omega (arith, can.args));
  saved = λ i lt _.
      put_slot-ne u.slot u.ap i (u.slot (u.sp - 1))
        (λ e. absurd (omega (arith, e, is.base, can.args)))
      ∙ is.below i (omega (arith, can.args));
  numbers = is.numbers;
}
