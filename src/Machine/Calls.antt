-- ===== src/Machine/Calls.antt =====
-- The macros BC_CALL, BC_TCALL, BC_RET and BC_RET_SELF of vm/stack.h.
use kek_on_rails.Base.{ℕ, ◌+◌, ◌-◌, ◌<◌, ◌≡◌, arith, lt→ltb, le→leb, ◌≤◌, ap}
use kek_on_rails.Int.{ℤ, pos}
use kek_on_rails.Machine.{
  stack_size, stack_slots, Machine, put_slot, on_heap, int_val, stack_push, read_slot, saved, leave,
  bc_call, bc_tcall,
}
use kek_on_rails.Machine.Frames.{
  int_ref, int_heap, HasRoom, push_integer_lem, enter_lem, copied, copy_slots_lem, framed,
}
use kek_on_rails.Objects.{Value, imm}
use kek_on_rails.Outcome.{ok}

-- The frame of a call with `arg_cnt` arguments: the arguments, the receiver, the three saved
-- registers, and the slot that the frame pointer points to.
pub record HasFrame (s : Machine) (arg_cnt : ℕ) (ret : ℤ) (ap fp : ℕ) : Type 0 where
  pub frame : s.fp ≡ s.ap + arg_cnt + 4
  pub low : s.ap < stack_size
  pub inside : s.fp < stack_slots
  pub saved_ret : int_val (s.slot (s.ap + arg_cnt + 1)) s.heap ≡ ok (ret, s.heap)
  pub saved_ap : int_val (s.slot (s.ap + arg_cnt + 2)) s.heap ≡ ok (pos ap, s.heap)
  pub saved_fp : int_val (s.slot (s.ap + arg_cnt + 3)) s.heap ≡ ok (pos fp, s.heap)

minus : (i k : ℕ) → i + k - k ≡ i
minus i k = omega arith

pub saved_lem :
    (s : Machine) (k i : ℕ) (n : ℤ)
    → s.fp ≡ i + k
    → i < stack_slots
    → int_val (s.slot i) s.heap ≡ ok (n, s.heap)
    → saved k s ≡ ok (n, s)
unfolding saved read_slot on_heap
saved_lem s k i n e h v =
    rw (saved, e, le→leb k (i + k) (omega arith), minus i k, lt→ltb i stack_slots h, on_heap, v)

pub leave_lem :
    {arg_cnt : ℕ} {ret : ℤ} {ap fp : ℕ} (v : Value) (s : Machine)
    → HasFrame s arg_cnt ret ap fp
    → leave v s
      ≡ ok (
        tt,
        record s { slot = put_slot s.slot s.ap v; sp = s.ap + 1; ap = ap; fp = fp; ip = ret },
      )
unfolding leave stack_push
leave_lem {arg_cnt} {ret} {ap} {fp} v s f =
    let s1 : Machine = record s { sp = s.ap } in
    let s2 : Machine = record s1 { ap = ap } in
    rw (
      saved_lem s1 3 (s.ap + arg_cnt + 1) ret (omega (arith, f.frame))
          (omega (arith, f.frame, f.inside)) f.saved_ret,
      saved_lem s1 2 (s.ap + arg_cnt + 2) (pos ap) (omega (arith, f.frame))
          (omega (arith, f.frame, f.inside)) f.saved_ap,
      saved_lem s2 1 (s.ap + arg_cnt + 3) (pos fp) (omega (arith, f.frame))
          (omega (arith, f.frame, f.inside)) f.saved_fp,
      lt→ltb s.ap stack_size f.low,
    )

-- The machine after BC_CALL
abbrev pub called : ℤ → ℤ → ℕ → ℕ → Machine → Machine
called entry ret arg_cnt locals_cnt s = record {
  slot = framed s.slot s.sp (int_ref ret s.heap) (imm s.ap) (imm s.fp) locals_cnt;
  sp = s.sp + 1 + 1 + 1 + locals_cnt + 1;
  ap = s.sp + 1 + 1 - arg_cnt - 3;
  fp = s.sp + 1 + 1 + 1;
  ip = entry;
  heap = int_heap ret s.heap;
}

pub bc_call_lem :
    (entry ret : ℤ) (arg_cnt locals_cnt : ℕ) (s : Machine)
    → HasRoom ret s.heap
    → arg_cnt + 1 ≤ s.sp
    → s.sp + 3 ≤ stack_size
    → s.sp + 3 + locals_cnt < stack_slots
    → bc_call entry ret arg_cnt locals_cnt s ≡ ok (tt, called entry ret arg_cnt locals_cnt s)
unfolding bc_call
bc_call_lem entry ret arg_cnt locals_cnt s room args fits locals =
    let s1 : Machine = record s {
      slot = put_slot s.slot s.sp (int_ref ret s.heap);
      sp = s.sp + 1;
      heap = int_heap ret s.heap;
    } in
    let s2 : Machine = record s1 {
      slot = put_slot s1.slot (s.sp + 1) (imm s.ap);
      sp = s.sp + 1 + 1;
    } in
    let s3 : Machine = record s2 { ap = s.sp + 1 + 1 - arg_cnt - 3 } in
    let s4 : Machine = record s3 {
      slot = put_slot s2.slot (s.sp + 1 + 1) (imm s.fp);
      sp = s.sp + 1 + 1 + 1;
    } in
    rw (
      push_integer_lem ret s room (omega arith),
      push_integer_lem (pos s.ap) s1 tt (omega arith),
      le→leb (arg_cnt + 3) (s.sp + 1 + 1) (omega arith),
      push_integer_lem (pos s.fp) s3 tt (omega arith),
      enter_lem entry locals_cnt s4 (omega arith),
    )

-- The machine after BC_TCALL
abbrev pub tail_called : ℤ → ℤ → ℕ → ℕ → ℕ → ℕ → Machine → Machine
tail_called entry ret ap fp arg_cnt locals_cnt s =
    let p = s.ap + arg_cnt + 1 in
    let f = copied s.slot (arg_cnt + 1) (s.sp - arg_cnt - 1) s.ap in
    record {
      slot = framed f p (int_ref ret s.heap) (imm ap) (imm fp) locals_cnt;
      sp = p + 1 + 1 + 1 + locals_cnt + 1;
      ap = s.ap;
      fp = p + 1 + 1 + 1;
      ip = entry;
      heap = int_heap ret s.heap;
    }

pub bc_tcall_lem :
    {old_cnt : ℕ} {ret : ℤ} {ap fp : ℕ} (entry : ℤ) (arg_cnt locals_cnt : ℕ) (s : Machine)
    → HasFrame s old_cnt ret ap fp
    → HasRoom ret s.heap
    → s.fp + arg_cnt + 2 ≤ s.sp
    → s.sp ≤ stack_slots
    → s.ap + arg_cnt + 4 ≤ stack_size
    → s.ap + arg_cnt + 4 + locals_cnt < stack_slots
    → bc_tcall entry arg_cnt locals_cnt s
      ≡ ok (tt, tail_called entry ret ap fp arg_cnt locals_cnt s)
unfolding bc_tcall
bc_tcall_lem {old_cnt} {ret} {ap} {fp} entry arg_cnt locals_cnt s f room args used fits locals =
    let p = s.ap + arg_cnt + 1 in
    let f0 = copied s.slot (arg_cnt + 1) (s.sp - arg_cnt - 1) s.ap in
    let s1 : Machine = record s { slot = f0; sp = p } in
    let s2 : Machine = record s1 {
      slot = put_slot f0 p (int_ref ret s.heap);
      sp = p + 1;
      heap = int_heap ret s.heap;
    } in
    let s3 : Machine = record s2 { slot = put_slot s2.slot (p + 1) (imm ap); sp = p + 1 + 1 } in
    let s4 : Machine = record s3 {
      slot = put_slot s3.slot (p + 1 + 1) (imm fp);
      sp = p + 1 + 1 + 1;
    } in
    rw (
      saved_lem s 3 (s.ap + old_cnt + 1) ret (omega (arith, f.frame))
          (omega (arith, f.frame, f.inside)) f.saved_ret,
      saved_lem s 2 (s.ap + old_cnt + 2) (pos ap) (omega (arith, f.frame))
          (omega (arith, f.frame, f.inside)) f.saved_ap,
      saved_lem s 1 (s.ap + old_cnt + 3) (pos fp) (omega (arith, f.frame))
          (omega (arith, f.frame, f.inside)) f.saved_fp,
      le→leb (arg_cnt + 1) s.sp (omega arith),
      copy_slots_lem (arg_cnt + 1) (s.sp - arg_cnt - 1) s.ap s (omega arith)
          (omega (arith, f.frame)),
      push_integer_lem ret s1 room (omega arith),
      push_integer_lem (pos ap) s2 tt (omega arith),
      push_integer_lem (pos fp) s3 tt (omega arith),
      enter_lem entry locals_cnt s4 (omega arith),
    )
