-- ===== src/Machine/Balance.antt =====
-- vm/stack.h: a call, a run of its code, and the return.
use mathlib.Core.Path.{subst}
use kek_on_rails.Base.{ℕ, ◌+◌, ◌-◌, ◌≤◌, ◌<◌, ◌≡◌, refl, sym, ap, ◌∙◌, arith}
use kek_on_rails.Int.{ℤ}
use kek_on_rails.Interp.{top}
use kek_on_rails.Machine.{Machine, put_slot, bc_call, bc_tcall, bc_ret}
use kek_on_rails.Machine.Calls.{bc_tcall_lem}
use kek_on_rails.Machine.Frames.{
  copied, put_slot_self, put_slot-ne, copied-below, int_ref, framed-below,
}
use kek_on_rails.Machine.Nesting.{framed-HasFrame}
use kek_on_rails.Machine.Numbers.{int_heap-KeepsInts, HasRoom-of}
use kek_on_rails.Machine.Pieces.{OwnStep-Works}
use kek_on_rails.Machine.Runs.{
  Works, CanCall, CanTail, Run, IsInside, bc_ret_lem, bc_call-IsInside, done, IsInside-Works,
  ok_state, returned-Works, call, tail, own,
}
use kek_on_rails.Objects.{imm}
use kek_on_rails.Outcome.{ok}
use kek_on_rails.State.{Returns, returns}

tail_called-IsInside :
    {s t u : Machine} (entry : ℤ) {ret : ℤ} {b arg_cnt locals_cnt : ℕ}
    → IsInside s ret b t
    → CanTail t arg_cnt locals_cnt
    → bc_tcall entry arg_cnt locals_cnt t ≡ ok (tt, u)
    → IsInside s ret b u
tail_called-IsInside {s} {t} {u} entry {ret} {b} {arg_cnt} {locals_cnt} is can e =
    let p = t.ap + arg_cnt + 1 in
    let f = copied t.slot (arg_cnt + 1) (t.sp - arg_cnt - 1) t.ap in
    let h = t.heap in
    subst (IsInside s ret b)
      (ok_state (
        sym (
          bc_tcall_lem entry arg_cnt locals_cnt t is.frame (HasRoom-of ret h can.room) can.args
            can.used can.fits can.locals)
        ∙ e))
      (record {
        cnt = arg_cnt;
        frame =
            framed-HasFrame f entry ret t.ap arg_cnt (p + 1 + 1 + 1 + locals_cnt + 1) locals_cnt
              s.ap s.fp p h refl is.frame.low (omega (arith, can.locals));
        base = is.base;
        below = λ i lt.
            framed-below f p (int_ref ret h) (imm s.ap) (imm s.fp) locals_cnt i
              (omega (arith, is.base))
            ∙ copied-below t.slot (arg_cnt + 1) (t.sp - arg_cnt - 1) t.ap i (omega (arith, is.base))
            ∙ is.below i lt;
        numbers = λ v n x. int_heap-KeepsInts ret h can.heap v n (is.numbers v n x);
      })

-- The code of a call stays inside it: after steps that mind their frame, calls that return and tail
-- calls that replace the frame, the frame still holds the return address and the registers of the
-- caller, and the caller's stack is untouched.
pub Run-IsInside :
    {t u : Machine}
    → Run t u
    → {s : Machine} {ret : ℤ} {b : ℕ} → IsInside s ret b t
    → IsInside s ret b u
Run-IsInside done is = is
Run-IsInside {t} (own o run) is = Run-IsInside run (IsInside-Works is (OwnStep-Works t is.frame o))
Run-IsInside (tail entry arg_cnt locals_cnt can e run) is =
    Run-IsInside run (tail_called-IsInside entry is can e)
Run-IsInside {t} (call {u} {w} entry ret arg_cnt locals_cnt can e inner top back run) is =
    let in_u = Run-IsInside inner (bc_call-IsInside entry can e) in
    let back' = ok_state (sym (bc_ret_lem u in_u.frame (omega (arith, top))) ∙ back) in
    let works : Works t w = subst (Works t) back' (returned-Works is.cnt can is.frame.frame in_u) in
    Run-IsInside run (IsInside-Works is works)

-- A call for which there is room, a run of its code that ends with a value on its stack, and BC_RET:
-- the return does not stop, the value stands where the first argument stood and is the top of the stack,
-- the registers are those of the caller with the return address, and what lay below the arguments is as
-- it was. The run may be any sequence of pushes, pops above its frame, assignments to its own
-- arguments and slots, jumps and changes of the heap that keep the numbers in it, and of calls and
-- tail calls that have room for their frames, where a call inside is again such a run that returns
-- with a value.
pub call-ret :
    (s : Machine) {t u : Machine} (entry ret : ℤ) (arg_cnt locals_cnt : ℕ)
    → CanCall s ret arg_cnt locals_cnt
    → bc_call entry ret arg_cnt locals_cnt s ≡ ok (tt, t)
    → Run t u
    → u.fp + 2 ≤ u.sp
    → Returns
        (λ _ w.
          (w.ap ≡ s.ap)
          × (w.fp ≡ s.fp)
          × (w.ip ≡ ret)
          × (w.sp + arg_cnt ≡ s.sp)
          × (w.slot (w.sp - 1) ≡ u.slot (u.sp - 1))
          × ((i : ℕ) → i + 1 < w.sp → w.slot i ≡ s.slot i))
        (bc_ret u)
call-ret s {u} entry ret arg_cnt locals_cnt can e run top =
    let is = Run-IsInside run (bc_call-IsInside entry can e) in
    rw (bc_ret_lem u is.frame (omega (arith, top))) (
      returns (
        refl,
        refl,
        refl,
        omega (arith, is.base, can.args),
        ap (put_slot u.slot u.ap (u.slot (u.sp - 1))) (omega arith)
            ∙ put_slot_self u.slot u.ap (u.slot (u.sp - 1)),
        λ i lt.
            put_slot-ne u.slot u.ap i (u.slot (u.sp - 1)) (λ x. absurd (omega (arith, x)))
            ∙ is.below i (omega (arith, is.base)),
      ))
