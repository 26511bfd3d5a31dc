-- ===== src/Machine/ReturnSelf.antt =====
-- vm/stack.h: BC_RET_SELF, by which constructors return.
use kek_on_rails.Base.{ℕ, ◌+◌, ◌-◌, ◌≤◌, ◌<◌, ◌≡◌, refl, ap, ◌∙◌, arith, lt→ltb, le→leb}
use kek_on_rails.Int.{ℤ}
use kek_on_rails.Machine.{stack_slots, Machine, put_slot, read_slot, bc_call, bc_ret_self}
use kek_on_rails.Machine.Balance.{Run-IsInside}
use kek_on_rails.Machine.Calls.{HasFrame, leave_lem}
use kek_on_rails.Machine.Frames.{put_slot_self, put_slot-ne}
use kek_on_rails.Machine.Runs.{CanCall, Run, bc_call-IsInside}
use kek_on_rails.Outcome.{ok}
use kek_on_rails.State.{Returns, returns}

bc_ret_self_lem :
    {cnt : ℕ} {ret : ℤ} {a f : ℕ} (u : Machine)
    → HasFrame u cnt ret a f
    → bc_ret_self u
      ≡ ok (
        tt,
        record u {
          slot = put_slot u.slot u.ap (u.slot (u.fp - 4));
          sp = u.ap + 1;
          ap = a;
          fp = f;
          ip = ret;
        },
      )
unfolding bc_ret_self read_slot
bc_ret_self_lem u fr =
    let high : 4 ≤ u.fp = omega (arith, fr.frame) in
    let low : u.fp - 4 < stack_slots = omega (arith, fr.inside) in
    rw (le→leb 4 u.fp high, lt→ltb (u.fp - 4) stack_slots low, leave_lem (u.slot (u.fp - 4)) u fr)

-- A call for which there is room, a run of its code, whatever is on its stack at the end, and
-- BC_RET_SELF: the return does not stop, the receiver of the frame stands where the first argument
-- stood and is the top of the stack, the registers are those of the caller with the return address, and
-- what lay below the arguments is as it was. The run may be any sequence of pushes, pops above its
-- frame, assignments to its own arguments and slots, jumps and changes of the heap that keep the
-- numbers in it, and of calls and tail calls that have room for their frames, where a call inside is
-- again such a run that returns with a value.
pub call-ret_self :
    (s : Machine) {t u : Machine} (entry ret : ℤ) (arg_cnt locals_cnt : ℕ)
    → CanCall s ret arg_cnt locals_cnt
    → bc_call entry ret arg_cnt locals_cnt s ≡ ok (tt, t)
    → Run t u
    → Returns
        (λ _ w.
          (w.ap ≡ s.ap)
          × (w.fp ≡ s.fp)
          × (w.ip ≡ ret)
          × (w.sp + arg_cnt ≡ s.sp)
          × (w.slot (w.sp - 1) ≡ u.slot (u.fp - 4))
          × ((i : ℕ) → i + 1 < w.sp → w.slot i ≡ s.slot i))
        (bc_ret_self u)
call-ret_self s {u} entry ret arg_cnt locals_cnt can e run =
    let is = Run-IsInside run (bc_call-IsInside entry can e) in
    rw (bc_ret_self_lem u is.frame) (
      returns (
        refl,
        refl,
        refl,
        omega (arith, is.base, can.args),
        ap (put_slot u.slot u.ap (u.slot (u.fp - 4))) (omega arith)
            ∙ put_slot_self u.slot u.ap (u.slot (u.fp - 4)),
        λ i lt.
            put_slot-ne u.slot u.ap i (u.slot (u.fp - 4)) (λ x. absurd (omega (arith, x)))
            ∙ is.below i (omega (arith, is.base)),
      ))
