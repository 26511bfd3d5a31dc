-- ===== src/Machine/Tests.antt =====
-- Calls on a small stack.
use kek_on_rails.Base.{ℕ, ◌+◌, ◌-◌, ◌≤◌, ◌<◌, ◌≡◌, refl, none, arith, ◌==◌, if◌then◌else◌, ne→==}
use kek_on_rails.Heap.{Heap, IsHeap}
use kek_on_rails.Int.{pos, negsuc}
use kek_on_rails.Machine.{
  Machine, bc_call, bc_tcall, bc_ret, int_val, stack_push, stack_pop, write_slot, push_integer,
  bc_ret_self, put_slot,
}
use kek_on_rails.Machine.Balance.{call-ret}
use kek_on_rails.Machine.Calls.{HasFrame, called, bc_call_lem}
use kek_on_rails.Machine.Nesting.{Entered, called-HasFrame, bc_call-Entered, bc_tcall-HasFrame}
use kek_on_rails.Machine.Pieces.{stack_ops-Works}
use kek_on_rails.Machine.ReturnSelf.{call-ret_self}
use kek_on_rails.Machine.Runs.{CanCall, Run, returned, bc_ret_lem, done, call, Works, pushes, own}
use kek_on_rails.Objects.{null, chr}
use kek_on_rails.Outcome.{ok}
use kek_on_rails.State.{Returns}

abbrev empty : Heap
empty = record { beginning = 4096; used = 0; size = 1024; const_table = 8; cell = λ _. none }

empty-IsHeap : IsHeap empty
empty-IsHeap = record { fits = omega arith; consts_below = omega arith; unused = λ p u. refl }

-- A receiver, one argument, and a value below them.
abbrev start : Machine
start = record {
  slot = λ i. if i == 1 then chr 65 else if i == 2 then chr 66 else null;
  sp = 3;
  ap = 0;
  fp = 0;
  ip = pos 10;
  heap = empty;
}

start-CanCall : CanCall start (negsuc 0) 1 2
start-CanCall = record {
  heap = empty-IsHeap;
  room = omega arith;
  args = omega arith;
  fits = omega arith;
  locals = omega arith;
}

abbrev inside : Machine
inside = called (pos 40) (negsuc 0) 1 2 start

start_call : bc_call (pos 40) (negsuc 0) 1 2 start ≡ ok (tt, inside)
start_call =
    bc_call_lem (pos 40) (negsuc 0) 1 2 start start-CanCall.room (omega arith) (omega arith)
      (omega arith)

-- The first call makes a second one, of its second local and with its first one as argument.
inside-IsHeap : IsHeap inside.heap
inside-IsHeap = record {
  fits = omega arith;
  consts_below = omega arith;
  unused = λ p u. rw (ne→== 4096 p (λ e. absurd (omega (arith, e)))) refl;
}

inside-CanCall : CanCall inside (pos 44) 0 1
inside-CanCall = record {
  heap = inside-IsHeap;
  room = tt;
  args = omega arith;
  fits = omega arith;
  locals = omega arith;
}

abbrev deeper : Machine
deeper = called (pos 60) (pos 44) 0 1 inside

inside_call : bc_call (pos 60) (pos 44) 0 1 inside ≡ ok (tt, deeper)
inside_call = bc_call_lem (pos 60) (pos 44) 0 1 inside tt (omega arith) (omega arith) (omega arith)

deeper-HasFrame : HasFrame deeper 0 (pos 44) inside.ap inside.fp
deeper-HasFrame = called-HasFrame (pos 60) (pos 44) 0 1 inside (omega arith) (omega arith)

abbrev back : Machine
back = returned deeper (pos 44) inside.ap inside.fp

-- After the call it pushes a character, which is then its result.
abbrev marked : Machine
marked = record back { slot = put_slot back.slot back.sp (chr 67); sp = back.sp + 1 }

push_step : stack_push (chr 67) back ≡ ok (tt, marked)
unfolding stack_push
push_step = refl

inside-Run : Run inside marked
inside-Run =
    call (pos 60) (pos 44) 0 1 inside-CanCall inside_call done (omega arith)
      (bc_ret_lem deeper deeper-HasFrame (omega arith))
      (own (pushes (chr 67) (omega arith) (omega arith) push_step) done)

bc_call-Entered_example :
    Returns (λ _ t. Entered start t (pos 40) (negsuc 0) 1 2) (bc_call (pos 40) (negsuc 0) 1 2 start)
bc_call-Entered_example =
    bc_call-Entered (pos 40) (negsuc 0) 1 2 start start-CanCall.room (omega arith) (omega arith)
      (omega arith)

inside-HasFrame : HasFrame inside 1 (negsuc 0) 0 0
inside-HasFrame = called-HasFrame (pos 40) (negsuc 0) 1 2 start (omega arith) (omega arith)

bc_tcall-HasFrame_example :
    Returns
      (λ _ t.
        HasFrame t 0 (negsuc 0) 0 0
        × (t.ap ≡ inside.ap)
        × ((i : ℕ) → i ≤ 0 → t.slot (t.ap + i) ≡ inside.slot (inside.sp - 0 - 1 + i))
        × ((i : ℕ) → i < inside.ap → t.slot i ≡ inside.slot i))
      (bc_tcall (pos 80) 0 3 inside)
bc_tcall-HasFrame_example =
    bc_tcall-HasFrame (pos 80) 0 3 inside inside-HasFrame (omega arith) (omega arith) (omega arith)
      (omega arith) (omega arith)

call-ret_example :
    Returns
      (λ _ w.
        (w.ap ≡ 0)
        × (w.fp ≡ 0)
        × (w.ip ≡ negsuc 0)
        × (w.sp + 1 ≡ 3)
        × (w.slot (w.sp - 1) ≡ marked.slot (marked.sp - 1))
        × ((i : ℕ) → i + 1 < w.sp → w.slot i ≡ start.slot i))
      (bc_ret marked)
call-ret_example =
    call-ret start (pos 40) (negsuc 0) 1 2 start-CanCall start_call inside-Run (omega arith)

stack_ops-Works_example :
    Returns (λ _ t. Works inside t × (t.slot (t.sp - 1) ≡ chr 67)) (stack_push (chr 67) inside)
    × Returns
        (λ _ t. Works inside t × (int_val (t.slot (t.sp - 1)) t.heap ≡ ok (negsuc 4, t.heap)))
        (push_integer (negsuc 4) inside)
    × Returns
        (λ w t. Works inside t × (w ≡ inside.slot (inside.sp - 1)) × (t.fp < t.sp))
        (stack_pop inside)
    × Returns
        (λ _ t. Works inside t × (t.slot (inside.ap + 0) ≡ chr 67))
        (write_slot (inside.ap + 0) (chr 67) inside)
    × Returns
        (λ _ t. Works inside t × (t.slot (inside.fp + 1 + 1) ≡ chr 67))
        (write_slot (inside.fp + 1 + 1) (chr 67) inside)
stack_ops-Works_example =
    stack_ops-Works inside inside-HasFrame (chr 67) (negsuc 4) 0 1 inside-IsHeap (omega arith)
      (omega arith) (omega arith) (omega arith) (omega arith)

call-ret_self_example :
    Returns
      (λ _ w.
        (w.ap ≡ 0)
        × (w.fp ≡ 0)
        × (w.ip ≡ negsuc 0)
        × (w.sp + 1 ≡ 3)
        × (w.slot (w.sp - 1) ≡ marked.slot (marked.fp - 4))
        × ((i : ℕ) → i + 1 < w.sp → w.slot i ≡ start.slot i))
      (bc_ret_self marked)
call-ret_self_example =
    call-ret_self start (pos 40) (negsuc 0) 1 2 start-CanCall start_call inside-Run
