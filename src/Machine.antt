-- ===== src/Machine.antt =====
-- vm/stack.h, vm/stack.c and vm/k_integer.c: the stack of the interpreter, its registers, and the
-- frames of calls.
pub mod Frames
pub mod Calls
pub mod Nesting
pub mod Numbers
pub mod Runs
pub mod Balance
pub mod Pieces
pub mod ReturnSelf
mod Tests
use kek_on_rails.Base.{
  ℕ, zero, suc, ◌+◌, ◌-◌, ◌*◌, ◌/◌, none, ltb, leb, ◌==◌, if◌then◌else◌, ◌%◌, ◌^◌,
}
use kek_on_rails.Heap.{Heap, read_obj, gc_obj_malloc, fresh_obj}
use kek_on_rails.Int.{ℤ, pos, negsuc, int_of_word}
use kek_on_rails.Objects.{Value, Body, null, imm, chr, dptr, ptr, int}
use kek_on_rails.Outcome.{Outcome, vm_error, bad_access, ok, stop}
use kek_on_rails.State.{State, pure, ◌>>=◌, ◌>>◌, get, put, halt, check, lift}

abbrev pub stack_size : ℕ
stack_size = 1024 * 4

-- The allocation is larger than the size by the size of a header, of which the three slots that
-- the header takes are not part of the stack.
abbrev pub stack_slots : ℕ
stack_slots = 24 + stack_size - 3

pub record Machine : Type 0 where
  pub slot : ℕ → Value
  pub sp : ℕ
  pub ap : ℕ
  pub fp : ℕ
  pub ip : ℤ
  pub heap : Heap

abbrev pub put_slot : (ℕ → Value) → ℕ → Value → ℕ → Value
put_slot f i v j = if i == j then v else f j

-- An operation on the heap alone.
unfoldable pub on_heap : {A : Type 0} → State Heap A → State Machine A
on_heap m s = elim (m s.heap) [ ok (a, h) ↦ ok (a, record s { heap = h }) | stop e ↦ stop e ]

abbrev pub sizeof_integer : ℕ
sizeof_integer = 32

-- A negative number is an object of its own, any other stands in the reference.
unfoldable pub make_integer : ℤ → State Heap Value
make_integer (pos n) = pure (imm n)
make_integer (negsuc n) = do
  p ← gc_obj_malloc sizeof_integer (fresh_obj none (int (negsuc n)))
  pure (ptr p)

abbrev pub body_int : Body → Outcome ℤ
body_int (int n) = ok n
body_int _ = stop bad_access

-- `INT_VAL`: any reference with its lowest bit set is read as a number in itself, any other as
-- the address of a number. The word of a distance has its two lowest bits set.
unfoldable pub int_val : Value → State Heap ℤ
int_val (imm n) = pure (pos n)
int_val (dptr d) = pure (int_of_word ((d + 3) / 2 % 2 ^ 32))
int_val (ptr p) = do o ← read_obj p; lift (body_int o.body)
int_val null = halt bad_access
int_val (chr c) = halt bad_access

unfoldable pub stack_init : (ℕ → Value) → ℤ → Heap → Machine
stack_init slot ip heap = record { slot = slot; sp = 0; ap = 0; fp = 0; ip = ip; heap = heap }

unfoldable pub stack_push : Value → State Machine (Unit {0})
stack_push v = do
  s ← get
  check (ltb s.sp stack_size) vm_error
  put (record s { slot = put_slot s.slot s.sp v; sp = s.sp + 1 })

-- Below the stack lies the header of its object.
unfoldable pub stack_pop : State Machine Value
stack_pop = do
  s ← get
  check (ltb 0 s.sp) bad_access
  put (record s { sp = s.sp - 1 })
  pure (s.slot (s.sp - 1))

unfoldable pub stack_top : State Machine Value
stack_top = do s ← get; check (ltb 0 s.sp) bad_access; pure (s.slot (s.sp - 1))

-- `stack_g[i]`
unfoldable pub read_slot : ℕ → State Machine Value
read_slot i = do s ← get; check (ltb i stack_slots) bad_access; pure (s.slot i)

unfoldable pub write_slot : ℕ → Value → State Machine (Unit {0})
write_slot i v = do
  s ← get
  check (ltb i stack_slots) bad_access
  put (record s { slot = put_slot s.slot i v })

unfoldable pub push_integer : ℤ → State Machine (Unit {0})
push_integer n = do v ← on_heap (make_integer n); stack_push v

-- The number that a call saved `k` slots below the frame pointer.
unfoldable pub saved : ℕ → State Machine ℤ
saved k = do s ← get; check (leb k s.fp) bad_access; v ← read_slot (s.fp - k); on_heap (int_val v)

-- A saved register: a negative one has no slot to point to.
abbrev pub as_register : ℤ → State Machine ℕ
as_register (pos n) = pure n
as_register (negsuc n) = halt bad_access

-- `for (i = fp_g + 1; i < sp_g; ++i) stack_g[i] = NULL;`
unfoldable pub clear_slots : ℕ → ℕ → State Machine (Unit {0})
clear_slots zero i = pure tt
clear_slots (suc n) i = write_slot i null >> clear_slots n (i + 1)

-- The end of a call, common to BC_CALL and BC_TCALL: the frame pointer and the locals.
unfoldable pub enter : ℤ → ℕ → State Machine (Unit {0})
enter entry locals_cnt = do
  s ← get
  write_slot s.sp null
  clear_slots locals_cnt (s.sp + 1)
  t ← get
  put (record t { fp = s.sp; sp = s.sp + locals_cnt + 1; ip = entry })

unfoldable pub bc_call : ℤ → ℤ → ℕ → ℕ → State Machine (Unit {0})
bc_call entry ret arg_cnt locals_cnt = do
  push_integer ret
  s ← get
  push_integer (pos s.ap)
  t ← get
  check (leb (arg_cnt + 3) t.sp) bad_access
  put (record t { ap = t.sp - arg_cnt - 3 })
  push_integer (pos t.fp)
  enter entry locals_cnt

-- A tail call takes the arguments and the receiver down into the frame of the caller, and keeps
-- what that frame has saved.
unfoldable pub copy_slots : ℕ → ℕ → ℕ → State Machine (Unit {0})
copy_slots zero from to = pure tt
copy_slots (suc n) from to = do
  v ← read_slot from
  write_slot to v
  copy_slots n (from + 1) (to + 1)

unfoldable pub bc_tcall : ℤ → ℕ → ℕ → State Machine (Unit {0})
bc_tcall entry arg_cnt locals_cnt = do
  ret_addr ← saved 3
  caller_ap ← saved 2
  caller_fp ← saved 1
  s ← get
  check (leb (arg_cnt + 1) s.sp) bad_access
  copy_slots (arg_cnt + 1) (s.sp - arg_cnt - 1) s.ap
  t ← get
  put (record t { sp = s.ap + arg_cnt + 1 })
  push_integer ret_addr
  push_integer caller_ap
  push_integer caller_fp
  enter entry locals_cnt

-- The end of a return, common to BC_RET and BC_RET_SELF.
unfoldable pub leave : Value → State Machine (Unit {0})
leave ret_val = do
  s ← get
  put (record s { sp = s.ap })
  ret_addr ← saved 3
  caller_ap ← saved 2
  ap ← as_register caller_ap
  t ← get
  put (record t { ap = ap })
  caller_fp ← saved 1
  fp ← as_register caller_fp
  u ← get
  put (record u { fp = fp })
  stack_push ret_val
  w ← get
  put (record w { ip = ret_addr })

unfoldable pub bc_ret : State Machine (Unit {0})
bc_ret = do v ← stack_pop; leave v

-- `THIS` is the slot below the three saved registers.
unfoldable pub bc_ret_self : State Machine (Unit {0})
bc_ret_self = do s ← get; check (leb 4 s.fp) bad_access; v ← read_slot (s.fp - 4); leave v
