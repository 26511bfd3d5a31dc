-- ===== src/Interp/Calls.antt =====
-- vm/vm.c: the instructions CALL, CALLS, CALLE and NEW.
use mathlib.Core.Bool.{not}
use kek_on_rails.Array.{alloc_array}
use kek_on_rails.Base.{
  ℕ, zero, suc, ◌+◌, ◌*◌, Bool, true, false, Option, none, some, List, ◌==◌, replicate,
}
use kek_on_rails.Classes.Table.{
  Allocator, Class, no_allocator, udo_allocator, array_allocator, file_allocator, term_allocator,
  exception_allocator,
}
use kek_on_rails.Heap.{Heap, read_obj, gc_obj_malloc, fresh_obj}
use kek_on_rails.Int.{ℤ, pos, negsuc}
use kek_on_rails.Interp.{
  Vm, World, on_machine, heap_op, bc_op8, bc_op16, current_ip, set_ip, operand16, push, top, this,
}
use kek_on_rails.Interp.Members.{const_symbol, found_or_error}
use kek_on_rails.Interp.Sends.{resolve}
use kek_on_rails.Interp.StaticSyms.{class_rec}
use kek_on_rails.Loader.Records.{Method}
use kek_on_rails.Machine.{Machine, bc_call, bc_tcall}
use kek_on_rails.Machine.Calls.{called}
use kek_on_rails.Objects.{cls, file, term, Value, Body, Obj, ptr, expt, udo}
use kek_on_rails.Operators.Bop.{is_nil_body}
use kek_on_rails.Outcome.{vm_error, assertion, bad_access}
use kek_on_rails.State.{State, pure, ◌>>=◌, ◌>>◌, get, put, halt, check, lift}

-- The class in which the method is searched, and whether the call is static: the receiver is a class
-- itself, or an object of one.
abbrev pub receiver_class : Obj → Body → State Vm (ℕ × Bool)
receiver_class o (cls k) = pure (k, true)
receiver_class o _ = do k ← found_or_error o.cls; pure (k, false)

-- The receiver must be a pointer, and not to nil; then the name must be a symbol.
abbrev pub receiver_checked : Value → ℕ → State Vm ((Option ℕ × List ℕ) × (ℕ × Bool))
receiver_checked (ptr p) arg = do
  o ← heap_op (read_obj p)
  on_machine (check (not (is_nil_body o.body)) vm_error)
  named ← const_symbol arg
  found ← receiver_class o o.body
  pure (named, found)
receiver_checked v arg = halt vm_error

-- CALLS searches in the class that goes with the method's name.
abbrev pub searched_class : Bool → Option ℕ → ℕ → State Vm ℕ
searched_class false named k = pure k
searched_class true (some k') k = pure k'
searched_class true none k = halt assertion

abbrev pub ret_opcode : ℕ
ret_opcode = 13

-- BC_TCALL in front of a return, and BC_CALL elsewhere.
abbrev pub enter_method : Bool → ℤ → ℤ → Method → State Machine (Unit {0})
enter_method true entry ret m = bc_tcall entry m.args_cnt m.locals_cnt
enter_method false entry ret m = bc_call entry ret m.args_cnt m.locals_cnt

-- `NATIVE` is -1: a native method runs at once.
abbrev pub run_method : World → Bool → Method → Bool → State Vm (Unit {0})
run_method w tail_call m true = do
  i ← current_ip
  on_machine (enter_method tail_call (negsuc 0) (pos i) m)
  on_machine (w.native m)
run_method w tail_call m false = do
  i ← current_ip
  on_machine (enter_method tail_call (pos m.bc_addr) (pos i) m)

-- `resolve` on the state.
unfoldable pub resolved : ℕ → ℕ → ℕ → List ℕ → Bool → ℕ → State Vm Method
resolved fuel site k name static_call argc = do
  s ← get
  found ← lift (resolve fuel s.classes s.cache site k name static_call argc)
  put (record s { cache = found.1 })
  pure found.0

-- CALLE, and with `super` set the end of CALLS. The two operands are followed by the cache, which
-- takes 16 bytes.
unfoldable pub calle : World → ℕ → Bool → State Vm (Unit {0})
calle w fuel super = do
  arg1 ← operand16
  i ← current_ip
  arg2 ← bc_op16 i
  set_ip (i + 18)
  next ← bc_op8 (i + 18)
  obj ← top
  called ← receiver_checked obj arg1
  k ← searched_class super called.0.0 called.1.0
  m ← resolved fuel (i + 2) k called.0.1 called.1.1 arg2
  run_method w (next == ret_opcode) m m.is_native

-- CALL and CALLS push the receiver of the running method first.
unfoldable pub call : World → ℕ → Bool → State Vm (Unit {0})
call w fuel super = do v ← this; push v; calle w fuel super

-- `alloc_udo`: the room for one variable is taken as that of a whole object.
abbrev pub udo_alloc_size : ℕ → ℕ
udo_alloc_size zero = 40
udo_alloc_size (suc n) = 40 + n * 48

unfoldable pub alloc_udo : World → ℕ → Class → State Heap ℕ
alloc_udo w k c =
    gc_obj_malloc (udo_alloc_size (c.total_syms_instance_cnt + c.syms_instance_offset)) (
      fresh_obj (some k) (
        udo c.syms_instance_offset
          (replicate (c.total_syms_instance_cnt + c.syms_instance_offset) w.junk)))

-- `cls->allocator(cls)`
abbrev pub allocate : World → ℕ → Class → Allocator → State Heap ℕ
allocate w k c no_allocator = halt bad_access
allocate w k c udo_allocator = alloc_udo w k c
allocate w k c array_allocator = alloc_array k
allocate w k c file_allocator = gc_obj_malloc 40 (fresh_obj (some k) file)
allocate w k c term_allocator = gc_obj_malloc 24 (fresh_obj (some k) term)
allocate w k c exception_allocator = gc_obj_malloc 40 (fresh_obj (some k) (expt w.junk))

-- A constructor is called as a method with the new object as its receiver, never as a tail call.
abbrev pub construct : World → ℕ → Option Method → State Vm (Unit {0})
construct w argc none = pure tt
construct w argc (some m) = do
  on_machine (check (m.args_cnt == argc) vm_error)
  run_method w false m m.is_native

-- NEW
unfoldable pub new_obj : World → State Vm (Unit {0})
new_obj w = do
  arg1 ← operand16
  i ← current_ip
  arg2 ← bc_op16 i
  set_ip (i + 2)
  named ← const_symbol arg1
  k ← found_or_error named.0
  s ← get
  c ← lift (class_rec s.classes k)
  p ← heap_op (allocate w k c c.allocator)
  push (ptr p)
  construct w arg2 c.constructor
