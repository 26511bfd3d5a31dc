-- ===== src/Interp/Step.antt =====
-- vm/vm.c: the loop of `vm_execute_bc` over the instructions. The collector, which the loop may call
-- after an instruction, prints figures and changes nothing.
use mathlib.Core.Bool.{not}
use kek_on_rails.Array.{read_arr, arr_set_length, native_grow_array, is_arr}
use kek_on_rails.Base.{
  ℕ, ◌+◌, ◌-◌, Bool, true, false, Option, none, some, List, [], ◌∷◌, leb, ◌==◌, if◌then◌else◌, zero,
  suc, get_elem?,
}
use kek_on_rails.Exceptions.{is_null, vm_throw_obj}
use kek_on_rails.Heap.{Heap, read_obj}
use kek_on_rails.Indexing.{idx}
use kek_on_rails.Int.{ℤ, pos, negsuc}
use kek_on_rails.Interp.{
  Vm, World, on_machine, heap_op, next_ip, operand16, push, pop, top, arg_slot, loc_slot,
  const_addr, stack_dptr, slot_dptr, load_through, store_through, Written, bc_op8, current_ip,
  set_ip, operand8, this, wrote_char, wrote_int, wrote_text,
}
use kek_on_rails.Interp.Calls.{call, calle, new_obj}
use kek_on_rails.Interp.Members.{
  labi_cv, labi_cve, lvbi_cv, lvbi_cve, lvbs_cve, labs_cve, labi_iv, lvbi_iv, lvbs_ive, labs_ive,
  ld_class,
}
use kek_on_rails.Machine.{int_val, read_slot, write_slot, Machine, bc_ret, bc_ret_self}
use kek_on_rails.Machine.Runs.{returned}
use kek_on_rails.Objects.{Value, ArrayHead, null, ptr, Body, chr, str, exinfo}
use kek_on_rails.Operators.{
  Op, plus, minus, times, divide, modulo, eq_op, not_eq, less, greater, less_or_eq, greater_or_eq,
  log_or, log_and, bit_or_op, bit_and_op, xor_op, lsh, rsh,
}
use kek_on_rails.Operators.Bop.{is_int, cstring, bop, unm, not_op, ifnj}
use kek_on_rails.Outcome.{vm_error, assertion, bad_access, out_of_fuel}
use kek_on_rails.State.{State, pure, ◌>>=◌, ◌>>◌, get, halt, check, put}

-- The instructions that the loop knows, by the words of bc.h.
pub data Bc : Type 0 where
  i_nop i_bop i_unm i_dr i_st i_ifnj i_ju i_wrt i_rd i_dup i_swap i_not i_stop i_ret : Bc
  i_call i_calls i_calle i_lvbi_c i_lvbi_arg i_lvbi_loc i_lvbi_iv i_lvbi_cv i_lvbi_cve : Bc
  i_lvbs_ive i_lvbs_cve i_ld_self i_ld_class i_labi_arg i_labi_loc i_labi_iv i_labi_cv : Bc
  i_labi_cve i_labs_ive i_labs_cve i_idx i_idxa i_new i_ret_self i_ld_exobj i_st_exinfo : Bc
  i_throw i_pop : Bc

abbrev pub all_bc : List Bc
all_bc =
    i_nop ∷ i_bop ∷ i_unm ∷ i_dr ∷ i_st ∷ i_ifnj ∷ i_ju ∷ i_wrt ∷ i_rd ∷ i_dup ∷ i_swap ∷ i_not
    ∷ i_stop ∷ i_ret ∷ i_call ∷ i_calls ∷ i_calle ∷ i_lvbi_c ∷ i_lvbi_arg ∷ i_lvbi_loc ∷ i_lvbi_iv
    ∷ i_lvbi_cv ∷ i_lvbi_cve ∷ i_lvbs_ive ∷ i_lvbs_cve ∷ i_ld_self ∷ i_ld_class ∷ i_labi_arg
    ∷ i_labi_loc ∷ i_labi_iv ∷ i_labi_cv ∷ i_labi_cve ∷ i_labs_ive ∷ i_labs_cve ∷ i_idx ∷ i_idxa
    ∷ i_new ∷ i_ret_self ∷ i_ld_exobj ∷ i_st_exinfo ∷ i_throw ∷ i_pop ∷ []

abbrev pub all_ops : List Op
all_ops =
    plus ∷ minus ∷ times ∷ divide ∷ modulo ∷ eq_op ∷ not_eq ∷ less ∷ greater ∷ less_or_eq
    ∷ greater_or_eq ∷ log_or ∷ log_and ∷ bit_or_op ∷ bit_and_op ∷ xor_op ∷ lsh ∷ rsh ∷ []

-- Variables on the stack, and constants.
unfoldable pub lvbi_c : State Vm (Unit {0})
lvbi_c = do arg ← operand16; s ← get; push (ptr (const_addr s arg))

unfoldable pub lvbi_arg : State Vm (Unit {0})
lvbi_arg = do arg ← operand16; s ← get; v ← on_machine (read_slot (arg_slot s arg)); push v

unfoldable pub lvbi_loc : State Vm (Unit {0})
lvbi_loc = do arg ← operand16; s ← get; v ← on_machine (read_slot (loc_slot s arg)); push v

unfoldable pub labi_arg : World → State Vm (Unit {0})
labi_arg w = do
  arg ← operand16
  push (ptr w.stack_header)
  s ← get
  push (stack_dptr (arg_slot s arg))

unfoldable pub labi_loc : World → State Vm (Unit {0})
labi_loc w = do
  arg ← operand16
  push (ptr w.stack_header)
  s ← get
  push (stack_dptr (loc_slot s arg))

-- ST: without generations there is no write barrier.
unfoldable pub st : State Vm (Unit {0})
st = do
  next_ip
  obj ← pop
  addr ← pop
  dst_obj ← pop
  on_machine (check (not (is_null obj)) assertion)
  on_machine (check (not (is_null addr)) assertion)
  store_through dst_obj addr obj

-- The slot below the top is replaced by what its distance leads to.
unfoldable pub dr : State Vm (Unit {0})
dr = do
  next_ip
  addr ← pop
  obj ← top
  v ← load_through obj addr
  s ← get
  on_machine (write_slot (s.machine.sp - 1) v)

unfoldable pub idx_bc : State Vm (Unit {0})
idx_bc = do next_ip; on_machine idx

-- The place of an element: the array grows where the index is behind its end.
abbrev pub grow_to : ℕ → ℕ → ArrayHead → State Heap (Unit {0})
grow_to p n a =
    if leb a.alloc_size n
    then (do check (not (a.alloc_size == 0)) assertion; native_grow_array p (n + 1))
    else (if leb a.length n then arr_set_length p (n + 1) else pure tt)

abbrev pub elems_base : Option ℕ → ℕ → State Vm (Unit {0})
elems_base none n = halt bad_access
elems_base (some q) n = do push (ptr q); push (slot_dptr n)

abbrev pub place_of : ℕ → ℤ → State Vm (Unit {0})
place_of p (pos n) = do
  a ← heap_op (read_arr p)
  heap_op (grow_to p n a)
  _ ← pop
  b ← heap_op (read_arr p)
  elems_base b.elems n
place_of p (negsuc n) = halt bad_access

abbrev pub arr_place : Value → Value → Bool → Bool → State Vm (Unit {0})
arr_place (ptr p) i true true = do n ← heap_op (int_val i); place_of p n
arr_place obj i _ _ = halt vm_error

abbrev pub is_int_there : Value → State Heap Bool
is_int_there null = pure false
is_int_there v = is_int v

abbrev pub is_arr_there : Value → State Heap Bool
is_arr_there null = pure false
is_arr_there v = is_arr v

-- IDXA: the object of elements and the distance of the element, for ST. A negative index is in front
-- of the elements.
unfoldable pub idxa : State Vm (Unit {0})
idxa = do
  next_ip
  i ← pop
  obj ← top
  array ← heap_op (is_arr_there obj)
  number ← heap_op (if array then is_int_there i else pure false)
  arr_place obj i array number

abbrev pub op_or_error : Option Op → State Vm Op
op_or_error none = halt vm_error
op_or_error (some o) = pure o

unfoldable pub bop_bc : World → State Vm (Unit {0})
bop_bc w = do
  arg ← operand8
  o ← op_or_error (get_elem? all_ops arg)
  on_machine (bop w.str_class o)

unfoldable pub unm_bc : State Vm (Unit {0})
unm_bc = do next_ip; on_machine unm

unfoldable pub not_bc : State Vm (Unit {0})
not_bc = do next_ip; on_machine not_op

-- DUP copies the two upper slots.
unfoldable pub dup : State Vm (Unit {0})
dup = do
  next_ip
  s ← get
  on_machine (check (leb 2 s.machine.sp) bad_access)
  a ← on_machine (read_slot (s.machine.sp - 2))
  push a
  t ← get
  b ← on_machine (read_slot (t.machine.sp - 2))
  push b

unfoldable pub ju : State Vm (Unit {0})
ju = do arg ← operand16; set_ip arg

unfoldable pub ifnj_bc : State Vm (Unit {0})
ifnj_bc = do arg ← operand16; on_machine (ifnj arg)

unfoldable pub written : Written → State Vm (Unit {0})
written x = do s ← get; put (record s { output = x ∷ s.output })

abbrev pub write_text : Option (List ℕ) → State Vm (Unit {0})
write_text none = halt vm_error
write_text (some text) = written (wrote_text text)

abbrev pub text_of_body : Body → Option (List ℕ)
text_of_body (str n bytes) = some (cstring bytes)
text_of_body _ = none

abbrev pub write_obj_bc : Value → Bool → State Vm (Unit {0})
write_obj_bc v true = do n ← heap_op (int_val v); written (wrote_int n)
write_obj_bc (ptr p) false = do o ← heap_op (read_obj p); write_text (text_of_body o.body)
write_obj_bc v false = halt vm_error

abbrev pub write_value : Value → State Vm (Unit {0})
write_value (chr c) = written (wrote_char c)
write_value v = do number ← heap_op (is_int v); write_obj_bc v number

unfoldable pub wrt : State Vm (Unit {0})
wrt = do next_ip; obj ← pop; write_value obj

unfoldable pub ld_self : State Vm (Unit {0})
ld_self = do next_ip; v ← this; push v

abbrev pub is_exinfo : Body → Bool
is_exinfo (exinfo v blocks) = true
is_exinfo _ = false

-- The table of handlers of a frame stands in the slot of the frame pointer.
unfoldable pub st_exinfo : State Vm (Unit {0})
st_exinfo = do
  arg ← operand16
  s ← get
  o ← heap_op (read_obj (const_addr s arg))
  on_machine (check (is_exinfo o.body) assertion)
  on_machine (write_slot s.machine.fp (ptr (const_addr s arg)))

abbrev pub thrown_of : Body → State Vm Value
thrown_of (exinfo v blocks) = pure v
thrown_of _ = halt assertion

abbrev pub thrown_at : Value → State Vm Value
thrown_at (ptr p) = do o ← heap_op (read_obj p); thrown_of o.body
thrown_at _ = halt bad_access

unfoldable pub ld_exobj : State Vm (Unit {0})
ld_exobj = do next_ip; s ← get; v ← on_machine (read_slot s.machine.fp); obj ← thrown_at v; push obj

unfoldable pub throw : ℕ → State Vm (Unit {0})
throw fuel = do next_ip; obj ← pop; on_machine (vm_throw_obj fuel obj)

unfoldable pub pop_bc : State Vm (Unit {0})
pop_bc = do next_ip; _ ← pop; pure tt

-- Whether a return was to native code, where the loop ends.
abbrev pub is_native_ip : ℤ → Bool
is_native_ip (pos i) = false
is_native_ip (negsuc i) = true

unfoldable pub return_to : State Machine (Unit {0}) → State Vm Bool
return_to leaving = do on_machine leaving; s ← get; pure (is_native_ip s.machine.ip)

abbrev pub goes_on : State Vm (Unit {0}) → State Vm Bool
goes_on run = do run; pure false

-- One instruction. The fuel is for the searches in parents and in the frames of calls.
unfoldable pub exec : World → ℕ → Option Bc → State Vm Bool
exec w fuel (some i_lvbi_c) = goes_on lvbi_c
exec w fuel (some i_lvbi_arg) = goes_on lvbi_arg
exec w fuel (some i_lvbi_loc) = goes_on lvbi_loc
exec w fuel (some i_labi_arg) = goes_on (labi_arg w)
exec w fuel (some i_labi_loc) = goes_on (labi_loc w)
exec w fuel (some i_st) = goes_on st
exec w fuel (some i_idx) = goes_on idx_bc
exec w fuel (some i_idxa) = goes_on idxa
exec w fuel (some i_bop) = goes_on (bop_bc w)
exec w fuel (some i_unm) = goes_on unm_bc
exec w fuel (some i_not) = goes_on not_bc
exec w fuel (some i_dup) = goes_on dup
exec w fuel (some i_dr) = goes_on dr
exec w fuel (some i_wrt) = goes_on wrt
exec w fuel (some i_ju) = goes_on ju
exec w fuel (some i_ifnj) = goes_on ifnj_bc
exec w fuel (some i_calls) = goes_on (call w fuel true)
exec w fuel (some i_call) = goes_on (call w fuel false)
exec w fuel (some i_calle) = goes_on (calle w fuel false)
exec w fuel (some i_ret) = return_to bc_ret
exec w fuel (some i_ret_self) = return_to bc_ret_self
exec w fuel (some i_labi_cv) = goes_on (labi_cv w fuel)
exec w fuel (some i_labi_cve) = goes_on (labi_cve w fuel)
exec w fuel (some i_lvbi_cv) = goes_on (lvbi_cv w fuel)
exec w fuel (some i_lvbi_cve) = goes_on (lvbi_cve w fuel)
exec w fuel (some i_lvbs_cve) = goes_on (lvbs_cve w fuel)
exec w fuel (some i_labs_cve) = goes_on (labs_cve w fuel)
exec w fuel (some i_new) = goes_on (new_obj w)
exec w fuel (some i_ld_self) = goes_on ld_self
exec w fuel (some i_ld_class) = goes_on (ld_class w)
exec w fuel (some i_labi_iv) = goes_on labi_iv
exec w fuel (some i_lvbi_iv) = goes_on lvbi_iv
exec w fuel (some i_lvbs_ive) = goes_on (lvbs_ive fuel)
exec w fuel (some i_labs_ive) = goes_on (labs_ive fuel)
exec w fuel (some i_st_exinfo) = goes_on st_exinfo
exec w fuel (some i_throw) = goes_on (throw fuel)
exec w fuel (some i_ld_exobj) = goes_on ld_exobj
exec w fuel (some i_pop) = goes_on pop_bc
exec w fuel _ = halt vm_error

unfoldable pub step : World → ℕ → State Vm Bool
step w fuel = do i ← current_ip; op ← bc_op8 i; exec w fuel (get_elem? all_bc op)

-- `vm_execute_bc`, for as many instructions as the fuel says.
abbrev pub run_on : State Vm (Unit {0}) → Bool → State Vm (Unit {0})
run_on more true = pure tt
run_on more false = more

unfoldable pub vm_execute_bc : World → ℕ → ℕ → State Vm (Unit {0})
vm_execute_bc w fuel zero = halt out_of_fuel
vm_execute_bc w fuel (suc n) = do returned ← step w fuel; run_on (vm_execute_bc w fuel n) returned
