-- ===== src/Interp/Tests.antt =====
-- Runs of the interpreter on small programs, and calls through inline caches.
use kek_on_rails.Base.{
  ℕ, ◌+◌, ◌-◌, ◌*◌, ◌≡◌, refl, true, false, Option, none, some, List, [], ◌∷◌, ◌==◌, if◌then◌else◌,
  arith,
}
use kek_on_rails.Classes.Table.{
  Class, find_in_lineage, own_method, vm_find_method_in_class, udo_allocator,
}
use kek_on_rails.Heap.{Heap, update, read_obj, write_obj, mem_segment_malloc, gc_obj_malloc}
use kek_on_rails.Int.{pos, negsuc, ◌+ℤ◌}
use kek_on_rails.Interp.{
  Vm, World, on_machine, heap_op, slot_dptr, load_through, store_through, bc_op8, bc_op16,
  current_ip, set_ip, next_ip, operand8, operand16, push, pop, wrote_int, slot_at,
}
use kek_on_rails.Interp.Addresses.{store_through-Target, an_element}
use kek_on_rails.Interp.Caching.{method_of, Site, IsCoherent, resolve-IsCoherent, resolve_again}
use kek_on_rails.Interp.Numbering.{IsNumbered, FindsPlace, sym_static-IsPlace, eldest, heir}
use kek_on_rails.Interp.Sends.{look_up, update_cache, Caches, resolve}
use kek_on_rails.Interp.StaticSyms.{sym_static}
use kek_on_rails.Interp.Step.{
  vm_execute_bc, lvbi_arg, lvbi_loc, labi_loc, st, bop_bc, return_to, exec, step, written, wrt,
}
use kek_on_rails.Loader.Records.{Method, Symbol}
use kek_on_rails.Machine.{
  Machine, on_heap, bc_call, make_integer, int_val, stack_push, stack_pop, read_slot, write_slot,
  push_integer, bc_ret, saved, clear_slots, enter, leave,
}
use kek_on_rails.Objects.{
  Value, ArrayObjs, Obj, null, imm, ptr, nil, arr_objs, unknown_state, stack,
}
use kek_on_rails.Operators.{int_op}
use kek_on_rails.Operators.Bop.{bc_bop, bop, is_int, other_op}
use kek_on_rails.Outcome.{Outcome, ok, stop}
use kek_on_rails.State.{pure}

abbrev nil_const : Obj
nil_const = record { cls = none; state = unknown_state; body = nil }

abbrev stack_obj : Obj
stack_obj = record { cls = none; state = unknown_state; body = stack }

abbrev elements : ArrayObjs
elements = record { length = 2; alloc_size = 2; elems = imm 1 ∷ imm 2 ∷ [] }

abbrev elements_obj : Obj
elements_obj = record { cls = none; state = unknown_state; body = arr_objs elements }

abbrev cells : ℕ → Option Obj
cells p =
    if p == 8
    then some nil_const
    else if p == 104
    then some elements_obj
    else if p == 16
    then some stack_obj
    else none

abbrev small_heap : Heap
small_heap = record { beginning = 4096; used = 0; size = 1024; const_table = 8; cell = cells }

-- One argument, and a receiver.
abbrev small : Machine
small = record {
  slot = λ i. if i == 0 then imm 21 else null;
  sp = 2;
  ap = 0;
  fp = 0;
  ip = pos 0;
  heap = small_heap;
}

abbrev world : World
world = record {
  stack_header = 16;
  class_at = λ k. 500 + k;
  static_at = λ k i. 700 + 10 * k + i;
  str_class = none;
  junk = null;
  native = λ m. pure tt;
}

abbrev vm_of : Machine → List ℕ → Vm
vm_of m code = record {
  machine = m;
  code = code;
  classes = [];
  cache = λ at. none;
  static_value = λ p. null;
  output = [];
}

abbrev value_on_top : Outcome (Unit {0} × Vm) → Option Value
value_on_top (ok (u, s)) = some (s.machine.slot (s.machine.sp - 1))
value_on_top (stop e) = none

abbrev small_call : Outcome (Unit {0} × Machine)
small_call = bc_call (pos 0) (negsuc 0) 1 1 small

abbrev run_called : List ℕ → ℕ → Outcome (Unit {0} × Machine) → Outcome (Unit {0} × Vm)
run_called code n (ok (u, m)) = vm_execute_bc world 0 n (vm_of m code)
run_called code n (stop e) = stop e

-- x := a; return x + a
abbrev doubling : List ℕ
doubling = 28 ∷ 0 ∷ 0 ∷ 18 ∷ 0 ∷ 0 ∷ 4 ∷ 19 ∷ 0 ∷ 0 ∷ 18 ∷ 0 ∷ 0 ∷ 1 ∷ 0 ∷ 13 ∷ []

doubles : value_on_top (run_called doubling 20 small_call) ≡ some (imm 42)
unfolding slot_at ◌+ℤ◌ mem_segment_malloc gc_obj_malloc vm_execute_bc step exec current_ip bc_op8
    bc_op16 set_ip next_ip operand16 operand8 on_machine heap_op push pop lvbi_arg lvbi_loc labi_loc
    st store_through is_int bop_bc return_to bop bc_bop int_op bc_call bc_ret stack_push stack_pop
    write_slot read_slot on_heap read_obj write_obj push_integer saved enter clear_slots leave
    other_op make_integer int_val
doubles = refl

-- WRT of the argument, which is then returned.
abbrev printing : List ℕ
printing = 18 ∷ 0 ∷ 0 ∷ 7 ∷ 18 ∷ 0 ∷ 0 ∷ 13 ∷ []

abbrev called_with : Outcome (Unit {0} × Machine) → Vm
called_with (ok (u, m)) = vm_of m printing
called_with (stop e) = vm_of small printing

abbrev prints_from : Vm
prints_from = called_with small_call

abbrev last_of : Outcome (Unit {0} × Vm) → Vm
last_of (ok (u, s)) = s
last_of (stop e) = prints_from

abbrev printed_to : Vm
printed_to = last_of (vm_execute_bc world 0 20 prints_from)

prints : vm_execute_bc world 0 20 prints_from ≡ ok (tt, printed_to)
unfolding wrt written ◌+ℤ◌ mem_segment_malloc gc_obj_malloc vm_execute_bc step exec current_ip
    bc_op8 bc_op16 set_ip next_ip operand16 operand8 on_machine heap_op push pop lvbi_arg lvbi_loc
    labi_loc st store_through is_int bop_bc return_to bop bc_bop int_op bc_call bc_ret stack_push
    stack_pop write_slot read_slot on_heap read_obj write_obj push_integer saved enter clear_slots
    leave other_op make_integer int_val
prints = refl

prints_number : printed_to.output ≡ wrote_int (pos 21) ∷ []
unfolding wrt written ◌+ℤ◌ mem_segment_malloc gc_obj_malloc vm_execute_bc step exec current_ip
    bc_op8 bc_op16 set_ip next_ip operand16 operand8 on_machine heap_op push pop lvbi_arg lvbi_loc
    labi_loc st store_through is_int bop_bc return_to bop bc_bop int_op bc_call bc_ret stack_push
    stack_pop write_slot read_slot on_heap read_obj write_obj push_integer saved enter clear_slots
    leave other_op make_integer int_val
prints_number = refl

abbrev method_r : ℕ → ℕ → Method
method_r static_flag addr = record {
  name = 114 ∷ [];
  bc_addr = addr;
  args_cnt = 0;
  locals_cnt = 0;
  is_static = static_flag;
  is_native = false;
}

abbrev class_r : Class
class_r = record {
  name = 65 ∷ [];
  parent = none;
  parent_name = [];
  allocator = udo_allocator;
  constructor = none;
  methods = method_r 1 7 ∷ method_r 0 9 ∷ [];
  syms_static = [];
  syms_instance = [];
  total_syms_instance_cnt = 0;
  syms_instance_offset = 0;
}

abbrev no_caches : Caches
no_caches at = none

abbrev one_cache : Caches
one_cache = update_cache no_caches 5 (0, method_r 1 7)

first_call : resolve 1 (class_r ∷ []) no_caches 5 0 (114 ∷ []) true 0 ≡ ok (method_r 1 7, one_cache)
unfolding resolve look_up vm_find_method_in_class find_in_lineage own_method
first_call = refl

-- The object of the class is given the static method.
resolve_again_example :
    resolve 1 (class_r ∷ []) one_cache 5 0 (114 ∷ []) false 0 ≡ ok (method_r 1 7, one_cache)
resolve_again_example =
    resolve_again 1 (class_r ∷ []) no_caches 5 0 (114 ∷ []) true 0 (method_r 1 7) one_cache
      first_call 1 (114 ∷ []) false 0

abbrev sites : ℕ → Site
sites at = record { name = 114 ∷ []; static_call = true; argc = 0 }

no_caches-IsCoherent : IsCoherent 1 (class_r ∷ []) sites no_caches
no_caches-IsCoherent = record { agrees = λ at k m e. cc }

one_cache-IsCoherent : IsCoherent 1 (class_r ∷ []) sites one_cache
one_cache-IsCoherent =
    (resolve-IsCoherent no_caches-IsCoherent 5 0).1 (method_r 1 7, one_cache) first_call

resolve-IsCoherent_example :
    (method_of (resolve 1 (class_r ∷ []) one_cache 5 0 (114 ∷ []) true 0)
      ≡ look_up 1 (class_r ∷ []) 0 (114 ∷ []) true 0)
    × ((r : Method × Caches)
        → resolve 1 (class_r ∷ []) one_cache 5 0 (114 ∷ []) true 0 ≡ ok r
        → IsCoherent 1 (class_r ∷ []) sites r.1)
resolve-IsCoherent_example = resolve-IsCoherent one_cache-IsCoherent 5 0

abbrev changed_elements : Obj
changed_elements = record elements_obj {
  body = arr_objs (record elements { elems = imm 1 ∷ imm 9 ∷ [] });
}

abbrev changed : Vm
changed =
    vm_of (record small { heap = record small_heap { cell = update cells 104 changed_elements } })
      []

store_through-Target_example :
    (store_through (ptr 104) (slot_dptr 1) (imm 9) (vm_of small []) ≡ ok (tt, changed))
    × (load_through (ptr 104) (slot_dptr 1) changed ≡ ok (imm 9, changed))
store_through-Target_example =
    store_through-Target (vm_of small []) (imm 9)
      (an_element {i = 1} {o = elements_obj} {a = elements} refl refl (omega arith))

abbrev numbered_sym : ℕ → Symbol
numbered_sym n = record {
  name = 120 ∷ [];
  const_ptr = 0;
  value = none;
  addr = n;
  const_flag = false;
}

abbrev statics : Option ℕ → List Symbol → Class
statics above syms = record class_r { parent = above; syms_static = syms }

-- The class 1 has no static symbols, its parent two and its child one.
abbrev numbered_classes : List Class
numbered_classes =
    statics none (numbered_sym 0 ∷ numbered_sym 1 ∷ [])
    ∷ statics (some 0) []
    ∷ statics (some 1) (numbered_sym 2 ∷ [])
    ∷ []

numbered_classes-IsNumbered :
    IsNumbered numbered_classes 2 2 (statics (some 1) (numbered_sym 2 ∷ [])) 2
numbered_classes-IsNumbered = heir refl refl (heir refl refl (eldest refl refl refl) tt) refl

sym_static-IsPlace_example : FindsPlace numbered_classes 2 1 (sym_static 2 numbered_classes 2 1)
sym_static-IsPlace_example =
    sym_static-IsPlace numbered_classes 2 2 (statics (some 1) (numbered_sym 2 ∷ [])) 2 1
      numbered_classes-IsNumbered (omega arith) (omega arith)
