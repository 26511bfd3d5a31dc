-- ===== src/Interp.antt =====
-- vm/vm.c: the interpreter of the bytecode: its state, the bytes of an instruction, and the
-- addresses that instructions put on the stack.
pub mod StaticSyms
pub mod Members
pub mod Sends
pub mod Calls
pub mod Step
pub mod Caching
pub mod Addresses
pub mod Numbering
mod Tests
use kek_on_rails.Base.{
  ℕ, ◌+◌, ◌-◌, ◌*◌, ◌/◌, Option, none, some, List, ltb, leb, ◌==◌, if◌then◌else◌, length, get_elem?,
  set, ap,
}
use kek_on_rails.Classes.Table.{Class}
use kek_on_rails.Heap.{Heap, read_obj, write_obj}
use kek_on_rails.Int.{ℤ, pos}
use kek_on_rails.Loader.Records.{Method}
use kek_on_rails.Machine.{
  Machine, on_heap, stack_push, stack_pop, stack_top, read_slot, write_slot, as_register,
}
use kek_on_rails.Objects.{stack, Value, Body, Obj, null, dptr, ptr, arr_objs, udo}
use kek_on_rails.Outcome.{Outcome, bad_access, ok, stop}
use kek_on_rails.State.{State, pure, ◌>>=◌, ◌>>◌, get, put, halt, check}

-- What the program has printed.
pub data Written : Type 0 where
  wrote_char : ℕ → Written
  wrote_int : ℤ → Written
  wrote_text : List ℕ → Written

-- `code` is bc_arr_g without the inline caches, which CALLE writes between the instructions: they are
-- apart, in `cache`, each by the address behind the operands of its call. `classes` is classes_g
-- without the values of static symbols, which are apart too, in `static_value`, each at the address
-- of its field.
pub record Vm : Type 0 where
  pub machine : Machine
  pub code : List ℕ
  pub classes : List Class
  pub cache : ℕ → Option (ℕ × Method)
  pub static_value : ℕ → Value
  pub output : List Written

-- What the interpreter finds: the address of the header below the stack, those of the classes and
-- of the value of the i-th static symbol of a class, what `vm_find_class` gives for the class of
-- strings, what a slot of a new object holds before it is written, and the native methods.
pub record World : Type 0 where
  pub stack_header : ℕ
  pub class_at : ℕ → ℕ
  pub static_at : ℕ → ℕ → ℕ
  pub str_class : Option ℕ
  pub junk : Value
  pub native : Method → State Machine (Unit {0})

-- An operation on the stack and the heap alone.
abbrev pub in_machine : {A : Type 0} → Vm → Outcome (A × Machine) → Outcome (A × Vm)
in_machine s (ok (a, m)) = ok (a, record s { machine = m })
in_machine s (stop e) = stop e

unfoldable pub on_machine : {A : Type 0} → State Machine A → State Vm A
on_machine run s = in_machine s (run s.machine)

unfoldable pub heap_op : {A : Type 0} → State Heap A → State Vm A
heap_op run = on_machine (on_heap run)

abbrev pub byte_or_fault : Option ℕ → State Vm ℕ
byte_or_fault none = halt bad_access
byte_or_fault (some b) = pure b

unfoldable pub bc_op8 : ℕ → State Vm ℕ
bc_op8 i = do s ← get; byte_or_fault (get_elem? s.code i)

-- The bytes of an operand stand with the low one first.
unfoldable pub bc_op16 : ℕ → State Vm ℕ
bc_op16 i = do low ← bc_op8 i; high ← bc_op8 (i + 1); pure (low + 256 * high)

-- The instruction pointer, which must not be that of native code.
unfoldable pub current_ip : State Vm ℕ
current_ip = do s ← get; on_machine (as_register s.machine.ip)

unfoldable pub set_ip : ℕ → State Vm (Unit {0})
set_ip i = do s ← get; put (record s { machine = record s.machine { ip = pos i } })

-- An instruction without an operand, and one with an operand of 8 or of 16 bits.
unfoldable pub next_ip : State Vm (Unit {0})
next_ip = do i ← current_ip; set_ip (i + 1)

unfoldable pub operand8 : State Vm ℕ
operand8 = do i ← current_ip; a ← bc_op8 (i + 1); set_ip (i + 2); pure a

unfoldable pub operand16 : State Vm ℕ
operand16 = do i ← current_ip; a ← bc_op16 (i + 1); set_ip (i + 3); pure a

unfoldable pub push : Value → State Vm (Unit {0})
push v = on_machine (stack_push v)

unfoldable pub pop : State Vm Value
pop = on_machine stack_pop

unfoldable pub top : State Vm Value
top = on_machine stack_top

-- `ARG(i)`, `LOC(i)` and `THIS`
abbrev pub arg_slot : Vm → ℕ → ℕ
arg_slot s i = s.machine.ap + i

abbrev pub loc_slot : Vm → ℕ → ℕ
loc_slot s i = s.machine.fp + i + 1

unfoldable pub this : State Vm Value
this = do
  s ← get
  on_machine (check (leb 4 s.machine.fp) bad_access)
  on_machine (read_slot (s.machine.fp - 4))

-- `CONST(i)`: the operand counts bytes.
abbrev pub const_addr : Vm → ℕ → ℕ
const_addr s i = s.machine.heap.const_table + i

-- `MAKE_DPTR` of a slot of the stack, whose object ends at the first slot, and of a slot of an array
-- or a user-defined object.
abbrev pub stack_dptr : ℕ → Value
stack_dptr i = dptr (24 + 8 * i)

abbrev pub slot_dptr : ℕ → Value
slot_dptr i = dptr (32 + 8 * i)

abbrev pub value_or_fault : Option Value → State Vm Value
value_or_fault none = halt bad_access
value_or_fault (some v) = pure v

-- The slot of an object that is at a distance, where the slots begin at `first_slot`. In front of them
-- the object has its header, whose bytes no value can be taken from or put into here.
unfoldable pub slot_at : ℕ → ℕ → State Vm ℕ
slot_at first_slot d = do
  on_machine (check (leb first_slot d) bad_access)
  pure ((d - first_slot) / 8)

-- `*DPTR_VAL(obj, addr)`, read: without an object the distance is the address itself.
abbrev pub load_from : ℕ → Body → State Vm Value
load_from d stack = do i ← slot_at 24 d; on_machine (read_slot i)
load_from d (arr_objs a) = do i ← slot_at 32 d; value_or_fault (get_elem? a.elems i)
load_from d (udo offset vars) = do i ← slot_at 32 d; value_or_fault (get_elem? vars i)
load_from d _ = halt bad_access

unfoldable pub load_through : Value → Value → State Vm Value
load_through null (dptr d) = do s ← get; pure (s.static_value d)
load_through (ptr p) (dptr d) = do o ← heap_op (read_obj p); load_from d o.body
load_through _ _ = halt bad_access

abbrev pub update_value : (ℕ → Value) → ℕ → Value → ℕ → Value
update_value f p v q = if p == q then v else f q

-- `*DPTR_VAL(obj, addr) = v`
abbrev pub store_into : ℕ → Obj → ℕ → Body → Value → State Vm (Unit {0})
store_into p o d stack v = do i ← slot_at 24 d; on_machine (write_slot i v)
store_into p o d (arr_objs a) v = do
  i ← slot_at 32 d
  on_machine (check (ltb i (length a.elems)) bad_access)
  heap_op (write_obj p (record o { body = arr_objs (record a { elems = set a.elems i v }) }))
store_into p o d (udo offset vars) v = do
  i ← slot_at 32 d
  on_machine (check (ltb i (length vars)) bad_access)
  heap_op (write_obj p (record o { body = udo offset (set vars i v) }))
store_into p o d _ v = halt bad_access

unfoldable pub store_through : Value → Value → Value → State Vm (Unit {0})
store_through null (dptr d) v = do
  s ← get
  put (record s { static_value = update_value s.static_value d v })
store_through (ptr p) (dptr d) v = do o ← heap_op (read_obj p); store_into p o d o.body v
store_through _ _ v = halt bad_access
