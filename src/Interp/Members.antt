-- ===== src/Interp/Members.antt =====
-- vm/vm.c: the instructions that reach variables of classes and objects.
use mathlib.Core.Bool.{not}
use kek_on_rails.Base.{
  ℕ, zero, suc, Option, none, some, List, [], ◌∷◌, get_elem?, ◌+◌, Bool, true, false, if◌then◌else◌,
}
use kek_on_rails.Classes.Table.{Class, streq, vm_find_instance_sym_in_class}
use kek_on_rails.Heap.{read_obj}
use kek_on_rails.Interp.{
  Vm, heap_op, this, const_addr, World, on_machine, operand16, push, pop, top, slot_dptr,
  value_or_fault,
}
use kek_on_rails.Interp.StaticSyms.{class_rec, sym_static}
use kek_on_rails.Loader.Records.{Symbol}
use kek_on_rails.Objects.{symbol, cls, Value, Body, Obj, null, ptr, dptr, udo}
use kek_on_rails.Operators.Bop.{cstring}
use kek_on_rails.Outcome.{Outcome, vm_error, bad_access, out_of_fuel, ok, stop, assertion}
use kek_on_rails.State.{State, pure, ◌>>=◌, get, halt, ◌>>◌, check, lift}

abbrev pub symbol_or_error : Obj → Body → State Vm (Option ℕ × List ℕ)
symbol_or_error o (symbol n bytes) = pure (o.cls, bytes)
symbol_or_error o _ = halt vm_error

-- A constant that must be a symbol: the class that goes with it, and the name up to its end.
unfoldable pub const_symbol : ℕ → State Vm (Option ℕ × List ℕ)
const_symbol arg = do
  s ← get
  o ← heap_op (read_obj (const_addr s arg))
  known ← symbol_or_error o o.body
  pure (known.0, cstring known.1)

-- The class of a receiver: itself, if it is a class.
abbrev pub class_or_own : Obj → Body → Option ℕ
class_or_own o (cls k) = some k
class_or_own o _ = o.cls

abbrev pub class_or_fault : Option ℕ → State Vm ℕ
class_or_fault none = halt bad_access
class_or_fault (some k) = pure k

-- `IS_CLASS(obj) ? obj : obj->h.cls`, for the receiver of the running method.
abbrev pub class_of_ref : Value → State Vm ℕ
class_of_ref (ptr p) = do o ← heap_op (read_obj p); class_or_fault (class_or_own o o.body)
class_of_ref v = halt bad_access

unfoldable pub class_of_this : State Vm ℕ
class_of_this = do v ← this; class_of_ref v

abbrev pub only_class : Body → State Vm ℕ
only_class (cls k) = pure k
only_class _ = halt vm_error

-- A class on the stack, or an error.
abbrev pub class_on_stack : Value → State Vm ℕ
class_on_stack (ptr p) = do o ← heap_op (read_obj p); only_class o.body
class_on_stack null = halt bad_access
class_on_stack v = halt vm_error

-- A static symbol of a class that an instruction names by its number: the symbol, and the address
-- of its value.
abbrev pub symbol_rec : Class → ℕ → Outcome Symbol
symbol_rec c i = elim (get_elem? c.syms_static i) [
  | none ↦ stop bad_access
  | some member ↦ ok member
]

unfoldable pub symbol_at : ℕ → ℕ → State Vm Symbol
symbol_at k i = do s ← get; c ← lift (class_rec s.classes k); lift (symbol_rec c i)

unfoldable pub static_member : World → ℕ → ℕ → ℕ → State Vm (Symbol × ℕ)
static_member w fuel k n = do
  s ← get
  place ← lift (sym_static fuel s.classes k n)
  member ← symbol_at place.0 place.1
  pure (member, w.static_at place.0 place.1)

abbrev pub index_of : List ℕ → ℕ → List Symbol → Option ℕ
index_of name i [] = none
index_of name i (member ∷ syms) =
    if streq member.name name then some i else index_of name (i + 1) syms

-- `vm_find_static_sym_in_class`, with the place of the symbol that it gives.
unfoldable pub find_static : ℕ → List Class → ℕ → List ℕ → Outcome (Option (ℕ × ℕ))
find_static zero cs k name = stop out_of_fuel
find_static (suc fuel) cs k name = elim (get_elem? cs k) [
  | none ↦ stop bad_access
  | some c ↦ elim (index_of name 0 c.syms_static) [
    | some i ↦ ok (some (k, i))
    | none ↦ elim c.parent [ none ↦ ok none | some p ↦ find_static fuel cs p name ]
  ]
]

abbrev pub found_or_error : {A : Type 0} → Option A → State Vm A
found_or_error none = halt vm_error
found_or_error (some a) = pure a

-- The same by its name.
unfoldable pub named_static : World → ℕ → ℕ → List ℕ → State Vm (Symbol × ℕ)
named_static w fuel k name = do
  s ← get
  found ← lift (find_static fuel s.classes k name)
  place ← found_or_error found
  member ← symbol_at place.0 place.1
  pure (member, w.static_at place.0 place.1)

-- The end of the instructions that give the value of a static symbol, and of those that give its
-- address, which a constant does not have.
unfoldable pub push_static : Symbol × ℕ → State Vm (Unit {0})
push_static m = do s ← get; push (s.static_value m.1)

unfoldable pub push_static_addr : Symbol × ℕ → State Vm (Unit {0})
push_static_addr m = do on_machine (check (not m.0.const_flag) vm_error); push null; push (dptr m.1)

-- LABI_CV and LABI_CVE, LVBI_CV and LVBI_CVE, LVBS_CVE, LABS_CVE
unfoldable pub labi_cv : World → ℕ → State Vm (Unit {0})
labi_cv w fuel = do
  arg ← operand16
  k ← class_of_this
  m ← static_member w fuel k arg
  push_static_addr m

unfoldable pub labi_cve : World → ℕ → State Vm (Unit {0})
labi_cve w fuel = do
  arg ← operand16
  obj ← pop
  k ← class_on_stack obj
  m ← static_member w fuel k arg
  push_static_addr m

unfoldable pub lvbi_cv : World → ℕ → State Vm (Unit {0})
lvbi_cv w fuel = do
  arg ← operand16
  k ← class_of_this
  m ← static_member w fuel k arg
  push_static m

unfoldable pub lvbi_cve : World → ℕ → State Vm (Unit {0})
lvbi_cve w fuel = do
  arg ← operand16
  obj ← pop
  k ← class_on_stack obj
  m ← static_member w fuel k arg
  push_static m

unfoldable pub lvbs_cve : World → ℕ → State Vm (Unit {0})
lvbs_cve w fuel = do
  arg ← operand16
  obj ← pop
  k ← class_on_stack obj
  named ← const_symbol arg
  m ← named_static w fuel k named.1
  push_static m

unfoldable pub labs_cve : World → ℕ → State Vm (Unit {0})
labs_cve w fuel = do
  arg ← operand16
  obj ← pop
  k ← class_on_stack obj
  named ← const_symbol arg
  m ← named_static w fuel k named.1
  push_static_addr m

-- `INST_VAR(obj, i)`: the variables that a built-in parent reserves come first. Only a user-defined
-- object has such variables here.
abbrev pub udo_vars : Body → Outcome (ℕ × List Value)
udo_vars (udo offset vars) = ok (offset, vars)
udo_vars _ = stop bad_access

-- `assert(IS_UDO(obj))`
abbrev pub udo_or_fails : Body → Outcome (ℕ × List Value)
udo_or_fails (udo offset vars) = ok (offset, vars)
udo_or_fails _ = stop assertion

abbrev pub udo_of_ref : Value → State Vm (ℕ × List Value)
udo_of_ref (ptr p) = do o ← heap_op (read_obj p); on_machine (lift (udo_or_fails o.body))
udo_of_ref null = halt bad_access
udo_of_ref v = halt assertion

unfoldable pub labi_iv : State Vm (Unit {0})
labi_iv = do
  arg ← operand16
  obj ← this
  vars ← udo_of_ref obj
  push obj
  push (slot_dptr (arg + vars.0))

unfoldable pub lvbi_iv : State Vm (Unit {0})
lvbi_iv = do
  arg ← operand16
  obj ← this
  vars ← udo_of_ref obj
  v ← value_or_fault (get_elem? vars.1 (arg + vars.0))
  push v

abbrev pub is_class : Body → Bool
is_class (cls k) = true
is_class _ = false

abbrev pub object_or_error : Value → State Vm Obj
object_or_error (ptr p) = heap_op (read_obj p)
object_or_error null = halt bad_access
object_or_error v = halt vm_error

-- The object, and the symbol of its variable that the constant names. The symbol is checked
-- before the class.
unfoldable pub named_member : ℕ → ℕ → Value → State Vm (Symbol × Obj)
named_member fuel arg obj = do
  o ← object_or_error obj
  on_machine (check (not (is_class o.body)) assertion)
  named ← const_symbol arg
  k ← found_or_error o.cls
  s ← get
  found ← lift (vm_find_instance_sym_in_class fuel s.classes k named.1)
  member ← found_or_error found
  pure (member, o)

unfoldable pub lvbs_ive : ℕ → State Vm (Unit {0})
lvbs_ive fuel = do
  arg ← operand16
  obj ← pop
  m ← named_member fuel arg obj
  vars ← on_machine (lift (udo_vars m.1.body))
  v ← value_or_fault (get_elem? vars.1 (m.0.addr + vars.0))
  push v

-- The object stays on the stack, below the address.
unfoldable pub labs_ive : ℕ → State Vm (Unit {0})
labs_ive fuel = do
  arg ← operand16
  obj ← top
  m ← named_member fuel arg obj
  vars ← on_machine (lift (udo_vars m.1.body))
  push (slot_dptr (m.0.addr + vars.0))

unfoldable pub ld_class : World → State Vm (Unit {0})
ld_class w = do
  arg ← operand16
  named ← const_symbol arg
  k ← found_or_error named.0
  push (ptr (w.class_at k))
