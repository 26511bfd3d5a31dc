-- ===== src/Interp/Addresses.antt =====
-- vm/vm.c: what ST writes through an address, DR reads.
use kek_on_rails.Base.{
  ℕ, ◌≡◌, refl, Option, none, some, eq→==, ◌-◌, ◌/◌, ap, ◌∙◌, inl, inr, Bool, true, false, List,
  ltb, Bool-cases, length, get_elem?, set, get_elem?-set_self, ◌+◌, ◌*◌, ◌<◌, arith, leb, lt→ltb,
  le→leb,
}
use kek_on_rails.Cheney.Moves.{update_self}
use kek_on_rails.Heap.{Heap, update, read_obj, write_obj}
use kek_on_rails.Interp.{
  Vm, in_machine, on_machine, heap_op, update_value, value_or_fault, load_from, load_through,
  store_into, store_through, stack_dptr, slot_dptr, slot_at,
}
use kek_on_rails.Machine.{Machine, put_slot, on_heap, stack_slots, read_slot, write_slot}
use kek_on_rails.Objects.{Value, Obj, null, dptr, ptr, arr_objs, udo, stack, ArrayObjs}
use kek_on_rails.Outcome.{Outcome, bad_access, ok, stop}
use kek_on_rails.State.{◌>>◌, and_then, check}

put_slot_self : (f : ℕ → Value) (i : ℕ) (v : Value) → put_slot f i v i ≡ v
put_slot_self f i v = rw (eq→== i i refl) refl

update_value_self : (f : ℕ → Value) (p : ℕ) (v : Value) → update_value f p v p ≡ v
update_value_self f p v = rw (eq→== p p refl) refl

abbrev read_of : Vm → Option Obj → Outcome (Obj × Vm)
read_of s none = stop bad_access
read_of s (some o) = ok (o, s)

heap_read : (p : ℕ) (s : Vm) → heap_op (read_obj p) s ≡ read_of s (s.machine.heap.cell p)
unfolding heap_op on_machine on_heap read_obj
heap_read p s = go (s.machine.heap.cell p)
  where
    go :
        (x : Option Obj)
        → in_machine s
            (elim (elim x as (λ _. Outcome (Obj × Heap)) [
              | none ↦ stop bad_access
              | some o ↦ ok (o, s.machine.heap)
            ])
              as (λ _. Outcome (Obj × Machine)) [
                | ok (a, h) ↦ ok (a, record s.machine { heap = h })
                | stop e ↦ stop e
              ])
          ≡ read_of s x
    go none = refl
    go (some o) = refl

heap_write :
    (p : ℕ) (o : Obj) (s : Vm)
    → heap_op (write_obj p o) s
      ≡ ok (
        tt,
        record s {
          machine = record s.machine {
            heap = record s.machine.heap { cell = update s.machine.heap.cell p o };
          };
        },
      )
unfolding heap_op on_machine on_heap write_obj
heap_write p o s = refl

load_lem :
    (p d : ℕ) (o : Obj) (s : Vm)
    → s.machine.heap.cell p ≡ some o
    → load_through (ptr p) (dptr d) s ≡ load_from d o.body s
unfolding load_through
load_lem p d o s e =
    ap (λ r. and_then r (λ x. load_from d x.body)) (heap_read p s ∙ ap (read_of s) e)

store_lem :
    (p d : ℕ) (o : Obj) (v : Value) (s : Vm)
    → s.machine.heap.cell p ≡ some o
    → store_through (ptr p) (dptr d) v s ≡ store_into p o d o.body v s
unfolding store_through
store_lem p d o v s e =
    ap (λ r. and_then r (λ x. store_into p x d x.body v)) (heap_read p s ∙ ap (read_of s) e)

abbrev with_slot_at : Vm → ℕ → Value → Vm
with_slot_at s i v = record s { machine = record s.machine { slot = put_slot s.machine.slot i v } }

abbrev with_cell : Vm → ℕ → Obj → Vm
with_cell s p o = record s {
  machine = record s.machine {
    heap = record s.machine.heap { cell = update s.machine.heap.cell p o };
  };
}

abbrev guarded : Bool → Vm → Outcome (Unit {0} × Vm)
guarded true t = ok (tt, t)
guarded false t = stop bad_access

slot_write :
    (s : Vm) (i : ℕ) (v : Value)
    → on_machine (write_slot i v) s ≡ guarded (ltb i stack_slots) (with_slot_at s i v)
unfolding on_machine write_slot
slot_write s i v = elim (Bool-cases (ltb i stack_slots)) [
  | inl inside ↦ rw inside refl
  | inr outside ↦ rw outside refl
]

slot_read :
    (s : Vm) (i : ℕ)
    → ltb i stack_slots ≡ true
    → on_machine (read_slot i) s ≡ ok (s.machine.slot i, s)
unfolding on_machine read_slot
slot_read s i inside = rw inside refl

checked_write :
    (b : Bool) (p : ℕ) (o : Obj) (s : Vm)
    → and_then (on_machine (check b bad_access) s) (λ _. heap_op (write_obj p o))
      ≡ guarded b (with_cell s p o)
unfolding on_machine heap_op on_heap write_obj
checked_write true p o s = refl
checked_write false p o s = refl

slot_at_lem : (first_slot i : ℕ) (s : Vm) → slot_at first_slot (first_slot + 8 * i) s ≡ ok (i, s)
unfolding slot_at on_machine
slot_at_lem first_slot i s =
    let inside : leb first_slot (first_slot + 8 * i) ≡ true =
      le→leb first_slot (first_slot + 8 * i) (omega arith) in
    let index : (first_slot + 8 * i - first_slot) / 8 ≡ i = omega arith in rw (inside, index) refl

-- What an address that an instruction makes leads to: the slot `i` of the stack, the element `i` of
-- an array's object of elements, the variable `i` of a user-defined object, all three by an object and
-- the distance that LABI_ARG, LABI_LOC, IDXA, LABI_IV and LABS_IVE push, or a static variable by its
-- address. `after` is the state that differs in that place alone.
pub data Target (s : Vm) : Value → Value → (Value → Vm) → Type 0 where
  a_slot :
      {p i : ℕ} {o : Obj}
      → s.machine.heap.cell p ≡ some o
      → o.body ≡ stack
      → i < stack_slots
      → Target s (ptr p) (stack_dptr i) (with_slot_at s i)
  an_element :
      {p i : ℕ} {o : Obj} {a : ArrayObjs}
      → s.machine.heap.cell p ≡ some o
      → o.body ≡ arr_objs a
      → i < length a.elems
      → Target s
          (ptr p)
          (slot_dptr i)
          (λ v. with_cell s p (record o { body = arr_objs (record a { elems = set a.elems i v }) }))
  a_variable :
      {p i offset : ℕ} {o : Obj} {vars : List Value}
      → s.machine.heap.cell p ≡ some o
      → o.body ≡ udo offset vars
      → i < length vars
      → Target s
          (ptr p)
          (slot_dptr i)
          (λ v. with_cell s p (record o { body = udo offset (set vars i v) }))
  a_static :
      (d : ℕ)
      → Target s null (dptr d) (λ v. record s { static_value = update_value s.static_value d v })

abbrev Assigned : Vm → Value → Value → Value → Vm → Type 0
Assigned s dst addr v t =
    (store_through dst addr v s ≡ ok (tt, t)) × (load_through dst addr t ≡ ok (v, t))

module _ (s : Vm) (v : Value) (p i : ℕ) (o : Obj) (there : s.machine.heap.cell p ≡ some o) where
  slot-Assigned :
      o.body ≡ stack → i < stack_slots → Assigned s (ptr p) (stack_dptr i) v (with_slot_at s i v)
  slot-Assigned body inside =
      let t : Vm = with_slot_at s i v in
      let fits : ltb i stack_slots ≡ true = lt→ltb i stack_slots inside in
      (
        store_lem p (24 + 8 * i) o v s there
            ∙ ap (λ b. store_into p o (24 + 8 * i) b v s) body
            ∙ ap (λ r. and_then r (λ j. on_machine (write_slot j v))) (slot_at_lem 24 i s)
            ∙ slot_write s i v
            ∙ ap (λ b. guarded b t) fits,
        load_lem p (24 + 8 * i) o t there
            ∙ ap (λ b. load_from (24 + 8 * i) b t) body
            ∙ ap (λ r. and_then r (λ j. on_machine (read_slot j))) (slot_at_lem 24 i t)
            ∙ slot_read t i fits
            ∙ ap (λ x. ok (x, t)) (put_slot_self s.machine.slot i v),
      )

  element-Assigned :
      (a : ArrayObjs)
      → o.body ≡ arr_objs a
      → i < length a.elems
      → Assigned s
          (ptr p)
          (slot_dptr i)
          v
          (with_cell s p (record o { body = arr_objs (record a { elems = set a.elems i v }) }))
  element-Assigned a body inside =
      let o' : ℕ → Obj = λ j. record o { body = arr_objs (record a { elems = set a.elems j v }) } in
      let t : Vm = with_cell s p (o' i) in
      (
        store_lem p (32 + 8 * i) o v s there
            ∙ ap (λ b. store_into p o (32 + 8 * i) b v s) body
            ∙ ap
                (λ r. and_then r (λ j.
                  on_machine (check (ltb j (length a.elems)) bad_access)
                  >> heap_op (write_obj p (o' j))))
                (slot_at_lem 32 i s)
            ∙ checked_write (ltb i (length a.elems)) p (o' i) s
            ∙ ap (λ b. guarded b t) (lt→ltb i (length a.elems) inside),
        load_lem p (32 + 8 * i) (o' i) t (update_self s.machine.heap.cell p (o' i))
            ∙ ap (λ r. and_then r (λ j. value_or_fault (get_elem? (set a.elems i v) j)))
                (slot_at_lem 32 i t)
            ∙ ap (λ x. value_or_fault x t) (get_elem?-set_self a.elems i v inside),
      )

  variable-Assigned :
      (offset : ℕ) (vars : List Value)
      → o.body ≡ udo offset vars
      → i < length vars
      → Assigned s
          (ptr p)
          (slot_dptr i)
          v
          (with_cell s p (record o { body = udo offset (set vars i v) }))
  variable-Assigned offset vars body inside =
      let o' : ℕ → Obj = λ j. record o { body = udo offset (set vars j v) } in
      let t : Vm = with_cell s p (o' i) in
      (
        store_lem p (32 + 8 * i) o v s there
            ∙ ap (λ b. store_into p o (32 + 8 * i) b v s) body
            ∙ ap
                (λ r. and_then r (λ j.
                  on_machine (check (ltb j (length vars)) bad_access)
                  >> heap_op (write_obj p (o' j))))
                (slot_at_lem 32 i s)
            ∙ checked_write (ltb i (length vars)) p (o' i) s
            ∙ ap (λ b. guarded b t) (lt→ltb i (length vars) inside),
        load_lem p (32 + 8 * i) (o' i) t (update_self s.machine.heap.cell p (o' i))
            ∙ ap (λ r. and_then r (λ j. value_or_fault (get_elem? (set vars i v) j)))
                (slot_at_lem 32 i t)
            ∙ ap (λ x. value_or_fault x t) (get_elem?-set_self vars i v inside),
      )

-- A store through an address that an instruction makes goes through: the slot of the stack with that
-- index, the element of an array, the variable of an object or the static variable gets the value,
-- nothing else changes, and a load through the address then gives the value and changes nothing.
pub store_through-Target :
    (s : Vm) (v : Value) {dst addr : Value} {after : Value → Vm}
    → Target s dst addr after
    → (store_through dst addr v s ≡ ok (tt, after v))
      × (load_through dst addr (after v) ≡ ok (v, after v))
unfolding store_through load_through
store_through-Target s v (a_slot {p} {i} {o} there body inside) =
    slot-Assigned s v p i o there body inside
store_through-Target s v (an_element {p} {i} {o} {a} there body inside) =
    element-Assigned s v p i o there a body inside
store_through-Target s v (a_variable {p} {i} {offset} {o} {vars} there body inside) =
    variable-Assigned s v p i o there offset vars body inside
store_through-Target s v (a_static d) = (
  refl,
  ap (λ x. ok (x, record s { static_value = update_value s.static_value d v }))
      (update_value_self s.static_value d v),
)
