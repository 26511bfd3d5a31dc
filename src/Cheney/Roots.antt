-- ===== src/Cheney/Roots.antt =====
-- vm/memory.c: the roots of the collector, a whole collection, and the allocation that starts it.
use kek_on_rails.Base.{
  ℕ, zero, ◌+◌, ◌-◌, ◌/◌, ◌%◌, ◌^◌, Bool, true, false, Option, none, some, List, [], ◌∷◌, ltb,
  if◌then◌else◌, get_elem?, set,
}
use kek_on_rails.Cheney.{copy_root_obj, scan_loop}
use kek_on_rails.Heap.{aligned}
use kek_on_rails.Objects.{
  nil, Value, Body, Obj, null, ptr, nil, arr, arr_objs, expt, udo, first_gen_young,
}
use kek_on_rails.OldSpace.{move_value, move_elems, outside_generations}
use kek_on_rails.Outcome.{vm_error, assertion, bad_access}
use kek_on_rails.RememberSet.{Entry, gc_os_remove_dups_in_rs}
use kek_on_rails.Space.{
  new_segment_size, Space, load, store, sizeof_header, is_const, ptr_in_to_space,
}
use kek_on_rails.State.{State, pure, ◌>>=◌, ◌>>◌, get, put, halt, check, lift}

-- The variables that the collector updates: `statics` the static variables of all classes,
-- `variables` the C variables of the root set, `carrlist` the arrays of the table of constants,
-- `stack_vars` the slots below the stack pointer, the top first, `remembered` the remember set.
pub record RootVars : Type 0 where
  pub statics : List Value
  pub variables : List Value
  pub carrlist : List ℕ
  pub stack_vars : List Value
  pub remembered : List Entry

unfoldable pub move_all : (Value → State Space Value) → List Value → State Space (List Value)
move_all move [] = pure []
move_all move (v ∷ vs) = do w ← move v; ws ← move_all move vs; pure (w ∷ ws)

-- A variable of the root set must hold a pointer.
abbrev pub variable_root : (ℕ → State Space ℕ) → Value → State Space Value
variable_root move (ptr p) = do q ← move p; pure (ptr q)
variable_root move v = halt bad_access

-- `carr->arr`, whose elements move.
abbrev pub carr_elems : (ℕ → State Space ℕ) → ℕ → Obj → Body → State Space (Unit {0})
carr_elems move p o (arr a) = do
  body ← move_elems move bad_access a a.elems
  store p (record o { body = body })
carr_elems move p o _ = halt bad_access

unfoldable pub carr_roots : (ℕ → State Space ℕ) → List ℕ → State Space (Unit {0})
carr_roots move [] = pure tt
carr_roots move (p ∷ ps) = do o ← load p; carr_elems move p o o.body; carr_roots move ps

abbrev pub is_nil : Body → Bool
is_nil nil = true
is_nil _ = false

-- A slot of the stack: a class or the stack itself is left alone, and nil is a constant.
abbrev pub stack_place : (ℕ → State Space ℕ) → ℕ → Bool → Bool → Bool → State Space Value
stack_place move p true isnil const = pure (ptr p)
stack_place move p false true false = halt assertion
stack_place move p false isnil true = pure (ptr p)
stack_place move p false false false = do q ← move p; pure (ptr q)

abbrev pub stack_root : (ℕ → State Space ℕ) → Value → State Space Value
stack_root move (ptr p) = do
  s ← get
  o ← load p
  stack_place move p (outside_generations o.body) (is_nil o.body) (is_const s p)
stack_root move v = pure v

-- The slots of an object begin 32 bytes behind its header, 8 bytes each.
abbrev pub slot_index : Entry → ℕ
slot_index e = (e.new_obj - e.old_obj - 32) / 8

abbrev pub slot_of : Body → ℕ → Option Value
slot_of (arr_objs a) i = get_elem? a.elems i
slot_of (udo offset vars) i = get_elem? vars i
slot_of (expt msg) zero = some msg
slot_of _ i = none

abbrev pub with_slot : Body → ℕ → Value → Body
with_slot (arr_objs a) i v = arr_objs (record a { elems = set a.elems i v })
with_slot (udo offset vars) i v = udo offset (set vars i v)
with_slot (expt msg) i v = expt v
with_slot b i v = b

-- A pointer of the remember set to the to-space is a duplicate.
abbrev pub remembered_root : (ℕ → State Space ℕ) → Entry → Option Value → State Space (Unit {0})
remembered_root move e (some (ptr p)) = do
  s ← get
  if ptr_in_to_space s p sizeof_header then pure tt else do
    q ← move p
    o ← load e.old_obj
    store e.old_obj (record o { body = with_slot o.body (slot_index e) (ptr q) })
remembered_root move e (some _) = halt assertion
remembered_root move e none = halt bad_access

unfoldable pub remembered_roots : (ℕ → State Space ℕ) → List Entry → State Space (Unit {0})
remembered_roots move [] = pure tt
remembered_roots move (e ∷ es) = do
  o ← load e.old_obj
  remembered_root move e (slot_of o.body (slot_index e))
  remembered_roots move es

abbrev pub remembered_part : Bool → (ℕ → State Space ℕ) → List Entry → State Space (Unit {0})
remembered_part false move es = pure tt
remembered_part true move es = remembered_roots move es

-- `gc_rootset`
unfoldable pub gc_rootset : (ℕ → State Space ℕ) → RootVars → State Space RootVars
gc_rootset move r = do
  statics ← move_all (move_value move (pure null)) r.statics
  variables ← move_all (variable_root move) r.variables
  carr_roots move r.carrlist
  stack_vars ← move_all (stack_root move) r.stack_vars
  s ← get
  remembered_part s.generational move r.remembered
  pure (record r { statics = statics; variables = variables; stack_vars = stack_vars })

-- The two halves change places.
unfoldable pub swap_spaces : Space → Space
swap_spaces s = record s {
  from_space = s.to_space;
  to_space = s.from_space;
  to_space_free = s.from_space;
  scan_ptr = s.from_space;
  cheney_iteration = (s.cheney_iteration + 1) % 2 ^ 32;
}

abbrev pub drop_remembered : Bool → RootVars → State Space RootVars
drop_remembered false r = pure r
drop_remembered true r = do
  es ← lift (gc_os_remove_dups_in_rs r.remembered)
  pure (record r { remembered = es })

-- `gc_cheney_scavenge`
unfoldable pub scavenge : ℕ → ℕ → RootVars → State Space RootVars
scavenge depth fuel r = do
  s ← get
  put (swap_spaces s)
  unique ← drop_remembered s.generational r
  moved ← gc_rootset (copy_root_obj depth) unique
  scan_loop fuel
  pure moved

-- `gc_cheney_can_malloc`
abbrev pub can_malloc : Space → ℕ → Bool
can_malloc s size = ltb (s.to_space_free + aligned size) (s.to_space + new_segment_size)

-- The object that has been allocated is young.
unfoldable pub bump : ℕ → Obj → State Space ℕ
bump size o = do
  s ← get
  put (record s { to_space_free = s.to_space_free + size; to_space_size = s.to_space_size + size })
  check (ptr_in_to_space s s.to_space_free size) vm_error
  store s.to_space_free (record o { state = first_gen_young })
  pure s.to_space_free

abbrev pub make_room : ℕ → ℕ → RootVars → Bool → State Space RootVars
make_room depth fuel r true = pure r
make_room depth fuel r false = scavenge depth fuel r

-- The part of `gc_cheney_malloc` behind a collection that may have been needed.
unfoldable pub place_new : ℕ → Obj → RootVars → State Space (ℕ × RootVars)
place_new size o moved = do
  t ← get
  check (can_malloc t size) vm_error
  p ← bump size o
  pure (p, moved)

-- `gc_cheney_malloc`, with the writes of the caller that fill the object.
unfoldable pub cheney_malloc : ℕ → ℕ → ℕ → Obj → RootVars → State Space (ℕ × RootVars)
cheney_malloc depth fuel size o r = do
  s ← get
  check (ltb (aligned size) new_segment_size) vm_error
  moved ← make_room depth fuel r (can_malloc s (aligned size))
  place_new (aligned size) o moved

-- `gc_cheney_init`, with the two halves that `malloc` returns.
unfoldable pub cheney_init : ℕ → ℕ → Space → Space
cheney_init from_space to_space s = record s {
  from_space = from_space;
  to_space = to_space;
  to_space_free = to_space;
  to_space_size = 0;
  cheney_iteration = 0;
}
