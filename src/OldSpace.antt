-- ===== src/OldSpace.antt =====
-- vm/memory.c: the old space, to which objects move that survived twice, and the state by which an
-- object is old or new.
pub mod Barrier
use kek_on_rails.Base.{
  ℕ, zero, suc, Bool, true, false, Option, none, some, List, [], ◌∷◌, if◌then◌else◌, length,
}
use kek_on_rails.Objects.{
  Value, ArrayHead, Body, ObjState, null, ptr, int, str, symbol, arr, arr_objs, expt, file, term,
  udo, cls, stack, copied, unknown_state, first_gen_young, second_gen_young, old_white, old_gray,
  old_black,
}
use kek_on_rails.Outcome.{Stop, Outcome, vm_error, assertion, bad_access, out_of_fuel, ok, stop}
use kek_on_rails.Space.{Space, load, store, is_const, ptr_in_from_space, ptr_in_to_space, obj_size}
use kek_on_rails.State.{State, pure, ◌>>=◌, ◌>>◌, get, put, halt, check, lift}

-- `gc_os_is_in_old`
abbrev pub state_is_old : ObjState → Outcome Bool
state_is_old old_white = ok true
state_is_old old_gray = ok true
state_is_old old_black = ok true
state_is_old second_gen_young = ok false
state_is_old first_gen_young = ok false
state_is_old unknown_state = stop vm_error

abbrev pub outside_generations : Body → Bool
outside_generations stack = true
outside_generations (cls k) = true
outside_generations _ = false

abbrev pub generation : ObjState → Bool → Outcome Bool
generation state true = ok false
generation state false = state_is_old state

abbrev pub in_old_unless : ℕ → Bool → State Space Bool
in_old_unless p true = pure false
in_old_unless p false = do o ← load p; lift (generation o.state (outside_generations o.body))

unfoldable pub gc_os_is_in_old : ℕ → State Space Bool
gc_os_is_in_old p = do s ← get; in_old_unless p (is_const s p)

-- A new object must lie in the to-space.
abbrev pub new_unless_old : Bool → Bool → Outcome Bool
new_unless_old true inside = ok false
new_unless_old false true = ok true
new_unless_old false false = stop vm_error

unfoldable pub gc_os_is_in_new : ℕ → State Space Bool
gc_os_is_in_new p = do
  s ← get
  if is_const s p then pure false else do
    o ← load p
    if outside_generations o.body then pure false else do
      old ← lift (state_is_old o.state)
      size ← lift (obj_size s.var_count o)
      lift (new_unless_old old (ptr_in_to_space s p size))

-- `gc_os_add_item`: the copy that `malloc` makes room for is white, and the object points to it.
unfoldable pub gc_os_add_item : ℕ → State Space ℕ
gc_os_add_item p = do
  s ← get
  o ← load p
  size ← lift (obj_size s.var_count o)
  check (ptr_in_from_space s p size) assertion
  let item = s.malloc (length s.os_items)
  store item (record o { state = old_white })
  t ← get
  put (record t { os_items = item ∷ t.os_items })
  store p (record o { body = copied item })
  pure item

-- A slot that holds a pointer, through the function that moves objects; any other stays.
abbrev pub move_value : (ℕ → State Space ℕ) → State Space Value → Value → State Space Value
move_value move on_null null = on_null
move_value move on_null (ptr p) = do q ← move p; pure (ptr q)
move_value move on_null v = pure v

-- `for (i = 0; i < n; i++)` over the slots of an object. The loop fills them one by one, and
-- nothing reads the object in between, so they are written back together.
unfoldable pub move_slots :
    (ℕ → State Space ℕ) → State Space Value → ℕ → List Value → State Space (List Value)
move_slots move on_null zero vs = pure vs
move_slots move on_null (suc n) [] = halt bad_access
move_slots move on_null (suc n) (v ∷ vs) = do
  w ← move_value move on_null v
  ws ← move_slots move on_null n vs
  pure (w ∷ ws)

-- `obj->h.cls->…` reads through the object's class.
abbrev pub class_vars : (ℕ → ℕ) → Option ℕ → Outcome ℕ
class_vars count none = stop bad_access
class_vars count (some c) = ok (count c)

abbrev pub to_elems : ArrayHead → ℕ → Body
to_elems a q = arr (record a { elems = some q })

abbrev pub move_elems : (ℕ → State Space ℕ) → Stop → ArrayHead → Option ℕ → State Space Body
move_elems move why a none = halt why
move_elems move why a (some p) = do q ← move p; pure (to_elems a q)

-- The body of an object whose neighbours the function `move` has moved into the old space.
unfoldable pub old_fields : (ℕ → State Space ℕ) → Option ℕ → Body → State Space Body
old_fields move c (int n) = pure (int n)
old_fields move c (str len bytes) = pure (str len bytes)
old_fields move c (symbol len bytes) = pure (symbol len bytes)
old_fields move c file = pure file
old_fields move c term = pure term
old_fields move c (arr a) = move_elems move vm_error a a.elems
old_fields move c (arr_objs a) = do
  vs ← move_slots move (halt vm_error) a.length a.elems
  pure (arr_objs (record a { elems = vs }))
old_fields move c (expt msg) = do v ← move_value move (pure null) msg; pure (expt v)
old_fields move c (udo offset vars) = do
  s ← get
  n ← lift (class_vars s.var_count c)
  vs ← move_slots move (pure null) n vars
  pure (udo offset vs)
old_fields move c stack = halt vm_error
old_fields move c (copied to) = halt vm_error
old_fields move c _ = halt assertion

-- Where an object that was moved before now lies.
abbrev pub forwarded : Body → Option ℕ
forwarded (copied to) = some to
forwarded _ = none

abbrev pub unless_forwarded : State Space ℕ → Option ℕ → State Space ℕ
unless_forwarded move none = move
unless_forwarded move (some to) = pure to

-- The part of `gc_os_rec_cpy_neighbors` that moves an object and then, by `move`, its neighbours.
unfoldable pub promote : (ℕ → State Space ℕ) → ℕ → State Space ℕ
promote move p = do
  item ← gc_os_add_item p
  copy ← load item
  body ← old_fields move copy.cls copy.body
  store item (record copy { body = body })
  pure item

-- `gc_os_rec_cpy_neighbors`: the fuel bounds the depth of the recursion.
unfoldable pub gc_os_rec_cpy_neighbors : ℕ → ℕ → State Space ℕ
gc_os_rec_cpy_neighbors zero p = halt out_of_fuel
gc_os_rec_cpy_neighbors (suc fuel) p = do
  s ← get
  if is_const s p then pure p else do
    old ← gc_os_is_in_old p
    if old then pure p else do
      o ← load p
      unless_forwarded (promote (gc_os_rec_cpy_neighbors fuel) p) (forwarded o.body)
