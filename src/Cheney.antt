-- ===== src/Cheney.antt =====
-- vm/memory.c: the collector of the new space, which copies what can be reached from one half of it
-- into the other (Cheney's algorithm).
pub mod Roots
pub mod Whole
pub mod Copying
pub mod Moves
pub mod Steps
pub mod Inner
pub mod Fields
pub mod Advance
pub mod Scan
pub mod Repoint
pub mod Rooted
pub mod StackRoots
pub mod Collection
pub mod Observe
pub mod Unseen
pub mod Results
pub mod Malloc
mod Sample
mod Tests
use kek_on_rails.Base.{ℕ, zero, suc, ◌+◌, Option, none, some, length, Bool, true, false, ltb}
use kek_on_rails.Heap.{aligned}
use kek_on_rails.Objects.{
  ArrayHead, Body, ObjState, Obj, null, int, str, symbol, arr, arr_objs, expt, file, term, udo,
  stack, unknown_state, first_gen_young, second_gen_young, old_white, old_gray, old_black, cls,
}
use kek_on_rails.OldSpace.{
  gc_os_is_in_old, move_value, move_slots, class_vars, to_elems, forwarded, unless_forwarded,
  gc_os_rec_cpy_neighbors,
}
use kek_on_rails.Outcome.{vm_error, assertion, bad_access, out_of_fuel}
use kek_on_rails.Space.{
  Space, load, store, sizeof_header, is_const, ptr_in_to_space, obj_size, move_obj,
}
use kek_on_rails.State.{State, pure, ◌>>=◌, ◌>>◌, get, put, halt, lift}

-- The part of `gc_cheney_copy_root_obj` for collectors with generations: an object that survives for
-- the second time moves to the old space with all its neighbours.
abbrev pub age : ℕ → ℕ → Obj → ObjState → State Space ℕ
age depth p o first_gen_young = do store p (record o { state = second_gen_young }); move_obj p
age depth p o second_gen_young = gc_os_rec_cpy_neighbors depth p
age depth p o old_white = pure p
age depth p o old_gray = pure p
age depth p o old_black = pure p
age depth p o unknown_state = halt vm_error

-- An object that has not moved: it must not be in the to-space already.
abbrev pub move_root : ℕ → ℕ → Obj → Bool → Bool → State Space ℕ
move_root depth p o true generational = halt vm_error
move_root depth p o false true = age depth p o o.state
move_root depth p o false false = move_obj p

abbrev pub root_place : ℕ → ℕ → Space → Obj → Bool → State Space ℕ
root_place depth p s o true = pure p
root_place depth p s o false =
    unless_forwarded (move_root depth p o (ptr_in_to_space s p sizeof_header) s.generational)
      (forwarded o.body)

-- `gc_cheney_copy_root_obj`: from the object that a root points to, to the one it is to point to.
unfoldable pub copy_root_obj : ℕ → ℕ → State Space ℕ
copy_root_obj depth p = do s ← get; o ← load p; root_place depth p s o (is_const s p)

abbrev pub move_inner : ℕ → Bool → State Space ℕ
move_inner p true = halt vm_error
move_inner p false = move_obj p

abbrev pub inner_young : ℕ → Space → Bool → State Space ℕ
inner_young p s true = pure p
inner_young p s false = do
  o ← load p
  unless_forwarded (move_inner p (ptr_in_to_space s p sizeof_header)) (forwarded o.body)

abbrev pub inner_place : ℕ → Space → Bool → State Space ℕ
inner_place p s true = pure p
inner_place p s false = do old ← gc_os_is_in_old p; inner_young p s old

-- `gc_cheney_copy_neighbor_inner`
unfoldable pub copy_neighbor_inner : ℕ → State Space ℕ
copy_neighbor_inner p = do s ← get; inner_place p s (is_const s p)

abbrev pub inner_elems : ArrayHead → Option ℕ → State Space Body
inner_elems a none = pure (arr a)
inner_elems a (some p) = do q ← copy_neighbor_inner p; pure (to_elems a q)

-- The body of an object of the to-space whose neighbours have been copied. An element of an array
-- is read for its type before it is compared with NULL.
unfoldable pub inner_fields : Option ℕ → Body → State Space Body
inner_fields c (int n) = pure (int n)
inner_fields c (str len bytes) = pure (str len bytes)
inner_fields c (symbol len bytes) = pure (symbol len bytes)
inner_fields c file = pure file
inner_fields c term = pure term
inner_fields c (arr a) = inner_elems a a.elems
inner_fields c (arr_objs a) = do
  vs ← move_slots copy_neighbor_inner (halt bad_access) a.length a.elems
  pure (arr_objs (record a { elems = vs }))
inner_fields c (expt msg) = do v ← move_value copy_neighbor_inner (pure null) msg; pure (expt v)
inner_fields c (udo offset vars) = do
  s ← get
  n ← lift (class_vars s.var_count c)
  vs ← move_slots copy_neighbor_inner (pure null) n vars
  pure (udo offset vs)
inner_fields c stack = halt vm_error
inner_fields c _ = halt assertion

-- `gc_cheney_copy_neighbor`
unfoldable pub copy_neighbor : ℕ → State Space (Unit {0})
copy_neighbor p = do
  o ← load p
  body ← inner_fields o.cls o.body
  store p (record o { body = body })

-- A round of the loop of `gc_cheney_scavenge`, and what comes after it.
abbrev pub scan_round : State Space (Unit {0}) → Space → Bool → State Space (Unit {0})
scan_round next s false = pure tt
scan_round next s true = do
  o ← load s.scan_ptr
  size ← lift (obj_size s.var_count o)
  put (record s { scan_ptr = s.scan_ptr + aligned size })
  copy_neighbor s.scan_ptr
  next

-- The loop, as long as the scan pointer is below the free pointer.
unfoldable pub scan_loop : ℕ → State Space (Unit {0})
scan_loop zero = halt out_of_fuel
scan_loop (suc fuel) = do s ← get; scan_round (scan_loop fuel) s (ltb s.scan_ptr s.to_space_free)
