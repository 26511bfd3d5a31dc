-- ===== src/Array.antt =====
-- vm/k_array.c and the allocation of arrays in vm/memory.c. An array is an object with a pointer
-- to a second object that holds the elements; both keep the length and the allocated size.
pub mod Cells
pub mod Growth
pub mod Items
pub mod Realloc
pub mod Access
pub mod Set
pub mod Append
mod Tests
use kek_on_rails.Base.{
  ℕ, zero, suc, ◌+◌, ◌-◌, ◌*◌, ◌/◌, ◌^◌, Bool, true, false, Option, none, some, List, ◌∷◌, ltb, leb,
  ◌==◌, if◌then◌else◌, length, get_elem?, set, replicate,
}
use kek_on_rails.Heap.{Heap, nil_value, read_obj, write_obj, gc_obj_malloc, fresh_obj}
use kek_on_rails.Objects.{Value, ArrayHead, ArrayObjs, null, arr, arr_objs, ptr}
use kek_on_rails.Outcome.{
  Outcome, assertion, bad_access, undefined, out_of_fuel, ok, stop, vm_error,
}
use kek_on_rails.State.{State, pure, ◌>>=◌, ◌>>◌, get, halt, check, lift}

abbrev pub arr_init_size : ℕ
arr_init_size = 512

abbrev pub sizeof_array : ℕ
sizeof_array = 40

-- `sizeof(kek_array_objs_t) + (items - 1) * sizeof(kek_obj_t *)`
abbrev pub array_objs_size : ℕ → ℕ
array_objs_size items = 32 + items * 8

-- A pointer that must be to an array.
unfoldable pub read_arr : ℕ → State Heap ArrayHead
read_arr p = do o ← read_obj p; elim o.body [ arr a ↦ pure a | _ ↦ halt bad_access ]

unfoldable pub write_arr : ℕ → ArrayHead → State Heap (Unit {0})
write_arr p a = do o ← read_obj p; write_obj p (record o { body = arr a })

-- `KEK_ARR_OBJS(arr)`, with the assertion on its type that the callers make.
unfoldable pub read_objs : Option ℕ → State Heap ArrayObjs
read_objs none = halt bad_access
read_objs (some e) = do o ← read_obj e; elim o.body [ arr_objs b ↦ pure b | _ ↦ halt assertion ]

unfoldable pub write_objs : Option ℕ → ArrayObjs → State Heap (Unit {0})
write_objs none b = halt bad_access
write_objs (some e) b = do o ← read_obj e; write_obj e (record o { body = arr_objs b })

unfoldable pub arr_set_length : ℕ → ℕ → State Heap (Unit {0})
arr_set_length p length = do
  a ← read_arr p
  write_arr p (record a { length = length })
  b ← read_objs a.elems
  write_objs a.elems (record b { length = length })

unfoldable pub arr_set_alloc_size : ℕ → ℕ → State Heap (Unit {0})
arr_set_alloc_size p size = do
  a ← read_arr p
  write_arr p (record a { alloc_size = size })
  b ← read_objs a.elems
  write_objs a.elems (record b { alloc_size = size })

-- The length and the size are not written yet; `native_new_array` writes both.
unfoldable pub alloc_array : ℕ → State Heap ℕ
alloc_array arr_class =
    gc_obj_malloc sizeof_array
      (fresh_obj (some arr_class) (arr (record { length = 0; alloc_size = 0; elems = none })))

-- Every element is NIL at first; `alloc_size` is written by the caller.
unfoldable pub alloc_array_objs : ℕ → ℕ → State Heap ℕ
alloc_array_objs items length = do
  h ← get
  gc_obj_malloc (array_objs_size items) (
      fresh_obj none (
        arr_objs
          (record { length = length; alloc_size = 0; elems = replicate items (nil_value h) })))

unfoldable pub alloc_arr_elems : ℕ → ℕ → State Heap ℕ
alloc_arr_elems size length = alloc_array_objs size length

unfoldable pub native_new_array : ℕ → State Heap (Unit {0})
native_new_array p = do
  a ← read_arr p
  write_arr p (record a { length = 0 })
  e ← alloc_arr_elems arr_init_size 0
  a' ← read_arr p
  write_arr p (record a' { elems = some e })
  arr_set_alloc_size p arr_init_size

-- `while (new_size < length) new_size = (new_size * 3) / 2`, with the overflow of an `int`.
unfoldable pub grow_size : ℕ → ℕ → ℕ → Outcome ℕ
grow_size zero size length = stop out_of_fuel
grow_size (suc fuel) size length =
    let rest = grow_size fuel (size * 3 / 2) length in
    if ltb size length then (if ltb (size * 3) (2 ^ 31) then rest else stop undefined) else ok size

-- The loop of `arr_realloc_elems` copies the first `n` elements into the new ones.
abbrev pub copy_elems : ℕ → List Value → List Value → List Value
copy_elems zero old new = new
copy_elems (suc n) (v ∷ old) (w ∷ new) = v ∷ copy_elems n old new
copy_elems (suc n) old new = new

abbrev pub is_set : Option Value → Bool
is_set (some null) = false
is_set _ = true

-- `assert(arr->elems[arr->length - 1] != NULL)`. Before the first element stand the two counts of
-- the object, which are not all zero while something is allocated.
unfoldable pub last_is_set : ArrayHead → ArrayObjs → Bool
last_is_set a b =
    if a.length == 0 then ltb 0 b.alloc_size else is_set (get_elem? b.elems (a.length - 1))

-- The end of `arr_realloc_elems`: the new elements are filled, and the array is moved to them.
unfoldable pub relink : ℕ → ℕ → ArrayHead → ArrayObjs → ℕ → State Heap (Unit {0})
relink p new_size a b e = do
  c ← read_objs (some e)
  write_objs (some e) (record c { elems = copy_elems a.length b.elems c.elems })
  write_objs a.elems (record b { length = a.length })
  write_arr p (record a { elems = some e })
  arr_set_alloc_size p new_size

-- The loop is given a round for each element that is asked for, and one more.
unfoldable pub arr_realloc_elems : ℕ → ℕ → State Heap (Unit {0})
arr_realloc_elems p len = do
  a ← read_arr p
  b ← read_objs a.elems
  check (last_is_set a b) assertion
  new_size ← lift (grow_size (suc len) a.alloc_size len)
  e ← alloc_arr_elems new_size a.length
  relink p new_size a b e

unfoldable pub native_grow_array : ℕ → ℕ → State Heap (Unit {0})
native_grow_array p len = do
  arr_realloc_elems p len
  a ← read_arr p
  _ ← read_objs a.elems
  arr_set_length p len

-- `arr->elems[idx] = obj`
unfoldable pub store_elem : ℕ → ℕ → Value → State Heap (Unit {0})
store_elem p idx v = do
  a ← read_arr p
  b ← read_objs a.elems
  check (ltb idx (length b.elems)) bad_access
  write_objs a.elems (record b { elems = set b.elems idx v })

unfoldable pub native_arr_elem_set : ℕ → ℕ → Value → State Heap (Unit {0})
native_arr_elem_set p idx v = do
  a ← read_arr p
  if leb a.alloc_size idx
      then native_grow_array p (idx + 1)
      else (if leb a.length idx then arr_set_length p (idx + 1) else pure tt)
  store_elem p idx v

-- The value of `array.length()`, under its assertion that both lengths agree.
unfoldable pub native_array_length : ℕ → State Heap ℕ
native_array_length p = do
  a ← read_arr p
  b ← read_objs a.elems
  check (a.length == b.length) assertion
  pure a.length

abbrev pub elem_or_fault : Option Value → State Heap Value
elem_or_fault none = halt bad_access
elem_or_fault (some v) = pure v

-- `arr->elems[i]`
unfoldable pub load_elem : ℕ → ℕ → State Heap Value
load_elem p idx = do a ← read_arr p; b ← read_objs a.elems; elem_or_fault (get_elem? b.elems idx)

-- The loop of `array_append`. It reads the length of the argument again in each round, and the
-- argument may be the array itself.
unfoldable pub append_loop : ℕ → ℕ → ℕ → ℕ → ℕ → State Heap (Unit {0})
append_loop zero p q i j = halt out_of_fuel
append_loop (suc fuel) p q i j = do
  c ← read_arr q
  if ltb j c.length
      then (do v ← load_elem q j; store_elem p i v; append_loop fuel p q (suc i) (suc j))
      else pure tt

-- The body of `array_append` for an argument that is the array `q`. Where nothing has to grow, only
-- the array's own length is written.
unfoldable pub append_array : ℕ → ℕ → ℕ → State Heap (Unit {0})
append_array fuel p q = do
  a ← read_arr p
  c ← read_arr q
  let new_len = a.length + c.length
  if ltb a.alloc_size new_len
      then native_grow_array p new_len
      else write_arr p (record a { length = new_len })
  append_loop fuel p q a.length 0

-- `IS_ARR(obj)`: the object behind a pointer is read for its type.
unfoldable pub is_arr : Value → State Heap Bool
is_arr null = halt bad_access
is_arr (ptr q) = do o ← read_obj q; elim o.body [ arr _ ↦ pure true | _ ↦ pure false ]
is_arr _ = pure false

unfoldable pub array_append : ℕ → ℕ → Value → State Heap (Unit {0})
array_append fuel p obj = do
  arrays ← is_arr obj
  check arrays vm_error
  elim obj [ ptr q ↦ append_array fuel p q | _ ↦ halt bad_access ]
