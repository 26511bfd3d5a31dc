-- ===== src/Indexing.antt =====
-- vm/vm.c: the instruction IDX, which takes an element of an array or a string.
pub mod Elements
mod Tests
use mathlib.Core.Bool.{not}
use kek_on_rails.Array.{read_arr, load_elem}
use kek_on_rails.Base.{ℕ, Option, none, some, List, length, get_elem?}
use kek_on_rails.Exceptions.{is_null}
use kek_on_rails.Heap.{Heap, read_obj}
use kek_on_rails.Int.{ℤ, ltb_ℤ, pos, negsuc}
use kek_on_rails.Machine.{Machine, on_heap, int_val, stack_push, stack_pop}
use kek_on_rails.Objects.{Value, Body, chr, ptr, str, arr}
use kek_on_rails.Operators.Bop.{is_int}
use kek_on_rails.Outcome.{vm_error, bad_access}
use kek_on_rails.State.{State, pure, ◌>>=◌, ◌>>◌, halt, check}

-- `elems[idx_n]`, with the number as the source has it: a negative one is in front of the elements.
abbrev pub load_at : ℕ → ℤ → State Heap Value
load_at p (pos i) = load_elem p i
load_at p (negsuc i) = halt bad_access

unfoldable pub idx_arr : ℕ → ℤ → State Heap Value
idx_arr p n = do a ← read_arr p; check (ltb_ℤ n (pos a.length)) vm_error; load_at p n

abbrev pub char_or_fault : Option ℕ → State Heap Value
char_or_fault none = halt bad_access
char_or_fault (some c) = pure (chr c)

abbrev pub char_at : List ℕ → ℤ → State Heap Value
char_at bytes (pos i) = char_or_fault (get_elem? bytes i)
char_at bytes (negsuc i) = halt bad_access

unfoldable pub idx_str : ℕ → List ℕ → ℤ → State Heap Value
idx_str len bytes n = do check (ltb_ℤ n (pos len)) vm_error; char_at bytes n

abbrev pub idx_body : Body → ℕ → ℤ → State Heap Value
idx_body (arr _) p n = idx_arr p n
idx_body (str len bytes) p n = idx_str len bytes n
idx_body _ p n = halt vm_error

unfoldable pub idx_obj : Value → ℤ → State Heap Value
idx_obj (ptr p) n = do o ← read_obj p; idx_body o.body p n
idx_obj _ n = halt vm_error

-- The index must be there and be an integer.
unfoldable pub idx_num : Value → State Heap ℤ
idx_num v = do check (not (is_null v)) vm_error; known ← is_int v; check known vm_error; int_val v

unfoldable pub idx : State Machine (Unit {0})
idx = do
  i ← stack_pop
  obj ← stack_pop
  check (not (is_null obj)) vm_error
  n ← on_heap (idx_num i)
  v ← on_heap (idx_obj obj n)
  stack_push v
