-- ===== src/OldSpace/Barrier.antt =====
-- vm/memory.c: the write barrier, which ST calls in the generational collectors after it has stored a
-- pointer.
use kek_on_rails.Base.{ℕ, ◌+◌, false, Option, none, some, List, [], ◌∷◌, if◌then◌else◌}
use kek_on_rails.OldSpace.{gc_os_is_in_old, gc_os_is_in_new}
use kek_on_rails.Outcome.{assertion}
use kek_on_rails.RememberSet.{Entry}
use kek_on_rails.Space.{Space, sizeof_header, ptr_in_to_space}
use kek_on_rails.State.{State, pure, ◌>>=◌, ◌>>◌, get, check}

-- `addr` is the address that was written and `p` the pointer that now stands there. An address that
-- belongs to no object is that of a static variable.
unfoldable pub gc_os_write_barrier : Option ℕ → ℕ → ℕ → List Entry → State Space (List Entry)
gc_os_write_barrier none addr p es = pure es
gc_os_write_barrier (some obj) addr p es = do
  old ← gc_os_is_in_old obj
  new ← if old then gc_os_is_in_new p else pure false
  if new
      then (do
        s ← get
        check (ptr_in_to_space s p sizeof_header) assertion
        pure (record { old_obj = obj; new_obj = addr } ∷ es))
      else pure es

unfoldable pub gc_os_rs_items_cnt : List Entry → ℕ
gc_os_rs_items_cnt [] = 0
gc_os_rs_items_cnt (e ∷ es) = gc_os_rs_items_cnt es + 1

unfoldable pub gc_os_items_cnt : List ℕ → ℕ
gc_os_items_cnt [] = 0
gc_os_items_cnt (p ∷ ps) = gc_os_items_cnt ps + 1
