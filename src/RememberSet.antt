-- ===== src/RememberSet.antt =====
-- vm/memory.c: the set of pointers from old objects to new ones that the collector keeps, a linked
-- list that nothing else points into.
pub mod Part
pub mod Dups
mod Tests
use kek_on_rails.Base.{ℕ, zero, suc, List, [], ◌∷◌, ◌==◌, if◌then◌else◌, length}
use kek_on_rails.Outcome.{◌>>=◌, ◌>>◌, Outcome, require, vm_error, out_of_fuel, ok, stop}

-- An old object and the address of its slot that points to a new one.
pub record Entry : Type 0 where
  pub old_obj : ℕ
  pub new_obj : ℕ

-- The inner loop of `gc_os_remove_dups_in_rs`: behind the entry `e`, those of the same slot are
-- taken out, and must be of the same object.
unfoldable pub drop_dups : Entry → List Entry → Outcome (List Entry)
drop_dups e [] = ok []
drop_dups e (m ∷ ms) =
    let rest = drop_dups e ms in
    if e.new_obj == m.new_obj
    then (require (e.old_obj == m.old_obj) vm_error >> rest)
    else (rest >>= λ r. ok (m ∷ r))

-- The outer loop.
unfoldable pub remove_dups_loop : ℕ → List Entry → Outcome (List Entry)
remove_dups_loop zero es = stop out_of_fuel
remove_dups_loop (suc fuel) [] = ok []
remove_dups_loop (suc fuel) (e ∷ es) = do
  rest ← drop_dups e es
  more ← remove_dups_loop fuel rest
  ok (e ∷ more)

-- Each round is for an entry that stays, so their number is enough.
unfoldable pub gc_os_remove_dups_in_rs : List Entry → Outcome (List Entry)
gc_os_remove_dups_in_rs es = remove_dups_loop (suc (length es)) es
