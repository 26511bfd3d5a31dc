-- ===== src/Cheney/Tests.antt =====
-- vm/memory.c: collections of the small heap.
use kek_on_rails.Base.{ℕ, ◌≡◌, refl, Option, none, some, [], ◌∷◌, arith}
use kek_on_rails.Cheney.{copy_root_obj, copy_neighbor_inner, inner_fields, copy_neighbor, scan_loop}
use kek_on_rails.Cheney.Collection.{RootsFollow, IsCollected, scavenge_collects}
use kek_on_rails.Cheney.Copying.{Fits}
use kek_on_rails.Cheney.Malloc.{CollectsFirst, cheney_malloc_collects}
use kek_on_rails.Cheney.Results.{SameSight, scavenge_unseen}
use kek_on_rails.Cheney.Roots.{
  RootVars, move_all, carr_roots, gc_rootset, swap_spaces, scavenge, cheney_malloc,
}
use kek_on_rails.Cheney.Sample.{
  young_obj, text_obj, sample, sample_roots, sample-IsWhole, sample-Fits, sample-AreRoots,
  sample-AreConstsFixed, text_fits_too,
}
use kek_on_rails.Objects.{Obj, null, imm, ptr, udo}
use kek_on_rails.OldSpace.{gc_os_is_in_old, move_slots}
use kek_on_rails.Outcome.{Outcome, ok, stop}
use kek_on_rails.Space.{Space, load, store, copy_obj_to_space_free, forward, move_obj}
use kek_on_rails.State.{Returns, Ends}

abbrev roots_of : Outcome (RootVars × Space) → Option RootVars
roots_of (ok (r, s)) = some r
roots_of (stop e) = none

abbrev cell_of : Outcome (RootVars × Space) → ℕ → Option Obj
cell_of (ok (r, s)) p = s.cell p
cell_of (stop e) p = none

moved_roots :
    roots_of (scavenge 0 9 sample_roots sample)
    ≡ some (record {
      statics = ptr 2000000 ∷ null ∷ [];
      variables = ptr 2000040 ∷ [];
      carrlist = 56 ∷ [];
      stack_vars = imm 7 ∷ ptr 8 ∷ ptr 2000040 ∷ [];
      remembered = [];
    })
unfolding scavenge swap_spaces gc_rootset move_all carr_roots copy_root_obj scan_loop copy_neighbor
    inner_fields move_slots copy_neighbor_inner gc_os_is_in_old move_obj copy_obj_to_space_free
    forward load store
moved_roots = refl

moved_user :
    cell_of (scavenge 0 9 sample_roots sample) 2000040
    ≡ some (young_obj (some 0) (udo 0 (ptr 2000040 ∷ ptr 2000000 ∷ ptr 8 ∷ [])))
unfolding scavenge swap_spaces gc_rootset move_all carr_roots copy_root_obj scan_loop copy_neighbor
    inner_fields move_slots copy_neighbor_inner gc_os_is_in_old move_obj copy_obj_to_space_free
    forward load store
moved_user = refl

scavenge_unseen_example :
    Ends
      (Fits (swap_spaces sample) (swap_spaces sample))
      (λ r' t. SameSight (swap_spaces sample) sample_roots t r')
      (scavenge 0 524289 sample_roots sample)
scavenge_unseen_example =
    scavenge_unseen sample 0 524289 sample_roots sample-IsWhole sample-AreRoots
      sample-AreConstsFixed (omega arith)

scavenge_collects_example :
    Ends
      (Fits (swap_spaces sample) (swap_spaces sample))
      (λ r' t.
        RootsFollow (swap_spaces sample) t sample_roots r' × IsCollected (swap_spaces sample) t)
      (scavenge 0 524289 sample_roots sample)
scavenge_collects_example =
    scavenge_collects sample sample-IsWhole 0 524289 sample_roots (omega arith) sample-AreRoots

cheney_malloc_collects_example :
    Returns
      (CollectsFirst 0 524289 524100 text_obj sample_roots sample)
      (cheney_malloc 0 524289 524100 text_obj sample_roots sample)
cheney_malloc_collects_example =
    cheney_malloc_collects 0 524289 524100 text_obj sample_roots sample (omega arith) sample-IsWhole
      sample-AreRoots sample-AreConstsFixed sample-Fits text_fits_too (omega arith)
