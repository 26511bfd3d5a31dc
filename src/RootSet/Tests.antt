-- ===== src/RootSet/Tests.antt =====
-- The root set at three nodes: 30 in front of 20 in front of 10.
use kek_on_rails.Base.{ℕ, ◌≡◌, refl, none, some, [], ◌∷◌, arith}
use kek_on_rails.Outcome.{bad_access, ok, stop}
use kek_on_rails.RootSet.{Roots, put_node, gc_rootset_add, gc_rootset_remove_id, gc_rootset_walk}
use kek_on_rails.RootSet.Add.{add-remove_id-Chain}
use kek_on_rails.RootSet.Chain.{Root, Cells, Chain}
use kek_on_rails.RootSet.Last.{gc_rootset_remove_id-dangling}
use kek_on_rails.RootSet.Remove.{Removed, gc_rootset_remove_id-Removed}
use kek_on_rails.State.{◌>>=◌, ◌>>◌, Returns}

abbrev sample : Roots
sample = record {
  head = 30;
  last_uid = 3;
  node =
      put_node
        (put_node (put_node (λ _. none) 10 (some (record { next = 0; obj = 101; uid = 1 }))) 20
          (some (record { next = 10; obj = 102; uid = 2 })))
        30 (some (record { next = 20; obj = 103; uid = 3 }));
}

abbrev root : ℕ → ℕ → Root
root obj uid = record { obj = obj; uid = uid }

abbrev cells : Cells
cells = (30, root 103 3) ∷ (20, root 102 2) ∷ (10, root 101 1) ∷ []

sample-Chain : Chain sample.node 30 cells
sample-Chain = (
  refl,
  omega arith,
  omega arith,
  (
    20,
    refl,
    (refl, omega arith, omega arith, (10, refl, (refl, omega arith, tt, (0, refl, refl)))),
  ),
)

gc_rootset_remove_id-Removed_example :
    Returns
      (λ _ g.
        Removed sample g 30 ((30, root 103 3) ∷ []) 20 (root 101 1) 10 []
        × (gc_rootset_walk 9 g.head g ≡ ok (103 ∷ 101 ∷ [], g)))
      (gc_rootset_remove_id 9 2 sample)
gc_rootset_remove_id-Removed_example =
    gc_rootset_remove_id-Removed sample 9 ((30, root 103 3) ∷ []) 20 (root 102 2) 10 (root 101 1) []
      sample-Chain (omega arith) (omega arith) tt (omega arith)

gc_rootset_remove_id-dangling_example :
    (gc_rootset_remove_id 9 1 >> gc_rootset_walk 9 30) sample ≡ stop bad_access
gc_rootset_remove_id-dangling_example =
    gc_rootset_remove_id-dangling sample 9 30 (root 103 3) ((20, root 102 2) ∷ []) 10 (root 101 1)
      sample-Chain (omega arith) (omega arith)

add-remove_id-Chain_example :
    Returns
      (λ _ g. Chain g.node g.head ((40, root 103 3) ∷ (20, root 102 2) ∷ (10, root 101 1) ∷ []))
      ((gc_rootset_add 40 104 >>= λ id. gc_rootset_remove_id 9 id) sample)
add-remove_id-Chain_example =
    add-remove_id-Chain sample 9 40 104 30 (root 103 3) ((20, root 102 2) ∷ (10, root 101 1) ∷ [])
      sample-Chain (omega arith) (omega arith) (omega arith) (omega arith)
