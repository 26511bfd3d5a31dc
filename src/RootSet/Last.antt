-- ===== src/RootSet/Last.antt =====
-- `gc_rootset_remove_id` at the last entry of a list that has others.
-- The heap in which the node at `a` is freed and nothing else has changed.
use kek_on_rails.Base.{
  ℕ, zero, suc, ◌<◌, ◌≡◌, refl, ◌≢◌, none, some, [], ◌∷◌, ◌++◌, arith, eq→==, ne→==, length, sym,
  ◌∙◌,
}
use kek_on_rails.Outcome.{bad_access, ok, stop}
use kek_on_rails.RootSet.{
  null_node, Roots, put_node, load_node, store_node, drop_last, remove_loop, gc_rootset_remove_id,
  gc_rootset_walk,
}
use kek_on_rails.RootSet.Chain.{Root, Cells, root_node, IsOutside, Chain, Without, load_node_lem}
use kek_on_rails.State.{◌>>◌}

abbrev freed_at : Roots → ℕ → Roots
freed_at st a = record st { node = put_node st.node a none }

drop_last_lem : (st : Roots) (a : ℕ) → st.head ≢ a → drop_last a st ≡ ok (tt, freed_at st a)
unfolding drop_last store_node
drop_last_lem st a ne = rw (ne→== st.head a ne)

last_loop :
    (st : Roots) (fuel p : ℕ) (pre : Cells) (a : ℕ) (r : Root)
    → Chain st.node p (pre ++ (a, r) ∷ [])
    → st.head ≢ a
    → Without r.uid pre
    → length (pre ++ (a, r) ∷ []) < fuel
    → remove_loop fuel r.uid p st ≡ ok (tt, freed_at st a)
unfolding remove_loop
last_loop st zero p pre a r h ne w f = absurd (omega arith)
last_loop st (suc fuel) p [] a r (e, nz, out, (q, at, end')) ne w f =
    rw
      (
        e,
        ne→== a null_node nz,
        load_node_lem st a (root_node q r) at,
        eq→== r.uid r.uid refl,
        eq→== q null_node end',
      )
      (drop_last_lem st a ne)
last_loop st (suc fuel) p ((c, t) ∷ pre) a r (e, nz, out, (q, at, rest)) ne (wc, w) f =
    rw (e, ne→== c null_node nz, load_node_lem st c (root_node q t) at, ne→== t.uid r.uid wc)
      (last_loop st fuel q pre a r rest ne w (omega arith))

load_node-freed : (st : Roots) (a : ℕ) → load_node a (freed_at st a) ≡ stop bad_access
unfolding load_node
load_node-freed st a = rw (load_node, eq→== a a refl)

outside_last : (c a : ℕ) (r : Root) (cs : Cells) → IsOutside c (cs ++ (a, r) ∷ []) → a ≢ c
outside_last c a r [] (h, _) = h
outside_last c a r (x ∷ xs) (_, h) = outside_last c a r xs h

-- The collector's walk over a list whose last node was freed.
walk_into_freed :
    (st : Roots) (fuel p : ℕ) (pre : Cells) (a : ℕ) (r : Root)
    → Chain st.node p (pre ++ (a, r) ∷ [])
    → length (pre ++ (a, r) ∷ []) < fuel
    → gc_rootset_walk fuel p (freed_at st a) ≡ stop bad_access
unfolding gc_rootset_walk
walk_into_freed st zero p pre a r h f = absurd (omega arith)
walk_into_freed st (suc fuel) p [] a r (e, nz, _, _) f =
    rw (e, ne→== a null_node nz, load_node-freed st a)
walk_into_freed st (suc fuel) p ((c, t) ∷ pre) a r (e, nz, out, (q, at, rest)) f =
    let there : (freed_at st a).node c ≡ some (root_node q t) =
      rw (ne→== a c (outside_last c a r pre out)) at in
    rw (
      e,
      ne→== c null_node nz,
      load_node_lem (freed_at st a) c (root_node q t) there,
      walk_into_freed st fuel q pre a r rest (omega arith),
    )

-- Removing the id of the last of several entries frees its node, but the node before keeps its
-- pointer to it: the next walk of the collector over the set reads freed memory.
pub gc_rootset_remove_id-dangling :
    (st : Roots) (fuel c : ℕ) (t : Root) (pre : Cells) (a : ℕ) (r : Root)
    → Chain st.node st.head ((c, t) ∷ (pre ++ (a, r) ∷ []))
    → Without r.uid ((c, t) ∷ pre)
    → length ((c, t) ∷ (pre ++ (a, r) ∷ [])) < fuel
    → (gc_rootset_remove_id fuel r.uid >> gc_rootset_walk fuel st.head) st ≡ stop bad_access
unfolding gc_rootset_remove_id
gc_rootset_remove_id-dangling st fuel c t pre a r (e, nz, out, rest) w f = rw (
  ne→== st.head null_node (λ x. nz (sym e ∙ x)),
  last_loop st fuel st.head ((c, t) ∷ pre) a r (e, nz, out, rest)
      (λ x. outside_last c a r pre out (sym x ∙ e)) w f,
  walk_into_freed st fuel st.head ((c, t) ∷ pre) a r (e, nz, out, rest) f,
)
