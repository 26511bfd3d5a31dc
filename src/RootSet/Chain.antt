-- ===== src/RootSet/Chain.antt =====
-- The root set as the list of its entries, with the address of each.
use kek_on_rails.Base.{
  ℕ, zero, suc, ◌<◌, ◌≡◌, sym, ◌∙◌, ◌≢◌, Option, some, List, [], ◌∷◌, arith, eq→==, ne→==, length,
}
use kek_on_rails.Outcome.{ok}
use kek_on_rails.RootSet.{
  null_node, RootNode, Roots, put_node, load_node, remove_loop, gc_rootset_walk,
}

pub record Root : Type 0 where
  pub obj : ℕ
  pub uid : ℕ

abbrev pub Cells : Type 0
Cells = List (ℕ × Root)

abbrev pub root_node : ℕ → Root → RootNode
root_node q r = record { next = q; obj = r.obj; uid = r.uid }

abbrev pub AllCells : (ℕ × Root → Type 0) → Cells → Type 0
AllCells P [] = Unit
AllCells P (c ∷ cs) = P c × AllCells P cs

abbrev pub IsOutside : ℕ → Cells → Type 0
IsOutside a = AllCells (λ c. c.0 ≢ a)

-- From `p` the pointers lead through the cells, each at its own address, to the null pointer.
abbrev pub Chain : (ℕ → Option RootNode) → ℕ → Cells → Type 0
Chain node p [] = p ≡ null_node
Chain node p ((a, r) ∷ cs) =
    (p ≡ a)
    × (a ≢ null_node)
    × IsOutside a cs
    × ((q : ℕ) × (node a ≡ some (root_node q r)) × Chain node q cs)

abbrev pub Without : ℕ → Cells → Type 0
Without id = AllCells (λ c. c.1.uid ≢ id)

abbrev pub objs : Cells → List ℕ
objs [] = []
objs ((a, r) ∷ cs) = r.obj ∷ objs cs

-- A change outside the cells leaves the chain.
pub Chain-frame :
    (node node' : ℕ → Option RootNode) (p : ℕ) (cs : Cells)
    → Chain node p cs
    → AllCells (λ c. node' c.0 ≡ node c.0) cs
    → Chain node' p cs
Chain-frame node node' p [] h same = h
Chain-frame node node' p ((a, r) ∷ cs) (e, nz, out, (q, at, rest)) (here, same) =
    (e, nz, out, (q, here ∙ at, Chain-frame node node' q cs rest same))

pub IsOutside-put :
    (node : ℕ → Option RootNode) (a : ℕ) (n : Option RootNode) (cs : Cells)
    → IsOutside a cs
    → AllCells (λ c. put_node node a n c.0 ≡ node c.0) cs
IsOutside-put node a n [] h = tt
IsOutside-put node a n ((b, r) ∷ cs) (h, hs) =
    (rw (ne→== a b (λ e. h (sym e))), IsOutside-put node a n cs hs)

pub load_node_lem :
    (s : Roots) (p : ℕ) (n : RootNode) → s.node p ≡ some n → load_node p s ≡ ok (n, s)
unfolding load_node
load_node_lem s p n e = rw (load_node, e)

-- The walk hands over exactly the variables of the chain, in its order.
pub gc_rootset_walk-objs :
    (s : Roots) (fuel p : ℕ) (cs : Cells)
    → Chain s.node p cs
    → length cs < fuel
    → gc_rootset_walk fuel p s ≡ ok (objs cs, s)
unfolding gc_rootset_walk
gc_rootset_walk-objs s zero p cs h f = absurd (omega arith)
gc_rootset_walk-objs s (suc fuel) p [] h f = rw (eq→== p null_node h)
gc_rootset_walk-objs s (suc fuel) p ((a, r) ∷ cs) (e, nz, out, (q, at, rest)) f = rw (
  e,
  ne→== a null_node nz,
  load_node_lem s a (root_node q r) at,
  gc_rootset_walk-objs s fuel q cs rest (omega arith),
)

-- Where nothing has the id, the loop changes nothing.
pub remove_loop-Without :
    (s : Roots) (fuel id p : ℕ) (cs : Cells)
    → Chain s.node p cs
    → Without id cs
    → length cs < fuel
    → remove_loop fuel id p s ≡ ok (tt, s)
unfolding remove_loop
remove_loop-Without s zero id p cs h w f = absurd (omega arith)
remove_loop-Without s (suc fuel) id p [] h w f = rw (eq→== p null_node h)
remove_loop-Without s (suc fuel) id p ((a, r) ∷ cs) (e, nz, out, (q, at, rest)) (w, ws) f =
    rw (e, ne→== a null_node nz, load_node_lem s a (root_node q r) at, ne→== r.uid id w)
      (remove_loop-Without s fuel id q cs rest ws (omega arith))
