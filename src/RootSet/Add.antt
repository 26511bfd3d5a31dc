-- ===== src/RootSet/Add.antt =====
-- `gc_rootset_add`, and an addition that is taken back.
-- The set with one more entry in front.
use mathlib.Core.Path.{subst}
use kek_on_rails.Base.{
  ℕ, ◌+◌, ◌%◌, ◌^◌, ◌<◌, ◌≡◌, refl, sym, ◌∙◌, ◌≢◌, [], ◌∷◌, arith, eq→==, length,
}
use kek_on_rails.RootSet.{null_node, Roots, put_node, gc_rootset_add, gc_rootset_remove_id}
use kek_on_rails.RootSet.Chain.{Root, Cells, IsOutside, Chain, Without, Chain-frame, IsOutside-put}
use kek_on_rails.RootSet.Remove.{gc_rootset_remove_id-Removed}
use kek_on_rails.State.{◌>>=◌, Returns, Returns-bind, Returns-mono, returns}

pub gc_rootset_add-Chain :
    (st : Roots) (fresh obj : ℕ) (cs : Cells)
    → Chain st.node st.head cs
    → fresh ≢ null_node
    → IsOutside fresh cs
    → let uid : ℕ = (st.last_uid + 1) % 2 ^ 32 in
      Returns
        (λ id g.
          (id ≡ uid)
          × (g.last_uid ≡ uid)
          × (g.head ≡ fresh)
          × Chain g.node g.head ((fresh, record { obj = obj; uid = uid }) ∷ cs))
        (gc_rootset_add fresh obj st)
unfolding gc_rootset_add
gc_rootset_add-Chain st fresh obj cs h nz out = returns (
  refl,
  refl,
  refl,
  (
    refl,
    nz,
    out,
    (
      st.head,
      rw (eq→== fresh fresh refl),
      Chain-frame st.node (put_node st.node fresh _) st.head cs h
          (IsOutside-put st.node fresh _ cs out),
    ),
  ),
)

-- The use that the machine makes of the set: an id that was just added is removed again, and the
-- variables in the set are those from before, in their order. The set must not have been empty,
-- and no entry may have the new id.
pub add-remove_id-Chain :
    (st : Roots) (fuel fresh obj b : ℕ) (s : Root) (cs : Cells)
    → Chain st.node st.head ((b, s) ∷ cs)
    → fresh ≢ null_node
    → IsOutside fresh ((b, s) ∷ cs)
    → Without ((st.last_uid + 1) % 2 ^ 32) cs
    → length cs + 2 < fuel
    → Returns
        (λ _ g. Chain g.node g.head ((fresh, s) ∷ cs))
        ((gc_rootset_add fresh obj >>= λ id. gc_rootset_remove_id fuel id) st)
add-remove_id-Chain st fuel fresh obj b s cs h nz out w f =
    Returns-bind (gc_rootset_add-Chain st fresh obj ((b, s) ∷ cs) h nz out)
      λ id g (e, _, head, chain). rw e (
        Returns-mono
          (gc_rootset_remove_id-Removed g fuel [] fresh
            (record { obj = obj; uid = (st.last_uid + 1) % 2 ^ 32 }) b s cs chain
            (λ x. nz (sym head ∙ x)) tt w (omega arith))
          λ _ k (rm, _). subst (λ p. Chain k.node p ((fresh, s) ∷ cs)) (sym rm.head) rm.chain)
