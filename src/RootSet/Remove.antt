-- ===== src/RootSet/Remove.antt =====
-- `gc_rootset_remove_id` at an entry that is not the last, and at one that is.
use mathlib.Core.Path.{subst}
use kek_on_rails.Base.{
  ℕ, zero, suc, ◌<◌, ◌≡◌, refl, sym, ◌∙◌, ◌≢◌, Option, none, some, [], ◌∷◌, ◌++◌, arith, eq→==,
  ne→==, length, length-append,
}
use kek_on_rails.Outcome.{ok}
use kek_on_rails.RootSet.{
  null_node, RootNode, Roots, put_node, store_node, take_over, remove_loop, gc_rootset_remove_id,
  gc_rootset_walk,
}
use kek_on_rails.RootSet.Chain.{
  Root, Cells, root_node, AllCells, Chain, Without, Chain-frame, IsOutside-put, load_node_lem,
  remove_loop-Without, objs, gc_rootset_walk-objs,
}
use kek_on_rails.State.{Returns, Returns-mono, returns}

AllCells-append :
    (P : ℕ × Root → Type 0) (xs ys : Cells) → AllCells P (xs ++ ys) → AllCells P xs × AllCells P ys
AllCells-append P [] ys h = (tt, h)
AllCells-append P (x ∷ xs) ys (h, hs) = let (l, r) = AllCells-append P xs ys hs in ((h, l), r)

append-AllCells :
    (P : ℕ × Root → Type 0) (xs ys : Cells) → AllCells P xs → AllCells P ys → AllCells P (xs ++ ys)
append-AllCells P [] ys h k = k
append-AllCells P (x ∷ xs) ys (h, hs) k = (h, append-AllCells P xs ys hs k)

-- The heap in which `a` has taken over what `b` held, and `b` is freed.
abbrev spliced : (ℕ → Option RootNode) → ℕ → ℕ → Root → ℕ → ℕ → Option RootNode
spliced node a q s b = put_node (put_node node a (some (root_node q s))) b none

take_over_lem :
    (st : Roots) (a b q : ℕ) (s : Root)
    → st.node b ≡ some (root_node q s)
    → take_over a b st ≡ ok (q, record st { node = spliced st.node a q s b })
unfolding take_over store_node
take_over_lem st a b q s e = rw (load_node_lem st b (root_node q s) e)

-- What is left when the entry at `a` is removed with one behind it, at `b`: the chain without that
-- entry, the other entries in their order, the freed node gone and every other node untouched.
pub record Removed (st g : Roots) (p : ℕ) (pre : Cells) (a : ℕ) (s : Root) (b : ℕ) (post : Cells)
    : Type 0 where
  pub chain : Chain g.node p (pre ++ (a, s) ∷ post)
  pub freed : g.node b ≡ none
  pub others : (q : ℕ) → q ≢ a → q ≢ b → g.node q ≡ st.node q
  pub head : g.head ≡ st.head
  pub last_uid : g.last_uid ≡ st.last_uid

module _ (st : Roots) (id a b : ℕ) (r s : Root) (post : Cells) where
  abbrev whole : Cells → Cells
  whole pre = pre ++ (a, r) ∷ (b, s) ∷ post

  -- The entry stands first.
  remove_first :
      (fuel p : ℕ)
      → Chain st.node p (whole [])
      → r.uid ≡ id
      → Without id post
      → length (whole []) < fuel
      → Returns (λ _ g. Removed st g p [] a s b post) (remove_loop fuel id p st)
  unfolding remove_loop
  remove_first zero p h u w f = absurd (omega arith)
  remove_first (suc fuel) p (e, nza, (ab, outa), (b', ata, (e', nzb, outb, (q, atb, rest)))) u w f =
      let at : st.node a ≡ some (root_node b r) = rw e' at ata in
      let g : Roots = record st { node = spliced st.node a q s b } in
      let left : Chain g.node q post =
        Chain-frame (put_node st.node a (some (root_node q s))) g.node q post
          (Chain-frame st.node (put_node st.node a (some (root_node q s))) q post rest
            (IsOutside-put st.node a _ post outa))
          (IsOutside-put (put_node st.node a (some (root_node q s))) b none post outb) in
      rw
        (
          e,
          ne→== a null_node nza,
          load_node_lem st a (root_node b r) at,
          eq→== r.uid id u,
          ne→== b null_node nzb,
          take_over_lem st a b q s atb,
          remove_loop-Without g fuel id q post left w (omega arith),
        )
        (returns (record {
          chain = (refl, nza, outa, (q, rw (ne→== b a ab, eq→== a a refl), left));
          freed = rw (eq→== b b refl);
          others = λ c na nb. rw (ne→== b c (λ x. nb (sym x)), ne→== a c (λ x. na (sym x)));
          head = refl;
          last_uid = refl;
        }))

  remove_loop-Removed :
      (pre : Cells) (fuel p : ℕ)
      → Chain st.node p (whole pre)
      → Without id pre
      → r.uid ≡ id
      → Without id post
      → length (whole pre) < fuel
      → Returns (λ _ g. Removed st g p pre a s b post) (remove_loop fuel id p st)
  unfolding remove_loop
  remove_loop-Removed [] fuel p h wpre u w f = remove_first fuel p h u w f
  remove_loop-Removed ((c, t) ∷ pre) zero p h wpre u w f = absurd (omega arith)
  remove_loop-Removed ((c, t) ∷ pre) (suc fuel) p (e, nz, out, (q, at, rest)) (wc, wpre) u w f =
      let (outl, (ca, (cb, outr))) =
        AllCells-append (λ k. k.0 ≢ c) pre ((a, r) ∷ (b, s) ∷ post) out in
      rw (e, ne→== c null_node nz, load_node_lem st c (root_node q t) at, ne→== t.uid id wc)
        (Returns-mono (remove_loop-Removed pre fuel q rest wpre u w (omega arith)) λ _ g rm.
          record {
            chain = (
              refl,
              nz,
              append-AllCells (λ k. k.0 ≢ c) pre ((a, s) ∷ post) outl (ca, outr),
              (q, rm.others c (λ x. ca (sym x)) (λ x. cb (sym x)) ∙ at, rm.chain),
            );
            freed = rm.freed;
            others = rm.others;
            head = rm.head;
            last_uid = rm.last_uid;
          })

-- Removing the id of an entry that has another behind it takes exactly that entry out of the list:
-- the entries before it and behind it stay in their order, one node is freed, and the walk of the
-- collector hands over the remaining variables.
pub gc_rootset_remove_id-Removed :
    (st : Roots) (fuel : ℕ) (pre : Cells) (a : ℕ) (r : Root) (b : ℕ) (s : Root) (post : Cells)
    → Chain st.node st.head (pre ++ (a, r) ∷ (b, s) ∷ post)
    → st.head ≢ null_node
    → Without r.uid pre
    → Without r.uid post
    → length (pre ++ (a, r) ∷ (b, s) ∷ post) < fuel
    → Returns
        (λ _ g.
          Removed st g st.head pre a s b post
          × (gc_rootset_walk fuel g.head g ≡ ok (objs (pre ++ (a, s) ∷ post), g)))
        (gc_rootset_remove_id fuel r.uid st)
unfolding gc_rootset_remove_id
gc_rootset_remove_id-Removed st fuel pre a r b s post h nz wpre wpost f =
    rw (ne→== st.head null_node nz) (
      Returns-mono (remove_loop-Removed st r.uid a b r s post pre fuel st.head h wpre refl wpost f)
        λ _ g rm. (
          rm,
          gc_rootset_walk-objs g fuel g.head (pre ++ (a, s) ∷ post)
              (subst (λ p. Chain g.node p (pre ++ (a, s) ∷ post)) (sym rm.head) rm.chain)
              (omega (
                arith,
                f,
                length-append pre ((a, s) ∷ post),
                length-append pre ((a, r) ∷ (b, s) ∷ post),
              )),
        ))
