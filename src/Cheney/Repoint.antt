-- ===== src/Cheney/Repoint.antt =====
-- vm/memory.c: the part of `gc_rootset` for the arrays of the table of constants.
use mathlib.Core.Path.{subst}
use kek_on_rails.Base.{
  ℕ, ◌≤◌, ◌<◌, ◌≡◌, sym, ◌∙◌, ◌≢◌, ◌⊎◌, inl, inr, true, false, some, List, [], ◌∷◌, arith, refl, ap,
}
use kek_on_rails.Cheney.Copying.{
  IsMoved, Follows, IsRepointed, Kept, Pending, Stands, IsCopying, Follows-mono,
  HasScannedCopy-mono, Kept-mono, repointed, first, IsRepointed-mono, later, Fits, Within-mono,
}
use kek_on_rails.Cheney.Fields.{MovesObjects}
use kek_on_rails.Cheney.Inner.{Moves}
use kek_on_rails.Cheney.Moves.{Layout-mono, update_self, update_ne, load_lem}
use kek_on_rails.Cheney.Roots.{carr_elems, carr_roots}
use kek_on_rails.Cheney.Steps.{place-ne, eq_or_ne}
use kek_on_rails.Cheney.Whole.{Outside, IsObject}
use kek_on_rails.Classes.Names.{true-false}
use kek_on_rails.Heap.{update}
use kek_on_rails.Objects.{ArrayHead, Obj, ptr, arr, Body}
use kek_on_rails.OldSpace.{to_elems, move_elems}
use kek_on_rails.Outcome.{bad_access}
use kek_on_rails.Space.{Space, store, is_const}
use kek_on_rails.State.{State, Ends, Ends-bind, ends, Ends-mono, pure, and_then}

-- An array of the table of constants, with elements.
pub record IsConstArray (s0 : Space) (p : ℕ) : Type 0 where
  pub old : Obj
  pub head : ArrayHead
  pub from_elems : ℕ
  pub constant : is_const s0 p ≡ true
  pub place : Outside s0 p
  pub was : s0.cell p ≡ some old
  pub array : old.body ≡ arr head
  pub elements : head.elems ≡ some from_elems
  pub object : IsObject s0 from_elems

module _ {s0 t : Space} {d p q : ℕ} (c : IsConstArray s0 p) (h : IsCopying s0 d t)
    (follows : Follows s0 t (ptr c.from_elems) (ptr q)) where
  abbrev pub after_repoint : Space
  after_repoint = record t { cell = update t.cell p (record c.old { body = to_elems c.head q }) }

  other-ne : (a : ℕ) → is_const s0 a ≡ false → p ≢ a
  other-ne a v e = true-false (sym c.constant ∙ subst (λ x. is_const s0 x ≡ false) (sym e) v)

  pub repoint-on : (a b : ℕ) → IsMoved s0 t a b → IsMoved s0 after_repoint a b
  repoint-on a b m = record {
    old = m.old;
    place = m.place;
    variable = m.variable;
    was = m.was;
    sound = m.sound;
    now = update_ne t.cell p a _ (other-ne a m.variable) ∙ m.now;
  }

  repoint-back : (a b : ℕ) → IsMoved s0 after_repoint a b → IsMoved s0 t a b
  repoint-back a b m = record {
    old = m.old;
    place = m.place;
    variable = m.variable;
    was = m.was;
    sound = m.sound;
    now = sym (update_ne t.cell p a _ (other-ne a m.variable)) ∙ m.now;
  }

  copy-ne : (a : ℕ) → s0.to_space ≤ a → a < t.to_space_free → p ≢ a
  copy-ne a l u = place-ne s0 p a c.place l (omega (arith, h.high))

  pub repoint-IsRepointed : IsRepointed s0 after_repoint p
  repoint-IsRepointed = record {
    old = c.old;
    head = c.head;
    from_elems = c.from_elems;
    to_place = q;
    constant = c.constant;
    was = c.was;
    array = c.array;
    elements = c.elements;
    follows = Follows-mono repoint-on follows;
    now = update_self t.cell p (record c.old { body = to_elems c.head q });
  }

  repoint-Stands :
      (old : Obj) (b : ℕ)
      → s0.to_space ≤ b
      → b < t.to_space_free
      → Stands s0 t d h.pending old b
      → Stands s0 after_repoint d h.pending old b
  repoint-Stands old b l u (inl (below_d, copy)) =
      inl (below_d, HasScannedCopy-mono repoint-on (update_ne t.cell p b _ (copy-ne b l u)) copy)
  repoint-Stands old b l u (inr (waits, there)) =
      inr (waits, update_ne t.cell p b _ (copy-ne b l u) ∙ there)

  repoint-Kept :
      (a : ℕ) (old : Obj) → Kept s0 t a old → (p ≡ a) ⊎ (p ≢ a) → Kept s0 after_repoint a old
  repoint-Kept a old k (inl e) =
      repointed (subst (IsRepointed s0 after_repoint) e repoint-IsRepointed)
  repoint-Kept a old k (inr ne) = Kept-mono repoint-on (update_ne t.cell p a _ ne) k

  pub repoint-IsCopying : IsCopying s0 d after_repoint
  unfolding repoint-back
  repoint-IsCopying = record {
    spaces = record {
      to_same = h.spaces.to_same;
      from_same = h.spaces.from_same;
      const_same = h.spaces.const_same;
      count_same = h.spaces.count_same;
      generation_same = h.spaces.generation_same;
    };
    pending = h.pending;
    low = h.low;
    high = h.high;
    layout =
        Layout-mono (λ b l u. update_ne t.cell p b _ (copy-ne b (omega (arith, h.low)) u)) h.layout;
    fits = λ f.
        Within-mono refl
          (λ a x mortal g. sym (update_ne t.cell p a _ (other-ne a mortal.variable)) ∙ g)
          (h.fits f);
    one_copy = λ a a' b m k. h.one_copy a a' b (repoint-back a b m) (repoint-back a' b k);
    kept = λ a old out was. repoint-Kept a old (h.kept a old out was) (eq_or_ne p a);
    stands = λ a b m.
        let (l, u, st) = h.stands a b (repoint-back a b m) in (l, u, repoint-Stands m.old b l u st);
  }

-- The arrays of the table of constants, each named once.
pub data AreConstArrays (s0 : Space) : List ℕ → Type 0 where
  no_arrays : AreConstArrays s0 []
  one_array :
      {p : ℕ} {ps : List ℕ}
      → IsConstArray s0 p
      → ¬ Pending p ps
      → AreConstArrays s0 ps
      → AreConstArrays s0 (p ∷ ps)

-- What the walk over these arrays gives: only they are written among the constants.
pub record Repoints (s0 : Space) (d : ℕ) (s : Space) (ps : List ℕ) (t : Space) : Type 0 where
  pub copying : IsCopying s0 d t
  pub moves : (a b : ℕ) → IsMoved s0 s a b → IsMoved s0 t a b
  pub same_scan : t.scan_ptr ≡ s.scan_ptr
  pub others : (p : ℕ) → is_const s0 p ≡ true → Outside s0 p → ¬ Pending p ps → t.cell p ≡ s.cell p
  pub repoints : (p : ℕ) → Pending p ps → IsRepointed s0 t p

pub Pending_one : {a p : ℕ} → Pending a (p ∷ []) → p ≡ a
Pending_one first = refl
Pending_one (later w) = elim w [ ]

pub array_of :
    {s0 : Space} {p : ℕ} {ps : List ℕ} → AreConstArrays s0 ps → Pending p ps → IsConstArray s0 p
array_of no_arrays w = elim w [ ]
array_of (one_array c no_dup cs) first = c
array_of (one_array c no_dup cs) (later w) = array_of cs w

Repoints-cons :
    {s0 s t u : Space} {d p : ℕ} {ps : List ℕ} (c : IsConstArray s0 p)
    → ¬ Pending p ps
    → Repoints s0 d s (p ∷ []) t
    → Repoints s0 d t ps u
    → Repoints s0 d s (p ∷ ps) u
Repoints-cons {s0} {s} {t} {u} {d} {p} {ps} c once one rest = record {
  copying = rest.copying;
  moves = λ a b m. rest.moves a b (one.moves a b m);
  same_scan = rest.same_scan ∙ one.same_scan;
  others = λ a k out other.
      rest.others a k out (λ w. other (later w))
      ∙ one.others a k out (λ w. other (subst (λ x. Pending x (p ∷ ps)) (Pending_one w) first));
  repoints = repoints;
}
  where
    repoints : (a : ℕ) → Pending a (p ∷ ps) → IsRepointed s0 u a
    repoints a first =
        IsRepointed-mono rest.moves (rest.others p c.constant c.place once) (one.repoints p first)
    repoints a (later w) = rest.repoints a w

module _ {s0 : Space} {move : ℕ → State Space ℕ} (moves : MovesObjects s0 move) where
  -- What moving the elements of an array gives.
  Points : {p : ℕ} → IsConstArray s0 p → ℕ → Space → Body → Space → Type 0
  Points c d s body t = (q : ℕ) × (body ≡ to_elems c.head q) × Moves s0 d s c.from_elems q t

  pointed :
      {s : Space} {d p : ℕ} (c : IsConstArray s0 p) (q : ℕ) (t : Space)
      → Moves s0 d s c.from_elems q t
      → Ends (Fits s0 s0) (Points c d s) (pure (to_elems c.head q) t)
  unfolding Points
  pointed c q t m = ends (q, refl, m)

  repoint_stored :
      {s : Space} {d p : ℕ} (c : IsConstArray s0 p) (body : Body) (t : Space)
      → Points c d s body t
      → Ends
          (Fits s0 s0)
          (λ _ u. Repoints s0 d s (p ∷ []) u)
          (store p (record c.old { body = body }) t)
  unfolding Points store
  repoint_stored {s} {d} {p} c body t (q, e, m) =
      subst
        (λ b.
          Ends (Fits s0 s0) (λ _ u. Repoints s0 d s (p ∷ []) u)
            (store p (record c.old { body = b }) t))
        (sym e)
        (ends (record {
          copying = repoint-IsCopying c m.0 m.2;
          moves = λ a b x. repoint-on c m.0 m.2 a b (m.1.moves a b x);
          same_scan = m.1.same_scan;
          others = λ a k out other.
              update_ne t.cell p a _ (λ f. other (subst (λ x. Pending x (p ∷ [])) f first))
              ∙ m.1.same_consts a k out;
          repoints = λ a w.
              subst (IsRepointed s0 (after_repoint c m.0 m.2)) (Pending_one w)
                (repoint-IsRepointed c m.0 m.2);
        }))

  -- One array.
  pub carr_elems-Ends :
      {s : Space} {d p : ℕ} (c : IsConstArray s0 p)
      → IsCopying s0 d s
      → Ends
          (Fits s0 s0)
          (λ _ t. Repoints s0 d s (p ∷ []) t)
          (carr_elems move p c.old (arr c.head) s)
  unfolding store
  carr_elems-Ends {s} {d} {p} c h =
      subst
        (λ r.
          Ends (Fits s0 s0) (λ _ t. Repoints s0 d s (p ∷ []) t)
            (and_then r (λ body. store p (record c.old { body = body }))))
        (sym (ap (λ e. move_elems move bad_access c.head e s) c.elements))
        (Ends-bind (Ends-bind (moves s d c.from_elems h c.object) (pointed c)) (repoint_stored c))

  pub carr_roots-Ends :
      {s : Space} {d : ℕ} (ps : List ℕ)
      → AreConstArrays s0 ps
      → IsCopying s0 d s
      → ((p : ℕ) → Pending p ps → s.cell p ≡ s0.cell p)
      → Ends (Fits s0 s0) (λ _ t. Repoints s0 d s ps t) (carr_roots move ps s)
  unfolding carr_roots
  carr_roots-Ends {s} [] cs h fresh = ends (record {
    copying = h;
    moves = λ a b m. m;
    same_scan = refl;
    others = λ p k out other. refl;
    repoints = λ p w. elim w [ ];
  })
  carr_roots-Ends {s} {d} (p ∷ ps) (one_array c once cs) h fresh =
      rw (load_lem s (fresh p first ∙ c.was), c.array)
        (Ends-bind (carr_elems-Ends c h) λ _ t one.
          Ends-mono
            (carr_roots-Ends ps cs one.copying λ a w.
              let k = array_of cs w in
              one.others a k.constant k.place
                (λ x. once (subst (λ y. Pending y ps) (sym (Pending_one x)) w))
              ∙ fresh a (later w))
            λ _ u rest. Repoints-cons c once one rest)
