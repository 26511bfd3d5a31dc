-- ===== src/Cheney/Collection.antt =====
-- vm/memory.c: `gc_rootset` and `gc_cheney_scavenge`.
use mathlib.Core.Path.{subst}
use kek_on_rails.Base.{
  ℕ, ◌∙◌, ◌+◌, ◌≤◌, ◌<◌, ◌≡◌, refl, sym, inl, inr, Bool, true, false, some, List, [], arith,
}
use kek_on_rails.Cheney.{copy_root_obj, scan_loop}
use kek_on_rails.Cheney.Copying.{
  Follows, IsRepointed, Pending, IsCopying, Persists, IsRepointed-mono, IsMoved, Kept,
  HasScannedCopy, Layout, Stands, unchanged, end, Fits, Within, SameSpaces,
}
use kek_on_rails.Cheney.Fields.{MovesObjects}
use kek_on_rails.Cheney.Inner.{copy_root_obj-Ends}
use kek_on_rails.Cheney.Moves.{Pending-le, Layout-le}
use kek_on_rails.Cheney.Repoint.{AreConstArrays, array_of, carr_roots-Ends}
use kek_on_rails.Cheney.Rooted.{
  All, Both, Both-mono, move_all-Ends, IsVariable, IsSlot, static-MovesRoot, IsVariable-MovesRoot,
}
use kek_on_rails.Cheney.Roots.{
  RootVars, gc_rootset, remembered_part, swap_spaces, drop_remembered, scavenge,
}
use kek_on_rails.Cheney.Scan.{Finished, scan_loop-Ends}
use kek_on_rails.Cheney.StackRoots.{stack-MovesRoot}
use kek_on_rails.Cheney.Steps.{not_moved}
use kek_on_rails.Cheney.Whole.{IsGood, IsWhole, Outside}
use kek_on_rails.Objects.{Obj}
use kek_on_rails.Outcome.{ok}
use kek_on_rails.RememberSet.{Entry}
use kek_on_rails.Space.{Space, new_segment_size}
use kek_on_rails.State.{State, Ends, Ends-bind, pure, ◌>>◌, ends, and_then, ◌>>=◌}

-- The variables that a collection can start from.
pub record AreRoots (s0 : Space) (r : RootVars) : Type 0 where
  pub statics_good : All (IsGood s0) r.statics
  pub variables_good : All (IsVariable s0) r.variables
  pub arrays_good : AreConstArrays s0 r.carrlist
  pub slots_good : All (IsSlot s0) r.stack_vars

-- The variables `r'` follow the variables `r`, and the constant arrays are as they must be.
pub record RootsFollow (s0 t : Space) (r r' : RootVars) : Type 0 where
  pub statics_follow : Both (Follows s0 t) r.statics r'.statics
  pub variables_follow : Both (Follows s0 t) r.variables r'.variables
  pub stack_follow : Both (Follows s0 t) r.stack_vars r'.stack_vars
  pub arrays_follow : (p : ℕ) → Pending p r.carrlist → IsRepointed s0 t p

pub RootsFollow-mono :
    {s0 t u : Space} {r r' : RootVars}
    → AreConstArrays s0 r.carrlist
    → Persists s0 t u
    → RootsFollow s0 t r r'
    → RootsFollow s0 u r r'
RootsFollow-mono cs on f = record {
  statics_follow = Both-mono on.moves f.statics_follow;
  variables_follow = Both-mono on.moves f.variables_follow;
  stack_follow = Both-mono on.moves f.stack_follow;
  arrays_follow = λ p w.
      let c = array_of cs w in
      IsRepointed-mono on.moves (on.same_consts p c.constant c.place) (f.arrays_follow p w);
}

abbrev pub Rooted : Space → ℕ → RootVars → RootVars → Space → Type 0
Rooted s0 d r r' t = IsCopying s0 d t × RootsFollow s0 t r r' × (t.scan_ptr ≡ s0.scan_ptr)

remembered_none :
    (generational : Bool) (move : ℕ → State Space ℕ) (es : List Entry) (r : RootVars) (s : Space)
    → generational ≡ false
    → (remembered_part generational move es >> pure r) s ≡ ok (r, s)
remembered_none true move es r s e = cc
remembered_none false move es r s e = refl

module _ {s0 : Space} {move : ℕ → State Space ℕ} (moves : MovesObjects s0 move)
    (whole : IsWhole s0) where
  pub gc_rootset-Ends :
      {d : ℕ} (r : RootVars)
      → AreRoots s0 r
      → IsCopying s0 d s0
      → Ends (Fits s0 s0) (Rooted s0 d r) (gc_rootset move r s0)
  unfolding gc_rootset
  gc_rootset-Ends {d} r roots h =
      Ends-bind (move_all-Ends (static-MovesRoot moves) r.statics roots.statics_good h)
        λ statics s a.
          Ends-bind
            (move_all-Ends (IsVariable-MovesRoot moves) r.variables roots.variables_good a.0)
            λ variables t b.
              Ends-bind
                (carr_roots-Ends moves r.carrlist roots.arrays_good b.0 λ p w.
                  let c = array_of roots.arrays_good w in
                  b.1.same_consts p c.constant c.place ∙ a.1.same_consts p c.constant c.place)
                λ _ u c.
                  Ends-bind
                    (move_all-Ends (stack-MovesRoot moves whole) r.stack_vars roots.slots_good
                      c.copying)
                    λ stack_vars v e.
                      subst (Ends (Fits s0 s0) (Rooted s0 d r))
                        (sym (
                          remembered_none v.generational move r.remembered _ v
                            (e.0.spaces.generation_same ∙ whole.one_generation)))
                        (ends (
                          e.0,
                          record {
                            statics_follow =
                                Both-mono (λ p q m. e.1.moves p q (c.moves p q (b.1.moves p q m)))
                                  a.2;
                            variables_follow =
                                Both-mono (λ p q m. e.1.moves p q (c.moves p q m)) b.2;
                            stack_follow = e.2;
                            arrays_follow = λ p w.
                                let k = array_of roots.arrays_good w in
                                IsRepointed-mono e.1.moves (e.1.same_consts p k.constant k.place)
                                  (c.repoints p w);
                          },
                          e.1.same_scan ∙ c.same_scan ∙ b.1.same_scan ∙ a.1.same_scan,
                        ))

-- What a collection that ends has done: every object that has moved has one copy in the to-space,
-- and all references of the copy follow those of the object.
pub record IsCollected (s0 t : Space) : Type 0 where
  pub spaces : SameSpaces s0 t
  pub above : s0.to_space ≤ t.to_space_free
  pub fits : (f : Fits s0 s0) → Within s0 t f
  pub one_copy : (p p' q : ℕ) → IsMoved s0 t p q → IsMoved s0 t p' q → p ≡ p'
  pub inside : (p q : ℕ) → IsMoved s0 t p q → (s0.to_space ≤ q) × (q < t.to_space_free)
  pub within : t.to_space_free < s0.to_space + new_segment_size
  pub scanned : (p q : ℕ) (m : IsMoved s0 t p q) → HasScannedCopy s0 t m.old q
  pub kept : (p : ℕ) (old : Obj) → Outside s0 p → s0.cell p ≡ some old → Kept s0 t p old

Stands-scanned :
    {s0 t : Space} {d : ℕ} {qs : List ℕ} {old : Obj} {q : ℕ}
    → Layout s0 t d qs t.to_space_free
    → t.to_space_free ≤ d
    → Stands s0 t d qs old q
    → HasScannedCopy s0 t old q
Stands-scanned layout all (inl (below_d, copy)) = copy
Stands-scanned layout all (inr (waits, there)) = absurd (omega (arith, Pending-le layout waits))

Finished-IsCollected : {s0 s t : Space} → Finished s0 s tt t → IsCollected s0 t
Finished-IsCollected (h, on, all) = record {
  spaces = h.spaces;
  above = omega (arith, h.low, Layout-le h.layout);
  fits = h.fits;
  one_copy = h.one_copy;
  inside = λ p q m. let (l, u, st) = h.stands p q m in (l, u);
  within = h.high;
  scanned = λ p q m. let (l, u, st) = h.stands p q m in Stands-scanned h.layout all st;
  kept = h.kept;
}

-- At the start of a collection nothing has moved.
pub nothing_moved : {s0 : Space} {p q : ℕ} {A : Type 0} → IsMoved s0 s0 p q → A
nothing_moved m = not_moved m m.was m.sound

start-IsCopying : (s0 : Space) → s0.to_space_free ≡ s0.to_space → IsCopying s0 s0.to_space s0
start-IsCopying s0 e = record {
  spaces = record {
    to_same = refl;
    from_same = refl;
    const_same = refl;
    count_same = refl;
    generation_same = refl;
  };
  pending = [];
  low = omega arith;
  high = omega (arith, e);
  layout = subst (Layout s0 s0 s0.to_space []) (sym e) end;
  fits = λ f. record { rest = f; used = omega arith };
  one_copy = λ p p' q m k. nothing_moved m;
  kept = λ p old out was. unchanged was;
  stands = λ p q m. nothing_moved m;
}

module _ (s : Space) (whole : IsWhole (swap_spaces s)) where
  roots_moved : (depth : ℕ) → MovesObjects (swap_spaces s) (copy_root_obj depth)
  roots_moved depth t d p h object = copy_root_obj-Ends whole h depth p object

  drop_none :
      (generational : Bool) (r : RootVars) (t : Space)
      → generational ≡ false
      → drop_remembered generational r t ≡ ok (r, t)
  drop_none true r t e = cc
  drop_none false r t e = refl

  finish :
      (fuel : ℕ) (r r' : RootVars) (t : Space)
      → new_segment_size < fuel
      → AreRoots (swap_spaces s) r
      → Rooted (swap_spaces s) (swap_spaces s).to_space r r' t
      → Ends
          (Fits (swap_spaces s) (swap_spaces s))
          (λ r'' u. RootsFollow (swap_spaces s) u r r'' × IsCollected (swap_spaces s) u)
          ((scan_loop fuel >> pure r') t)
  unfolding swap_spaces
  finish fuel r r' t enough roots (h, follow, at_start) =
      Ends-bind
        (scan_loop-Ends whole fuel t (subst (λ d. IsCopying (swap_spaces s) d t) (sym at_start) h)
          (omega (arith, at_start)))
        λ _ u f. ends (RootsFollow-mono roots.arrays_good f.1 follow, Finished-IsCollected f)

  -- From a whole heap of one generation, whose roots point to objects, and with fuel for one round
  -- more than the to-space has bytes, a collection ends. It stops only with the source's error for
  -- a full to-space, and only where the objects of the old heap do not all fit there. Otherwise
  -- every root has become the reference to the copy of its object, each object has at most one
  -- copy, in the to-space, and each copy has been scanned: its references have been moved likewise.
  pub scavenge_collects :
      (depth fuel : ℕ) (r : RootVars)
      → new_segment_size < fuel
      → AreRoots (swap_spaces s) r
      → Ends
          (Fits (swap_spaces s) (swap_spaces s))
          (λ r' t. RootsFollow (swap_spaces s) t r r' × IsCollected (swap_spaces s) t)
          (scavenge depth fuel r s)
  unfolding scavenge swap_spaces
  scavenge_collects depth fuel r enough roots =
      subst
        (λ x.
          Ends (Fits (swap_spaces s) (swap_spaces s))
            (λ r' t. RootsFollow (swap_spaces s) t r r' × IsCollected (swap_spaces s) t)
            (and_then x (λ unique.
              gc_rootset (copy_root_obj depth) unique >>= λ moved. scan_loop fuel >> pure moved)))
        (sym (drop_none s.generational r (swap_spaces s) whole.one_generation))
        (Ends-bind
          (gc_rootset-Ends (roots_moved depth) whole r roots (start-IsCopying (swap_spaces s) refl))
          λ r' t m. finish fuel r r' t enough roots m)
