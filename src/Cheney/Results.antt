-- ===== src/Cheney/Results.antt =====
-- vm/memory.c: what `gc_cheney_scavenge` does for the program.
use kek_on_rails.Base.{ℕ, zero, suc, ◌<◌, ◌≡◌, List, get_elem?}
use kek_on_rails.Cheney.Collection.{AreRoots, RootsFollow, IsCollected, scavenge_collects}
use kek_on_rails.Cheney.Copying.{Follows, Fits}
use kek_on_rails.Cheney.Observe.{observe}
use kek_on_rails.Cheney.Rooted.{Both, both_nil, both_cons}
use kek_on_rails.Cheney.Roots.{RootVars, swap_spaces, scavenge}
use kek_on_rails.Cheney.Unseen.{
  FollowOption, AreConstsFixed, observe-FollowOption, both_missing, both_there,
}
use kek_on_rails.Cheney.Whole.{IsWhole}
use kek_on_rails.Objects.{Value}
use kek_on_rails.Space.{new_segment_size, Space}
use kek_on_rails.State.{Ends, Ends-mono}

-- The variables of one kind: the same is seen from each, along every path.
unfoldable pub SameList : Space → List Value → Space → List Value → Type 0
SameList s0 vs t ws =
    (i : ℕ) (path : List ℕ) → observe s0 (get_elem? vs i) path ≡ observe t (get_elem? ws i) path

pub record SameSight (s0 : Space) (r : RootVars) (t : Space) (r' : RootVars) : Type 0 where
  pub same_statics : SameList s0 r.statics t r'.statics
  pub same_variables : SameList s0 r.variables t r'.variables
  pub same_stack : SameList s0 r.stack_vars t r'.stack_vars

FollowOption-Both :
    {s0 t : Space} {vs ws : List Value}
    → Both (Follows s0 t) vs ws
    → (i : ℕ) → FollowOption s0 t (get_elem? vs i) (get_elem? ws i)
FollowOption-Both both_nil i = both_missing
FollowOption-Both (both_cons f fs) zero = both_there f
FollowOption-Both (both_cons f fs) (suc i) = FollowOption-Both fs i

pub same_sight :
    {s0 t : Space} {r r' : RootVars}
    → AreConstsFixed s0 r.carrlist
    → RootsFollow s0 t r r'
    → IsCollected s0 t
    → SameSight s0 r t r'
unfolding SameList
same_sight consts follow collected = record {
  same_statics = λ i path.
      observe-FollowOption collected follow consts path (FollowOption-Both follow.statics_follow i);
  same_variables = λ i path.
      observe-FollowOption collected follow consts path
        (FollowOption-Both follow.variables_follow i);
  same_stack = λ i path.
      observe-FollowOption collected follow consts path (FollowOption-Both follow.stack_follow i);
}

-- From a whole heap of one generation, whose roots point to objects, whose constants refer to
-- constants only but for the arrays that the collector knows, and with fuel for more rounds than
-- the to-space has bytes, a collection ends: it stops only with the source's error for a full
-- to-space, and only where the objects of the old heap do not all fit there. Otherwise the program
-- sees the same as before: from every static variable, C variable and slot of the stack, along
-- every path of references, the same classes, contents and small numbers.
pub scavenge_unseen :
    (s : Space) (depth fuel : ℕ) (r : RootVars)
    → IsWhole (swap_spaces s)
    → AreRoots (swap_spaces s) r
    → AreConstsFixed (swap_spaces s) r.carrlist
    → new_segment_size < fuel
    → Ends
        (Fits (swap_spaces s) (swap_spaces s))
        (λ r' t. SameSight (swap_spaces s) r t r')
        (scavenge depth fuel r s)
scavenge_unseen s depth fuel r whole roots consts enough =
    Ends-mono (scavenge_collects s whole depth fuel r enough roots)
      λ r' t m. same_sight consts m.0 m.1
