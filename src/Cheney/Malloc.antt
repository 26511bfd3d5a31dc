-- ===== src/Cheney/Malloc.antt =====
-- vm/memory.c: `gc_cheney_malloc` on its branches.
use mathlib.Core.Path.{subst}
use kek_on_rails.Base.{ℕ, ◌+◌, ◌≤◌, ◌<◌, ◌≡◌, refl, true, arith, lt→ltb, le→leb, le→ltb, sym}
use kek_on_rails.Cheney.Collection.{AreRoots, RootsFollow, IsCollected, scavenge_collects}
use kek_on_rails.Cheney.Copying.{weight, Fits}
use kek_on_rails.Cheney.Results.{SameSight, same_sight}
use kek_on_rails.Cheney.Roots.{
  can_malloc, bump, RootVars, swap_spaces, scavenge, cheney_malloc, place_new,
}
use kek_on_rails.Cheney.Unseen.{AreConstsFixed}
use kek_on_rails.Cheney.Whole.{IsWhole}
use kek_on_rails.Heap.{aligned, update}
use kek_on_rails.Objects.{Obj, first_gen_young}
use kek_on_rails.Outcome.{ok}
use kek_on_rails.Space.{new_segment_size, Space, store, ptr_in_to_space}
use kek_on_rails.State.{Returns, Ends-Returns, Returns-eq, returns}

aligned_idem : (n : ℕ) → aligned (aligned n) ≡ aligned n
aligned_idem n = omega arith

-- The space after an allocation at the free pointer.
abbrev pub after_bump : Space → ℕ → Obj → Space
after_bump s size o = record s {
  to_space_free = s.to_space_free + size;
  to_space_size = s.to_space_size + size;
  cell = update s.cell s.to_space_free (record o { state = first_gen_young });
}

module _ (s : Space) (size : ℕ) (low : s.to_space ≤ s.to_space_free) where
  abbrev HasRoom : Type 0
  HasRoom = s.to_space_free + aligned size < s.to_space + new_segment_size

  can_malloc_lem : HasRoom → can_malloc s (aligned size) ≡ true
  can_malloc_lem room =
      lt→ltb (s.to_space_free + aligned (aligned size)) (s.to_space + new_segment_size)
        (omega (arith, aligned_idem size))

  in_space : HasRoom → ptr_in_to_space s s.to_space_free (aligned size) ≡ true
  in_space room =
      rw
        (
          le→leb s.to_space s.to_space_free low,
          lt→ltb (s.to_space_free + aligned (aligned (aligned size)))
              (s.to_space + new_segment_size) (omega (arith, aligned_idem size)),
        )
        refl

  bump_lem :
      (o : Obj)
      → HasRoom
      → bump (aligned size) o s ≡ ok (s.to_space_free, after_bump s (aligned size) o)
  unfolding bump store
  bump_lem o room = rw (in_space room) refl

module _ (t : Space) (size : ℕ) (low : t.to_space ≤ t.to_space_free)
    (room : HasRoom t size low) where
  place_new_lem :
      (o : Obj) (moved : RootVars)
      → place_new (aligned size) o moved t
        ≡ ok ((t.to_space_free, moved), after_bump t (aligned size) o)
  unfolding place_new
  place_new_lem o moved = rw (can_malloc_lem t size low room, bump_lem t size low o room) refl

-- What an allocation after a collection gives: the object at the free pointer of the space `u` that
-- the collection leaves, in which the program sees the same as before.
unfoldable pub CollectsFirst : ℕ → ℕ → ℕ → Obj → RootVars → Space → ℕ × RootVars → Space → Type 0
CollectsFirst depth fuel size o r s (p, r') t =
    (u : Space) × (scavenge depth fuel r s ≡ ok (r', u))
    × SameSight (swap_spaces s) r u r'
    × (p ≡ u.to_space_free)
    × (t ≡ after_bump u (aligned size) o)

module _ (depth fuel size : ℕ) (o : Obj) (r : RootVars) (s : Space)
    (full : s.to_space + new_segment_size ≤ s.to_space_free + aligned size)
    (whole : IsWhole (swap_spaces s)) (roots : AreRoots (swap_spaces s) r)
    (consts : AreConstsFixed (swap_spaces s) r.carrlist)
    (fits : Fits (swap_spaces s) (swap_spaces s))
    (fits_too : weight (swap_spaces s) fits.left + aligned size < new_segment_size)
    (enough : new_segment_size < fuel) where
  collects :
      Returns
        (λ r' t. RootsFollow (swap_spaces s) t r r' × IsCollected (swap_spaces s) t)
        (scavenge depth fuel r s)
  collects = Ends-Returns (scavenge_collects s whole depth fuel r enough roots) fits

  room_after :
      {t : Space}
      → IsCollected (swap_spaces s) t
      → (t.to_space ≤ t.to_space_free)
        × (t.to_space_free + aligned size < t.to_space + new_segment_size)
  unfolding swap_spaces
  room_after c =
      let same = c.spaces.to_same in
      (omega (arith, c.above, same), omega (arith, fits_too, (c.fits fits).used, same))

  placed_after :
      (r' : RootVars) (t : Space)
      → scavenge depth fuel r s ≡ ok (r', t)
      → RootsFollow (swap_spaces s) t r r' × IsCollected (swap_spaces s) t
      → cheney_malloc depth fuel size o r s
        ≡ ok ((t.to_space_free, r'), after_bump t (aligned size) o)
  unfolding cheney_malloc
  placed_after r' t e m =
      let (low, room) = room_after m.1 in
      rw
        (
          lt→ltb (aligned size) new_segment_size (omega (arith, fits_too)),
          le→ltb (s.to_space_free + aligned (aligned size)) (s.to_space + new_segment_size)
              (omega (arith, full, aligned_idem size)),
          e,
          place_new_lem t size low room o r',
        )
        refl

  -- Where an object does not fit behind the free pointer, the heap is whole and of one generation, its
  -- roots point to objects, its constants refer to constants but for the arrays that the collector
  -- knows, all its objects and the new one fit into the other half, and the fuel is for more rounds
  -- than a half has bytes, the allocation collects first and then succeeds: the object stands behind
  -- the copies, and before it was written the program saw the same as before the collection.
  pub cheney_malloc_collects :
      Returns (CollectsFirst depth fuel size o r s) (cheney_malloc depth fuel size o r s)
  unfolding CollectsFirst
  cheney_malloc_collects =
      let (r', t, e, m) = Returns-eq collects in
      subst (Returns (CollectsFirst depth fuel size o r s)) (sym (placed_after r' t e m))
        (returns (t, e, same_sight consts m.0 m.1, refl, refl))
