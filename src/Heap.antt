-- ===== src/Heap.antt =====
-- The store of objects, and the allocation of vm/memory.c with gc_type_g at GC_NONE: objects are
-- placed one after the other in the one segment and never move. The copying collector has its own
-- model of the store, in Space.
use kek_on_rails.Base.{
  ℕ, ◌+◌, ◌-◌, ◌*◌, ◌/◌, ◌≤◌, ◌<◌, ◌≡◌, Option, none, some, ltb, ◌==◌, if◌then◌else◌, lt→ltb,
  le→ltb,
}
use kek_on_rails.Objects.{Value, Body, Obj, ptr, unknown_state}
use kek_on_rails.Outcome.{vm_error, bad_access, ok, stop}
use kek_on_rails.State.{State, pure, ◌>>=◌, ◌>>◌}

abbrev pub obj_align : ℕ
obj_align = 8

-- `ALIGNED(n)`: the mask clears the low three bits.
abbrev pub aligned : ℕ → ℕ
aligned n = (n + obj_align - 1) / obj_align * obj_align

abbrev pub segment_size : ℕ
segment_size = 4096 * 4096 * 2

-- `used` and `size` are the segment's, `beginning` the address of its data; `const_table` is the
-- address of the table of constants, at which nil stands.
pub record Heap : Type 0 where
  pub beginning : ℕ
  pub used : ℕ
  pub size : ℕ
  pub const_table : ℕ
  pub cell : ℕ → Option Obj

abbrev pub nil_value : Heap → Value
nil_value h = ptr h.const_table

abbrev pub update : (ℕ → Option Obj) → ℕ → Obj → ℕ → Option Obj
update f p o q = if p == q then some o else f q

-- A read through a pointer to an object.
unfoldable pub read_obj : ℕ → State Heap Obj
read_obj p h = elim (h.cell p) [ none ↦ stop bad_access | some o ↦ ok (o, h) ]

unfoldable pub write_obj : ℕ → Obj → State Heap (Unit {0})
write_obj p o h = ok (tt, record h { cell = update h.cell p o })

-- `mem_segment_malloc`: a segment that is full ends the machine.
unfoldable pub mem_segment_malloc : ℕ → State Heap ℕ
mem_segment_malloc size h =
    if ltb h.size (h.used + aligned size)
    then stop vm_error
    else ok (h.beginning + h.used, record h { used = h.used + aligned size })

-- `gc_obj_malloc` and the writes of the caller that fill the object.
unfoldable pub gc_obj_malloc : ℕ → Obj → State Heap ℕ
gc_obj_malloc size o = do p ← mem_segment_malloc (aligned size); write_obj p o; pure p

-- `mem_segment_init`
unfoldable pub mem_segment_init : ℕ → ℕ → (ℕ → Option Obj) → ℕ → Heap
mem_segment_init size beginning cell const_table = record {
  beginning = beginning;
  used = 0;
  size = aligned size;
  const_table = const_table;
  cell = cell;
}

-- An object of the collected heap that has just been made.
abbrev pub fresh_obj : Option ℕ → Body → Obj
fresh_obj c b = record { cls = c; state = unknown_state; body = b }

-- The objects that stand in the segment lie below its end, and the constants below its beginning.
pub record IsHeap (h : Heap) : Type 0 where
  pub fits : h.used ≤ h.size
  pub consts_below : h.const_table < h.beginning
  pub unused : (p : ℕ) → h.beginning + h.used ≤ p → h.cell p ≡ none

module _ (size : ℕ) (o : Obj) (h : Heap) (room : h.used + aligned (aligned size) ≤ h.size) where
  pub gc_obj_malloc_lem :
      gc_obj_malloc size o h
      ≡ ok (
        h.beginning + h.used,
        record h {
          used = h.used + aligned (aligned size);
          cell = update h.cell (h.beginning + h.used) o;
        },
      )
  unfolding gc_obj_malloc mem_segment_malloc write_obj
  gc_obj_malloc_lem = rw (le→ltb h.size _ room)

pub gc_obj_malloc-full :
    (size : ℕ) (o : Obj) (h : Heap)
    → h.size < h.used + aligned (aligned size)
    → gc_obj_malloc size o h ≡ stop vm_error
unfolding gc_obj_malloc mem_segment_malloc
gc_obj_malloc-full size o h full = rw (lt→ltb h.size _ full)
