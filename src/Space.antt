-- ===== src/Space.antt =====
-- vm/memory.c, vm/memory.h and vm/vm.c: the two halves of the new space, the sizes of objects, and
-- the copy of one object from one half to the other. A half is `new_segment_size` bytes long.
use kek_on_rails.Base.{ℕ, ◌+◌, ◌*◌, Bool, ◌&&◌, Option, none, some, List, ltb, leb}
use kek_on_rails.Heap.{aligned, update}
use kek_on_rails.Objects.{Obj, str, symbol, arr_objs, udo, cls, Body, copied}
use kek_on_rails.Outcome.{Outcome, assertion, bad_access, ok, stop, vm_error}
use kek_on_rails.State.{State, pure, ◌>>=◌, ◌>>◌, get, put, check, lift}

abbrev pub new_segment_size : ℕ
new_segment_size = 1024 * 512

-- `from_space`, `to_space`, `to_space_free`, `to_space_size`, `scan_ptr` and `cheney_iteration` are
-- the variables of memory.c of these names. The table of constants lies from `const_from` up to
-- `const_to`. `var_count` is `total_syms_instance_cnt + syms_instance_offset` of a class.
-- `generational` is set where gc_type_g is GC_GEN or GC_GENMAS. `malloc` is the C library's, for the
-- objects of the old space: its n-th call returns `malloc n`. `os_items` is the list of these objects.
pub record Space : Type 0 where
  pub cell : ℕ → Option Obj
  pub from_space : ℕ
  pub to_space : ℕ
  pub to_space_free : ℕ
  pub to_space_size : ℕ
  pub scan_ptr : ℕ
  pub cheney_iteration : ℕ
  pub const_from : ℕ
  pub const_to : ℕ
  pub var_count : ℕ → ℕ
  pub generational : Bool
  pub malloc : ℕ → ℕ
  pub os_items : List ℕ

abbrev pub loaded : Space → Option Obj → Outcome (Obj × Space)
loaded s none = stop bad_access
loaded s (some o) = ok (o, s)

-- A read through a pointer to an object.
unfoldable pub load : ℕ → State Space Obj
load p s = loaded s (s.cell p)

unfoldable pub store : ℕ → Obj → State Space (Unit {0})
store p o s = ok (tt, record s { cell = update s.cell p o })

abbrev pub sizeof_header : ℕ
sizeof_header = 24

-- The size of the union of all objects, of which that of a handler table is the largest member.
abbrev pub sizeof_obj : ℕ
sizeof_obj = 48

abbrev pub sizeof_class : ℕ
sizeof_class = 112

abbrev pub is_const : Space → ℕ → Bool
is_const s p = leb s.const_from p && ltb p s.const_to

-- `gc_cheney_ptr_in_space`, whose end is strict.
abbrev pub ptr_in_space : ℕ → ℕ → ℕ → Bool
ptr_in_space segment p size = leb segment p && ltb (p + aligned size) (segment + new_segment_size)

abbrev pub ptr_in_from_space : Space → ℕ → ℕ → Bool
ptr_in_from_space s p size = ptr_in_space s.from_space p (aligned size)

abbrev pub ptr_in_to_space : Space → ℕ → ℕ → Bool
ptr_in_to_space s p size = ptr_in_space s.to_space p (aligned size)

-- A structure ends with one byte or one slot, which the length counts again for a text.
abbrev pub udo_size : (ℕ → ℕ) → Option ℕ → Outcome ℕ
udo_size count none = stop assertion
udo_size count (some c) = ok (32 + count c * 8)

abbrev pub body_size : (ℕ → ℕ) → Option ℕ → Body → Outcome ℕ
body_size count c (cls k) = ok sizeof_class
body_size count c (str len bytes) = ok (32 + len)
body_size count c (symbol len bytes) = ok (32 + len)
body_size count c (arr_objs a) = ok (32 + a.alloc_size * 8)
body_size count c (udo offset vars) = udo_size count c
body_size count c _ = ok sizeof_obj

-- `vm_obj_size`
abbrev pub obj_size : (ℕ → ℕ) → Obj → Outcome ℕ
obj_size count o = body_size count o.cls o.body

-- `gc_cheney_copy_obj_to_space_free`: the copy goes to the free pointer, which moves behind it.
unfoldable pub copy_obj_to_space_free : ℕ → State Space ℕ
copy_obj_to_space_free p = do
  o ← load p
  s ← get
  size ← lift (obj_size s.var_count o)
  check (ltb (s.to_space_free + aligned size) (s.to_space + new_segment_size)) vm_error
  put (record s {
    cell = update s.cell s.to_space_free o;
    to_space_free = s.to_space_free + aligned size;
  })
  pure s.to_space_free

-- `obj->h.t = KEK_COPIED; obj->h.cls = copy;`
unfoldable pub forward : ℕ → ℕ → State Space (Unit {0})
forward p to = do o ← load p; store p (record o { body = copied to })

-- Both: the object moves, and what is left points to where it is.
unfoldable pub move_obj : ℕ → State Space ℕ
move_obj p = do to ← copy_obj_to_space_free p; forward p to; pure to
