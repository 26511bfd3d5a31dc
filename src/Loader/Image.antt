-- ===== src/Loader/Image.antt =====
-- `kexe_load` of vm/loader.c: the parts of a .kexe file in order.
use mathlib.Core.List.{map}
use kek_on_rails.Base.{ℕ, List, ◌==◌, Option, none, some, if◌then◌else◌}
use kek_on_rails.Loader.Read.{
  Input, Load, pure, ◌>>=◌, ◌>>◌, lift, fread, le_value, load_bytes, load_uint32, load_size,
  checked, uint32_max, size_max,
}
use kek_on_rails.Loader.Records.{Symbol, SymTable, LoadedClass, load_classes}
use kek_on_rails.Outcome.{vm_error, assertion, bad_access, Outcome, ok, stop, require}

pub record Image : Type 0 where
  pub classes : List LoadedClass
  pub const_table : List ℕ
  pub bc_arr : List ℕ

abbrev pub kek_magic : ℕ
kek_magic = 0x42666CEC

unfoldable pub load_magic : Load (Unit {0})
load_magic = do n ← checked uint32_max load_uint32; lift (require (n == kek_magic) vm_error)

unfoldable pub load_const_table : Load (List ℕ)
load_const_table = do cnt ← checked size_max load_size; load_bytes cnt

unfoldable pub load_bc_arr : Load (List ℕ)
load_bc_arr = do cnt ← checked size_max load_size; load_bytes cnt

-- `value = CONST(const_ptr)` for a constant; any other symbol keeps what it has.
unfoldable pub init_const_sym : Symbol → Symbol
init_const_sym s = if s.const_flag then record s { value = some s.const_ptr } else s

-- The inner loop, over the static symbols of one class.
unfoldable pub init_class_syms : LoadedClass → LoadedClass
init_class_syms c =
    let t : SymTable = record {
      cnt = c.syms_static.cnt;
      syms = map init_const_sym c.syms_static.syms;
    } in
    record c { syms_static = t }

-- The loop of the source runs up to the count; where the table has fewer symbols, for a count above
-- 2^31, it reads memory that was never written, and here such entries are left out.
unfoldable pub init_const_sym_pointers : List LoadedClass → List LoadedClass
init_const_sym_pointers = map init_class_syms

-- `assert(IS_NIL(CONST(0)))`: the type tag of the first constant is KEK_NIL, which is 0.
unfoldable pub const_0_is_nil : List ℕ → Outcome (Unit {0})
const_0_is_nil table = elim (fread 4 table) [
  | none ↦ stop bad_access
  | some (bs, _) ↦ require (le_value bs == 0) assertion
]

unfoldable pub load_image : Load Image
load_image = do
  load_magic
  classes ← load_classes
  const_table ← load_const_table
  bc_arr ← load_bc_arr
  lift (const_0_is_nil const_table)
  pure (record {
    classes = init_const_sym_pointers classes;
    const_table = const_table;
    bc_arr = bc_arr;
  })

-- `none` is a file that cannot be opened.
unfoldable pub kexe_load : Option Input → Outcome Image
kexe_load none = stop vm_error
kexe_load (some f) = elim (load_image f) [ ok (im, _) ↦ ok im | stop e ↦ stop e ]
