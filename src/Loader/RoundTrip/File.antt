-- ===== src/Loader/RoundTrip/File.antt =====
-- Classes and whole files read back.
use mathlib.Core.List.{append_assoc}
use kek_on_rails.Base.{
  ℕ, suc, ◌+◌, ◌^◌, ◌≤◌, ◌<◌, ◌≡◌, refl, Bool, true, false, some, List, [], ◌∷◌, ◌++◌, arith,
  lt→ltb, length,
}
use kek_on_rails.Loader.Image.{
  kek_magic, load_magic, load_const_table, load_bc_arr, const_0_is_nil, load_image, kexe_load,
}
use kek_on_rails.Loader.Read.{Input, fread, size_max}
use kek_on_rails.Loader.Records.{
  load_syms, load_class, load_classes_loop, builtin_classes_cnt, load_classes,
}
use kek_on_rails.Loader.RoundTrip.{
  load_bytes-append, checked_uint32, checked_size, IsString, load_string-classout_wstr, Reads,
}
use kek_on_rails.Loader.RoundTrip.Records.{
  Fits32, FitsSym, FitsMethod, FitsMethodIf, All, load_syms-classout_prvektab_ll,
  load_methods-classout_methods, load_method_if-classout_method_if,
}
use kek_on_rails.Loader.Writer.{
  le_bytes, PrvekTab, ClassEnv, Program, classout_prvektab_ll, scope_syms, classout_class,
  classout_classes, bcout_to_file, sym_table_of, class_of, classes_of, image_of,
}
use kek_on_rails.Outcome.{ok}

pub record FitsClass (ce : ClassEnv) : Type 0 where
  pub name : IsString ce.class_name
  pub parent_name : IsString ce.parent_name
  pub syms : All FitsSym ce.syms
  pub few_syms : length ce.syms ≤ 2 ^ 31
  pub static_init : FitsMethodIf ce.static_init
  pub constructor : FitsMethodIf ce.constructor
  pub methods : All FitsMethod ce.methods
  pub few_methods : Fits32 (length ce.methods)

-- The table of constants begins with the type tag of nil.
abbrev pub BeginsWithNil : List ℕ → Type 0
BeginsWithNil (a ∷ b ∷ c ∷ d ∷ rest) = (a ≡ 0) × (b ≡ 0) × (c ≡ 0) × (d ≡ 0)
BeginsWithNil _ = ⊥

pub record FitsProgram (p : Program) : Type 0 where
  pub classes : All FitsClass p.classes
  pub few_classes : length p.classes + builtin_classes_cnt < 2 ^ 32
  pub const_table : BeginsWithNil p.const_table
  pub short_const_table : length p.const_table < size_max
  pub short_bc_arr : length p.bc_arr < size_max

All-scope_syms : (b : Bool) (pts : List PrvekTab) → All FitsSym pts → All FitsSym (scope_syms b pts)
unfolding scope_syms
All-scope_syms b [] h = tt
All-scope_syms b (pt ∷ pts) (h, hs) = ground (arith, All-scope_syms b pts hs)

length-scope_syms : (b : Bool) (pts : List PrvekTab) → length (scope_syms b pts) ≤ length pts
unfolding scope_syms
length-scope_syms b [] = omega arith
length-scope_syms b (pt ∷ pts) = ground (arith, length-scope_syms b pts)

module _ (ce : ClassEnv) (h : FitsClass ce) where
  scoped :
      (b : Bool)
      → Reads load_syms
          (classout_prvektab_ll (scope_syms b ce.syms))
          (sym_table_of (scope_syms b ce.syms))
  scoped b =
      load_syms-classout_prvektab_ll (scope_syms b ce.syms) (All-scope_syms b ce.syms h.syms)
        (omega (arith, length-scope_syms b ce.syms, h.few_syms))

  pub load_class-classout_class : Reads load_class (classout_class ce) (class_of ce)
  unfolding load_class classout_class
  load_class-classout_class r =
      rw (append_assoc, load_string-classout_wstr ce.class_name _ h.name)
        (rw (append_assoc, load_string-classout_wstr ce.parent_name _ h.parent_name)
          (rw (append_assoc, scoped true)
            (rw (append_assoc, scoped false)
              (rw (append_assoc, load_method_if-classout_method_if ce.static_init h.static_init)
                (rw (append_assoc, load_method_if-classout_method_if ce.constructor h.constructor)
                  (rw (load_methods-classout_methods ce.methods h.methods h.few_methods)))))))

load_classes_loop-classout_classes :
    (ces : List ClassEnv) (capacity i : ℕ)
    → All FitsClass ces
    → i + length ces ≤ capacity
    → Reads (load_classes_loop capacity i (length ces)) (classout_classes ces) (classes_of ces)
unfolding load_classes_loop classout_classes
load_classes_loop-classout_classes [] capacity i h room r = refl
load_classes_loop-classout_classes (ce ∷ ces) capacity i (h, hs) room r = rw (
  append_assoc,
  lt→ltb i capacity (omega arith),
  load_class-classout_class ce h (classout_classes ces ++ r),
  load_classes_loop-classout_classes ces capacity (suc i) hs (omega arith) r,
)

load_classes-classout_classes :
    (ces : List ClassEnv)
    → All FitsClass ces
    → length ces + builtin_classes_cnt < 2 ^ 32
    → Reads load_classes (le_bytes 4 (length ces) ++ classout_classes ces) (classes_of ces)
unfolding load_classes
load_classes-classout_classes ces h few r =
    rw (append_assoc, checked_uint32 (length ces) (classout_classes ces ++ r) (omega arith))
      (load_classes_loop-classout_classes ces _ 0 h (omega arith) r)

load_const_table-write :
    (t : List ℕ) → length t < size_max → Reads load_const_table (le_bytes 8 (length t) ++ t) t
unfolding load_const_table
load_const_table-write t short r =
    rw (append_assoc, checked_size (length t) (t ++ r) short) (load_bytes-append t r)

load_bc_arr-write :
    (t : List ℕ) → length t < size_max → Reads load_bc_arr (le_bytes 8 (length t) ++ t) t
unfolding load_bc_arr
load_bc_arr-write t short r =
    rw (append_assoc, checked_size (length t) (t ++ r) short) (load_bytes-append t r)

load_magic-write : (r : Input) → load_magic (le_bytes 4 kek_magic ++ r) ≡ ok (tt, r)
unfolding load_magic
load_magic-write r = rw (checked_uint32 kek_magic r (omega arith))

const_0_is_nil_lem : (t : List ℕ) → BeginsWithNil t → const_0_is_nil t ≡ ok tt
unfolding const_0_is_nil fread
const_0_is_nil_lem (a ∷ b ∷ c ∷ d ∷ rest) (ha, hb, hc, hd) = rw (ha, hb, hc, hd)
const_0_is_nil_lem [] h = elim h [ ]
const_0_is_nil_lem (a ∷ []) h = elim h [ ]
const_0_is_nil_lem (a ∷ b ∷ []) h = elim h [ ]
const_0_is_nil_lem (a ∷ b ∷ c ∷ []) h = elim h [ ]

pub load_image-bcout_to_file :
    (p : Program) → FitsProgram p → Reads load_image (bcout_to_file p) (image_of p)
unfolding load_image bcout_to_file
load_image-bcout_to_file p h r =
    rw (append_assoc, load_magic-write)
      (rw (append_assoc, load_classes-classout_classes p.classes h.classes h.few_classes)
        (rw (append_assoc, load_const_table-write p.const_table h.short_const_table)
          (rw (
            load_bc_arr-write p.bc_arr h.short_bc_arr,
            const_0_is_nil_lem p.const_table h.const_table,
          ))))

-- A file that the compiler writes for a program whose numbers and names fit the format loads into
-- the image of that program: every class with its names, methods and symbols (the symbols in
-- reverse order, a constant's value set to its offset), the table of constants and the bytecode.
-- Bytes behind the bytecode are not read.
pub kexe_load-bcout_to_file :
    (p : Program) (rest : List ℕ)
    → FitsProgram p
    → kexe_load (some (bcout_to_file p ++ rest)) ≡ ok (image_of p)
unfolding kexe_load
kexe_load-bcout_to_file p rest h = rw (kexe_load, load_image-bcout_to_file p h)
