-- ===== src/Loader/Tests.antt =====
-- The loader at a small program.
-- class "A" with a constant "c" at offset 24, a variable "v" and a static method "m".
use mathlib.Core.List.{append-nil}
use kek_on_rails.Base.{ℕ, ◌≡◌, refl, ◌≢◌, true, none, some, List, [], ◌∷◌, ◌++◌, arith, replicate}
use kek_on_rails.Loader.Facts.{
  AllClasses, HasStaticValues, kexe_load-HasStaticValues, BeginsWithMagic,
  kexe_load-BeginsWithMagic,
}
use kek_on_rails.Loader.Image.{kexe_load}
use kek_on_rails.Loader.Prefix.{kexe_load-prefix}
use kek_on_rails.Loader.RoundTrip.File.{FitsProgram, kexe_load-bcout_to_file}
use kek_on_rails.Loader.RoundTrip.Records.{FitsSym, FitsMethod}
use kek_on_rails.Loader.Writer.{
  le_bytes, PrvekTab, MethodEnv, ClassEnv, Program, classout_wstr, classout_symbol,
  classout_symbols, classout_prvektab_ll, classout_method, classout_method_if, classout_methods,
  scope_syms, classout_class, classout_classes, bcout_to_file, image_of,
}
use kek_on_rails.Outcome.{ok}

abbrev constant : PrvekTab
constant = record { ident = 99 ∷ []; addr = 0; const_ptr = 24; in_class = true }

abbrev variable : PrvekTab
variable = record { ident = 118 ∷ []; addr = 1; const_ptr = 0; in_class = true }

abbrev method : MethodEnv
method = record {
  method_name = 109 ∷ [];
  args = [];
  syms = [];
  bc_entrypoint = 5;
  is_static = true;
}

abbrev class_a : ClassEnv
class_a = record {
  class_name = 65 ∷ [];
  parent_name = [];
  syms = constant ∷ variable ∷ [];
  static_init = none;
  constructor = some method;
  methods = method ∷ [];
}

abbrev sample : Program
sample = record { classes = class_a ∷ []; const_table = replicate 24 0; bc_arr = 13 ∷ [] }

constant-FitsSym : FitsSym constant
constant-FitsSym = record {
  ident = record { no_zero = omega arith; short = omega arith };
  addr = omega arith;
  const_ptr = omega arith;
}

variable-FitsSym : FitsSym variable
variable-FitsSym = record {
  ident = record { no_zero = omega arith; short = omega arith };
  addr = omega arith;
  const_ptr = omega arith;
}

method-FitsMethod : FitsMethod method
method-FitsMethod = record {
  name = record { no_zero = omega arith; short = omega arith };
  args = omega arith;
  syms = omega arith;
  entrypoint = omega arith;
}

sample-FitsProgram : FitsProgram sample
sample-FitsProgram = record {
  classes = (
    record {
      name = record { no_zero = omega arith; short = omega arith };
      parent_name = record { no_zero = tt; short = omega arith };
      syms = (constant-FitsSym, (variable-FitsSym, tt));
      few_syms = omega arith;
      static_init = tt;
      constructor = method-FitsMethod;
      methods = (method-FitsMethod, tt);
      few_methods = omega arith;
    },
    tt,
  );
  few_classes = omega arith;
  const_table = (refl, refl, refl, refl);
  short_const_table = omega arith;
  short_bc_arr = omega arith;
}

kexe_load-bcout_to_file_example :
    kexe_load (some (bcout_to_file sample ++ 7 ∷ [])) ≡ ok (image_of sample)
kexe_load-bcout_to_file_example = kexe_load-bcout_to_file sample (7 ∷ []) sample-FitsProgram

-- The bytes of the sample but the last.
abbrev bytes : List ℕ
bytes =
    0xec
    ∷ 0x6c
    ∷ 0x66
    ∷ 0x42
    ∷ 1
    ∷ 0
    ∷ 0
    ∷ 0
    ∷ 1
    ∷ 0
    ∷ 0
    ∷ 0
    ∷ 65
    ∷ 0
    ∷ 0
    ∷ 0
    ∷ 0
    ∷ 2
    ∷ 0
    ∷ 0
    ∷ 0
    ∷ 1
    ∷ 0
    ∷ 0
    ∷ 0
    ∷ 99
    ∷ 0
    ∷ 0
    ∷ 0
    ∷ 0
    ∷ 24
    ∷ 0
    ∷ 0
    ∷ 0
    ∷ 1
    ∷ 0
    ∷ 0
    ∷ 0
    ∷ 118
    ∷ 1
    ∷ 0
    ∷ 0
    ∷ 0
    ∷ 0
    ∷ 0
    ∷ 0
    ∷ 0
    ∷ 0
    ∷ 0
    ∷ 0
    ∷ 0
    ∷ 0
    ∷ 1
    ∷ 1
    ∷ 0
    ∷ 0
    ∷ 0
    ∷ 109
    ∷ 0
    ∷ 0
    ∷ 0
    ∷ 0
    ∷ 0
    ∷ 0
    ∷ 0
    ∷ 0
    ∷ 5
    ∷ 0
    ∷ 0
    ∷ 0
    ∷ 1
    ∷ 1
    ∷ 0
    ∷ 0
    ∷ 0
    ∷ 1
    ∷ 0
    ∷ 0
    ∷ 0
    ∷ 109
    ∷ 0
    ∷ 0
    ∷ 0
    ∷ 0
    ∷ 0
    ∷ 0
    ∷ 0
    ∷ 0
    ∷ 5
    ∷ 0
    ∷ 0
    ∷ 0
    ∷ 1
    ∷ 24
    ∷ 0
    ∷ 0
    ∷ 0
    ∷ 0
    ∷ 0
    ∷ 0
    ∷ 0
    ∷ (replicate 24 0 ++ (1 ∷ 0 ∷ 0 ∷ 0 ∷ 0 ∷ 0 ∷ 0 ∷ 0 ∷ []))

written : bcout_to_file sample ≡ bytes ++ 13 ∷ []
unfolding bcout_to_file le_bytes classout_classes classout_class classout_wstr classout_prvektab_ll
    classout_symbols classout_symbol classout_method_if classout_method classout_methods scope_syms
written = refl

loaded : kexe_load (some (bytes ++ 13 ∷ [])) ≡ ok (image_of sample)
loaded =
    rw (← written, ← append-nil (bcout_to_file sample))
      (kexe_load-bcout_to_file sample [] sample-FitsProgram)

kexe_load-prefix_example : kexe_load (some bytes) ≢ ok (image_of sample)
kexe_load-prefix_example =
    kexe_load-prefix sample bytes 13 [] sample-FitsProgram written (image_of sample)

kexe_load-HasStaticValues_example : AllClasses HasStaticValues (image_of sample).classes
kexe_load-HasStaticValues_example =
    kexe_load-HasStaticValues (bytes ++ 13 ∷ []) (image_of sample) loaded

kexe_load-BeginsWithMagic_example : BeginsWithMagic (bytes ++ 13 ∷ [])
kexe_load-BeginsWithMagic_example =
    kexe_load-BeginsWithMagic (bytes ++ 13 ∷ []) (image_of sample) (omega arith) loaded
