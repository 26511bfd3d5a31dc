-- ===== src/Loader/RoundTrip/Records.antt =====
-- Symbols, methods and classes read back.
-- What a field can hold so that the loader takes it: the compiler writes it in 32 bits, and the
-- loader takes the greatest number for a failed read.
use mathlib.Core.List.{append_assoc}
use kek_on_rails.Base.{
  ℕ, ◌^◌, ◌≤◌, ◌<◌, refl, Bool, true, false, Option, none, some, List, [], ◌∷◌, ◌++◌, arith, le→leb,
  length,
}
use kek_on_rails.Loader.Read.{uint8_max, uint32_max}
use kek_on_rails.Loader.Records.{
  Symbol, load_sym, load_syms_loop, load_syms, load_method, load_methods_loop, load_methods,
  load_method_if,
}
use kek_on_rails.Loader.RoundTrip.{
  checked_uint32, checked_uint8, IsString, load_string-classout_wstr, Reads,
}
use kek_on_rails.Loader.Writer.{
  le_bytes, PrvekTab, MethodEnv, classout_symbol, classout_symbols, classout_prvektab_ll, flag,
  classout_method, classout_method_if, classout_methods, symbol_of, method_of, method_if_of,
  symbols_onto, methods_of, sym_table_of,
}

abbrev pub Fits32 : ℕ → Type 0
Fits32 n = n < uint32_max

pub record FitsSym (pt : PrvekTab) : Type 0 where
  pub ident : IsString pt.ident
  pub addr : Fits32 pt.addr
  pub const_ptr : Fits32 pt.const_ptr

pub record FitsMethod (me : MethodEnv) : Type 0 where
  pub name : IsString me.method_name
  pub args : Fits32 (length me.args)
  pub syms : Fits32 (length me.syms)
  pub entrypoint : Fits32 me.bc_entrypoint

abbrev pub FitsMethodIf : Option MethodEnv → Type 0
FitsMethodIf none = Unit
FitsMethodIf (some me) = FitsMethod me

abbrev pub All {ℓ κ} : {A : Type ℓ} → (A → Type κ) → List A → Type κ
All P [] = Unit
All P (x ∷ xs) = P x × All P xs

pub load_sym-classout_symbol :
    (pt : PrvekTab) → FitsSym pt → Reads load_sym (classout_symbol pt) (symbol_of pt)
unfolding load_sym classout_symbol
load_sym-classout_symbol pt h r = simp (
  append_assoc,
  load_string-classout_wstr pt.ident _ h.ident,
  checked_uint32 pt.addr _ h.addr,
  checked_uint32 pt.const_ptr _ h.const_ptr,
)

load_syms_loop-classout_symbols :
    (pts : List PrvekTab) (acc : List Symbol)
    → All FitsSym pts
    → Reads (load_syms_loop (length pts) acc) (classout_symbols pts) (symbols_onto pts acc)
unfolding load_syms_loop classout_symbols
load_syms_loop-classout_symbols [] acc h r = refl
load_syms_loop-classout_symbols (pt ∷ pts) acc (h, hs) r =
    rw (append_assoc, load_sym-classout_symbol pt h (classout_symbols pts ++ r))
      (load_syms_loop-classout_symbols pts (symbol_of pt ∷ acc) hs r)

pub load_syms-classout_prvektab_ll :
    (pts : List PrvekTab)
    → All FitsSym pts
    → length pts ≤ 2 ^ 31
    → Reads load_syms (classout_prvektab_ll pts) (sym_table_of pts)
unfolding load_syms classout_prvektab_ll
load_syms-classout_prvektab_ll pts h short r = rw (
  append_assoc,
  checked_uint32 (length pts) (classout_symbols pts ++ r) (omega arith),
  le→leb (length pts) (2 ^ 31) short,
  load_syms_loop-classout_symbols pts [] h r,
)

flag_fits : (b : Bool) → flag b < uint8_max
flag_fits true = omega arith
flag_fits false = omega arith

pub load_method-classout_method :
    (me : MethodEnv) → FitsMethod me → Reads load_method (classout_method me) (method_of me)
unfolding load_method classout_method
load_method-classout_method me h r = simp (
  append_assoc,
  load_string-classout_wstr me.method_name _ h.name,
  checked_uint32 (length me.args) _ h.args,
  checked_uint32 (length me.syms) _ h.syms,
  checked_uint32 me.bc_entrypoint _ h.entrypoint,
  checked_uint8 (flag me.is_static) _ (flag_fits me.is_static),
)

pub load_methods_loop-classout_methods :
    (mes : List MethodEnv)
    → All FitsMethod mes
    → Reads (load_methods_loop (length mes)) (classout_methods mes) (methods_of mes)
unfolding load_methods_loop classout_methods
load_methods_loop-classout_methods [] h r = refl
load_methods_loop-classout_methods (me ∷ mes) (h, hs) r = rw (
  append_assoc,
  load_method-classout_method me h (classout_methods mes ++ r),
  load_methods_loop-classout_methods mes hs r,
)

pub load_methods-classout_methods :
    (mes : List MethodEnv)
    → All FitsMethod mes
    → Fits32 (length mes)
    → Reads load_methods (le_bytes 4 (length mes) ++ classout_methods mes) (methods_of mes)
unfolding load_methods
load_methods-classout_methods mes h short r =
    rw (append_assoc, checked_uint32 (length mes) (classout_methods mes ++ r) short)
      (load_methods_loop-classout_methods mes h r)

pub load_method_if-classout_method_if :
    (o : Option MethodEnv)
    → FitsMethodIf o
    → Reads load_method_if (classout_method_if o) (method_if_of o)
unfolding load_method_if classout_method_if
load_method_if-classout_method_if none h r = rw (checked_uint8 0 r (omega arith))
load_method_if-classout_method_if (some me) h r = rw (
  append_assoc,
  checked_uint8 1 (classout_method me ++ r) (omega arith),
  load_method-classout_method me h r,
)
