-- ===== src/Loader/Writer.antt =====
-- compiler/bcout.cpp: how the compiler writes a .kexe file, and the image that the file stands for.
use kek_on_rails.Base.{
  ℕ, zero, suc, ◌%◌, ◌/◌, Bool, true, false, List, [], ◌∷◌, ◌++◌, Option, none, some, length, ltb,
  if◌then◌else◌,
}
use kek_on_rails.Int.{negsuc}
use kek_on_rails.Loader.Image.{Image, kek_magic, init_const_sym_pointers}
use kek_on_rails.Loader.Records.{Symbol, Method, SymTable, LoadedClass}

unfoldable pub le_bytes : ℕ → ℕ → List ℕ
le_bytes zero n = []
le_bytes (suc k) n = (n % 256) ∷ le_bytes k (n / 256)

-- A symbol, method and class as the compiler keeps them. `in_class` tells a static symbol.
pub record PrvekTab : Type 0 where
  pub ident : List ℕ
  pub addr : ℕ
  pub const_ptr : ℕ
  pub in_class : Bool

pub record MethodEnv : Type 0 where
  pub method_name : List ℕ
  pub args : List PrvekTab
  pub syms : List PrvekTab
  pub bc_entrypoint : ℕ
  pub is_static : Bool

pub record ClassEnv : Type 0 where
  pub class_name : List ℕ
  pub parent_name : List ℕ
  pub syms : List PrvekTab
  pub static_init : Option MethodEnv
  pub constructor : Option MethodEnv
  pub methods : List MethodEnv

pub record Program : Type 0 where
  pub classes : List ClassEnv
  pub const_table : List ℕ
  pub bc_arr : List ℕ

-- The buffer is taken to be large enough: `classout_realloc` doubles it once, whatever is to be written.
abbrev pub classout_w8 : ℕ → List ℕ
classout_w8 = le_bytes 1

abbrev pub classout_w32 : ℕ → List ℕ
classout_w32 = le_bytes 4

unfoldable pub classout_wstr : List ℕ → List ℕ
classout_wstr text = classout_w32 (length text) ++ text

unfoldable pub classout_symbol : PrvekTab → List ℕ
classout_symbol pt = classout_wstr pt.ident ++ (classout_w32 pt.addr ++ classout_w32 pt.const_ptr)

unfoldable pub classout_symbols : List PrvekTab → List ℕ
classout_symbols [] = []
classout_symbols (pt ∷ pts) = classout_symbol pt ++ classout_symbols pts

-- The count is patched in when the list has been written.
unfoldable pub classout_prvektab_ll : List PrvekTab → List ℕ
classout_prvektab_ll pts = classout_w32 (length pts) ++ classout_symbols pts

abbrev pub flag : Bool → ℕ
flag b = if b then 1 else 0

unfoldable pub classout_method : MethodEnv → List ℕ
classout_method me =
    classout_wstr me.method_name
    ++ (classout_w32 (length me.args)
        ++ (classout_w32 (length me.syms)
            ++ (classout_w32 me.bc_entrypoint ++ classout_w8 (flag me.is_static))))

unfoldable pub classout_method_if : Option MethodEnv → List ℕ
classout_method_if none = classout_w8 0
classout_method_if (some me) = classout_w8 1 ++ classout_method me

unfoldable pub classout_methods : List MethodEnv → List ℕ
classout_methods [] = []
classout_methods (me ∷ mes) = classout_method me ++ classout_methods mes

-- The symbols of one scope, in order: the two lists into which classout_class relinks `syms`.
unfoldable pub scope_syms : Bool → List PrvekTab → List PrvekTab
scope_syms static [] = []
scope_syms static (pt ∷ pts) =
    let rest = scope_syms static pts in
    if pt.in_class
    then (if static then pt ∷ rest else rest)
    else (if static then rest else pt ∷ rest)

unfoldable pub classout_class : ClassEnv → List ℕ
classout_class ce =
    classout_wstr ce.class_name
    ++ (classout_wstr ce.parent_name
        ++ (classout_prvektab_ll (scope_syms true ce.syms)
            ++ (classout_prvektab_ll (scope_syms false ce.syms)
                ++ (classout_method_if ce.static_init
                    ++ (classout_method_if ce.constructor
                        ++ (classout_w32 (length ce.methods) ++ classout_methods ce.methods))))))

unfoldable pub classout_classes : List ClassEnv → List ℕ
classout_classes [] = []
classout_classes (ce ∷ ces) = classout_class ce ++ classout_classes ces

unfoldable pub bcout_to_file : Program → List ℕ
bcout_to_file p =
    le_bytes 4 kek_magic
    ++ ((le_bytes 4 (length p.classes) ++ classout_classes p.classes)
        ++ ((le_bytes 8 (length p.const_table) ++ p.const_table)
            ++ (le_bytes 8 (length p.bc_arr) ++ p.bc_arr)))

-- What a program means to the virtual machine.
abbrev pub symbol_of : PrvekTab → Symbol
symbol_of pt = record {
  name = pt.ident;
  const_ptr = pt.const_ptr;
  value = none;
  addr = pt.addr;
  const_flag = ltb 0 pt.const_ptr;
}

abbrev pub method_of : MethodEnv → Method
method_of me = record {
  name = me.method_name;
  bc_addr = me.bc_entrypoint;
  args_cnt = length me.args;
  locals_cnt = length me.syms;
  is_static = flag me.is_static;
  is_native = false;
}

abbrev pub method_if_of : Option MethodEnv → Option Method
method_if_of none = none
method_if_of (some me) = some (method_of me)

-- The symbols of a class come back in reverse order.
abbrev pub symbols_onto : List PrvekTab → List Symbol → List Symbol
symbols_onto [] acc = acc
symbols_onto (pt ∷ pts) acc = symbols_onto pts (symbol_of pt ∷ acc)

abbrev pub methods_of : List MethodEnv → List Method
methods_of [] = []
methods_of (me ∷ mes) = method_of me ∷ methods_of mes

abbrev pub sym_table_of : List PrvekTab → SymTable
sym_table_of pts = record { cnt = length pts; syms = symbols_onto pts [] }

abbrev pub class_of : ClassEnv → LoadedClass
class_of ce = record {
  name = ce.class_name;
  parent_name = ce.parent_name;
  syms_static = sym_table_of (scope_syms true ce.syms);
  syms_instance = sym_table_of (scope_syms false ce.syms);
  total_syms_instance_cnt = negsuc 0;
  syms_instance_offset = negsuc 0;
  static_init = method_if_of ce.static_init;
  constructor = method_if_of ce.constructor;
  methods = methods_of ce.methods;
}

abbrev pub classes_of : List ClassEnv → List LoadedClass
classes_of [] = []
classes_of (ce ∷ ces) = class_of ce ∷ classes_of ces

abbrev pub image_of : Program → Image
image_of p = record {
  classes = init_const_sym_pointers (classes_of p.classes);
  const_table = p.const_table;
  bc_arr = p.bc_arr;
}
