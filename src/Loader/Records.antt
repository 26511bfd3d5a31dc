-- ===== src/Loader/Records.antt =====
-- The symbols, methods and classes of vm/vm.h, and their readers in vm/loader.c.
use kek_on_rails.Base.{
  ℕ, zero, suc, ◌+◌, ◌^◌, ◌%◌, Bool, false, List, [], ◌∷◌, Option, none, some, ltb, leb, ◌==◌,
  if◌then◌else◌,
}
use kek_on_rails.Int.{ℤ, negsuc}
use kek_on_rails.Outcome.{bad_access, require}
use kek_on_rails.Loader.Read.{
  Load, pure, ◌>>=◌, ◌>>◌, lift, load_uint8, load_uint32, checked, uint8_max, uint32_max,
  load_string,
}

-- `value` is an offset into the table of constants; `none` is memory that was never written.
pub record Symbol : Type 0 where
  pub name : List ℕ
  pub const_ptr : ℕ
  pub value : Option ℕ
  pub addr : ℕ
  pub const_flag : Bool

pub record Method : Type 0 where
  pub name : List ℕ
  pub bc_addr : ℕ
  pub args_cnt : ℕ
  pub locals_cnt : ℕ
  pub is_static : ℕ
  pub is_native : Bool

-- An array of symbols with its count; a list shorter than the count leaves the rest unwritten.
pub record SymTable : Type 0 where
  pub cnt : ℕ
  pub syms : List Symbol

pub record LoadedClass : Type 0 where
  pub name : List ℕ
  pub parent_name : List ℕ
  pub syms_static : SymTable
  pub syms_instance : SymTable
  pub total_syms_instance_cnt : ℤ
  pub syms_instance_offset : ℤ
  pub static_init : Option Method
  pub constructor : Option Method
  pub methods : List Method

unfoldable pub load_sym : Load Symbol
load_sym = do
  name ← load_string
  addr ← checked uint32_max load_uint32
  const_ptr ← checked uint32_max load_uint32
  pure (record {
    name = name;
    const_ptr = const_ptr;
    value = none;
    addr = addr;
    const_flag = ltb 0 const_ptr;
  })

-- `for (i = *sym_cnt - 1; i >= 0; i--)`, from the last index down, so each symbol goes in front.
unfoldable pub load_syms_loop : ℕ → List Symbol → Load (List Symbol)
load_syms_loop zero acc = pure acc
load_syms_loop (suc i) acc = do s ← load_sym; load_syms_loop i (s ∷ acc)

-- The rounds of that loop: `i` is an `int`, which a count above 2 ^ 31 makes negative.
abbrev pub syms_rounds : ℕ → ℕ
syms_rounds cnt = if leb cnt (2 ^ 31) then cnt else 0

unfoldable pub load_syms : Load SymTable
load_syms = do
  cnt ← checked uint32_max load_uint32
  syms ← load_syms_loop (syms_rounds cnt) []
  pure (record { cnt = cnt; syms = syms })

unfoldable pub load_method : Load Method
load_method = do
  name ← load_string
  args_cnt ← checked uint32_max load_uint32
  locals_cnt ← checked uint32_max load_uint32
  bc_addr ← checked uint32_max load_uint32
  is_static ← checked uint8_max load_uint8
  pure (record {
    name = name;
    bc_addr = bc_addr;
    args_cnt = args_cnt;
    locals_cnt = locals_cnt;
    is_static = is_static;
    is_native = false;
  })

unfoldable pub load_methods_loop : ℕ → Load (List Method)
load_methods_loop zero = pure []
load_methods_loop (suc n) = do m ← load_method; ms ← load_methods_loop n; pure (m ∷ ms)

unfoldable pub load_methods : Load (List Method)
load_methods = do cnt ← checked uint32_max load_uint32; load_methods_loop cnt

-- The flag byte before a static initializer or a constructor, and the method if it is set.
unfoldable pub load_method_if : Load (Option Method)
load_method_if = do
  has ← checked uint8_max load_uint8
  if has == 0 then pure none else do m ← load_method; pure (some m)

unfoldable pub load_class : Load LoadedClass
load_class = do
  name ← load_string
  parent_name ← load_string
  syms_static ← load_syms
  syms_instance ← load_syms
  static_init ← load_method_if
  constructor ← load_method_if
  methods ← load_methods
  pure (record {
    name = name;
    parent_name = parent_name;
    syms_static = syms_static;
    syms_instance = syms_instance;
    total_syms_instance_cnt = negsuc 0;
    syms_instance_offset = negsuc 0;
    static_init = static_init;
    constructor = constructor;
    methods = methods;
  })

-- The loop over the classes writes `classes_g[i]`, an array of `capacity` items.
unfoldable pub load_classes_loop : ℕ → ℕ → ℕ → Load (List LoadedClass)
load_classes_loop capacity i zero = pure []
load_classes_loop capacity i (suc n) = do
  lift (require (ltb i capacity) bad_access)
  c ← load_class
  cs ← load_classes_loop capacity (suc i) n
  pure (c ∷ cs)

abbrev pub builtin_classes_cnt : ℕ
builtin_classes_cnt = 16

-- The capacity is a sum of 32-bit numbers.
unfoldable pub load_classes : Load (List LoadedClass)
load_classes = do
  cnt ← checked uint32_max load_uint32
  load_classes_loop ((cnt + builtin_classes_cnt) % 2 ^ 32) 0 cnt
