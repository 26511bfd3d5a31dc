-- ===== src/Classes/Table.antt =====
-- vm/vm.c: the table of classes once it is loaded, the links to parents, and the search for
-- classes, methods and symbols by name.
use kek_on_rails.Base.{
  ℕ, zero, suc, ◌+◌, ◌-◌, ◌^◌, Bool, true, false, ◌&&◌, Option, none, some, List, [], ◌∷◌, ◌==◌,
  if◌then◌else◌, length, get_elem?,
}
use kek_on_rails.Loader.Records.{Symbol, Method}
use kek_on_rails.Outcome.{Outcome, assertion, bad_access, out_of_fuel, ok, stop, ◌>>=◌}

-- The allocators that classes have. `no_allocator` is the null pointer.
pub data Allocator : Type 0 where
  no_allocator udo_allocator array_allocator file_allocator term_allocator exception_allocator :
      Allocator

-- `parent` is the parent's index, `none` the null pointer. The two numbers that are computed once
-- are the bits of an int, in which -1 stands for not computed.
pub record Class : Type 0 where
  pub name : List ℕ
  pub parent : Option ℕ
  pub parent_name : List ℕ
  pub allocator : Allocator
  pub constructor : Option Method
  pub methods : List Method
  pub syms_static : List Symbol
  pub syms_instance : List Symbol
  pub total_syms_instance_cnt : ℕ
  pub syms_instance_offset : ℕ

abbrev pub unset : ℕ
unset = 2 ^ 32 - 1

-- `!strcmp(a, b)`
abbrev pub streq : List ℕ → List ℕ → Bool
streq [] [] = true
streq [] (b ∷ ys) = false
streq (a ∷ xs) [] = false
streq (a ∷ xs) (b ∷ ys) = (a == b) && streq xs ys

abbrev pub bool_val : Bool → ℕ
bool_val true = 1
bool_val false = 0

-- The first of a list that passes a test.
abbrev pub first {ℓ} : {A : Type ℓ} → (A → Bool) → List A → Option A
first ok? [] = none
first ok? (x ∷ xs) = if ok? x then some x else first ok? xs

-- The search of `vm_find_class` from the index `i` on.
unfoldable pub find_class_loop : List ℕ → ℕ → List Class → Option ℕ
find_class_loop name i [] = none
find_class_loop name i (c ∷ cs) =
    if streq c.name name then some i else find_class_loop name (i + 1) cs

unfoldable pub vm_find_class : List Class → List ℕ → Option ℕ
vm_find_class cs name = find_class_loop name 0 cs

abbrev pub linked : Option ℕ → Outcome (Option ℕ)
linked none = stop assertion
linked (some p) = ok (some p)

-- The parent of one class: none without a name, and an assertion that a name is that of a class.
unfoldable pub parent_of : List Class → Class → Outcome (Option ℕ)
parent_of cs c = if streq c.parent_name [] then ok none else linked (vm_find_class cs c.parent_name)

unfoldable pub parents_loop : List Class → List Class → Outcome (List Class)
parents_loop all [] = ok []
parents_loop all (c ∷ cs) = do
  p ← parent_of all c
  rest ← parents_loop all cs
  ok (record c { parent = p } ∷ rest)

unfoldable pub vm_init_parent_pointers : List Class → Outcome (List Class)
vm_init_parent_pointers cs = parents_loop cs cs

-- A search in a class and then in its parents, as deep as they go.
unfoldable pub find_in_lineage :
    {A : Type 0} → (Class → Option A) → ℕ → List Class → ℕ → Outcome (Option A)
find_in_lineage own zero cs i = stop out_of_fuel
find_in_lineage own (suc fuel) cs i = elim (get_elem? cs i) [
  | none ↦ stop bad_access
  | some c ↦ elim (own c) [
    | some a ↦ ok (some a)
    | none ↦ elim c.parent [ none ↦ ok none | some p ↦ find_in_lineage own fuel cs p ]
  ]
]

-- The constructor comes before the methods, by its name alone.
abbrev pub constructor_or : List ℕ → Option Method → Option Method → Option Method
constructor_or name none other = other
constructor_or name (some k) other = if streq k.name name then some k else other

abbrev pub is_method : List ℕ → Bool → Method → Bool
is_method name is_static m = streq m.name name && (m.is_static == bool_val is_static)

-- The method of the class itself.
unfoldable pub own_method : List ℕ → Bool → Class → Option Method
own_method name is_static c =
    constructor_or name c.constructor (first (is_method name is_static) c.methods)

unfoldable pub vm_find_method_in_class :
    ℕ → List Class → ℕ → List ℕ → Bool → Outcome (Option Method)
vm_find_method_in_class fuel cs i name is_static =
    find_in_lineage (own_method name is_static) fuel cs i

unfoldable pub vm_find_static_sym_in_class : ℕ → List Class → ℕ → List ℕ → Outcome (Option Symbol)
vm_find_static_sym_in_class fuel cs i name =
    find_in_lineage (λ c. first (λ s. streq s.name name) c.syms_static) fuel cs i

unfoldable pub vm_find_instance_sym_in_class : ℕ → List Class → ℕ → List ℕ → Outcome (Option Symbol)
vm_find_instance_sym_in_class fuel cs i name =
    find_in_lineage (λ c. first (λ s. streq s.name name) c.syms_instance) fuel cs i

-- The loop of `vm_find_method` over the `n` classes from index `i` on: the method and its class.
unfoldable pub find_method_loop :
    ℕ → List Class → ℕ → ℕ → List ℕ → Bool → Outcome (Option (Method × ℕ))
find_method_loop fuel cs zero i name is_static = ok none
find_method_loop fuel cs (suc n) i name is_static = do
  m ← vm_find_method_in_class fuel cs i name is_static
  elim m [ none ↦ find_method_loop fuel cs n (i + 1) name is_static | some a ↦ ok (some (a, i)) ]

unfoldable pub vm_find_method : ℕ → List Class → List ℕ → Bool → Outcome (Option (Method × ℕ))
vm_find_method fuel cs name is_static = find_method_loop fuel cs (length cs) 0 name is_static
