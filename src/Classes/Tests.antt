-- ===== src/Classes/Tests.antt =====
-- Four classes: B under A, C under B, and D that names itself.
use kek_on_rails.Base.{
  ℕ, zero, suc, ◌≡◌, refl, sym, ap, ◌≢◌, false, Option, none, some, List, [], ◌∷◌, arith, get_elem?,
}
use kek_on_rails.Classes.Layout.{calc_total_syms_cnt}
use kek_on_rails.Classes.Memo.{shape, Total, Memo, root, derived}
use kek_on_rails.Classes.Methods.{IsMethodAnswer, vm_find_method_in_class-IsMethodAnswer}
use kek_on_rails.Classes.Names.{some_same}
use kek_on_rails.Classes.Parents.{AllLinked, vm_init_parent_pointers-AllLinked}
use kek_on_rails.Classes.Search.{Lineage, top, below}
use kek_on_rails.Classes.Sizes.{
  Counted, calc_total_syms_cnt-Counted, calc_total_syms_cnt-self_parent,
}
use kek_on_rails.Classes.Table.{
  Class, unset, find_class_loop, vm_find_class, parent_of, parents_loop, vm_init_parent_pointers,
  vm_find_method_in_class, udo_allocator,
}
use kek_on_rails.Loader.Records.{Symbol, Method}
use kek_on_rails.Outcome.{out_of_fuel, ok, stop}
use kek_on_rails.State.{Returns}

abbrev class_of_name : List ℕ → List ℕ → List Method → List Symbol → Class
class_of_name name parent_name methods syms = record {
  name = name;
  parent = none;
  parent_name = parent_name;
  allocator = udo_allocator;
  constructor = none;
  methods = methods;
  syms_static = [];
  syms_instance = syms;
  total_syms_instance_cnt = unset;
  syms_instance_offset = unset;
}

abbrev sym_x : Symbol
sym_x = record { name = 120 ∷ []; const_ptr = 0; value = none; addr = 0; const_flag = false }

abbrev run : Method
run = record {
  name = 114 ∷ [];
  bc_addr = 7;
  args_cnt = 0;
  locals_cnt = 0;
  is_static = 0;
  is_native = false;
}

abbrev class_a : Class
class_a = class_of_name (65 ∷ []) [] (run ∷ []) (sym_x ∷ [])

abbrev class_b : Class
class_b = class_of_name (66 ∷ []) (65 ∷ []) [] (sym_x ∷ sym_x ∷ [])

abbrev class_c : Class
class_c = class_of_name (67 ∷ []) (66 ∷ []) [] (sym_x ∷ [])

abbrev class_d : Class
class_d = class_of_name (68 ∷ []) (68 ∷ []) [] []

abbrev loaded : List Class
loaded = class_a ∷ class_b ∷ class_c ∷ class_d ∷ []

abbrev table : List Class
table =
    record class_a { parent = none }
    ∷ record class_b { parent = some 0 }
    ∷ record class_c { parent = some 1 }
    ∷ record class_d { parent = some 3 }
    ∷ []

links : vm_init_parent_pointers loaded ≡ ok table
unfolding vm_init_parent_pointers parents_loop parent_of vm_find_class find_class_loop
links = refl

vm_init_parent_pointers-AllLinked_example : AllLinked loaded loaded table
vm_init_parent_pointers-AllLinked_example = vm_init_parent_pointers-AllLinked loaded table links

abbrev line : List Class
line =
    record class_c { parent = some 1 }
    ∷ record class_b { parent = some 0 }
    ∷ record class_a { parent = none }
    ∷ []

line-Lineage : Lineage table 2 line
line-Lineage = below refl refl (below refl refl (top refl refl))

vm_find_method_in_class-IsMethodAnswer_example :
    (o : Option Method) × (vm_find_method_in_class 3 table 2 (114 ∷ []) false ≡ ok o)
    × IsMethodAnswer (114 ∷ []) false line o
vm_find_method_in_class-IsMethodAnswer_example =
    vm_find_method_in_class-IsMethodAnswer 3 (114 ∷ []) false line-Lineage (omega arith)

none_kept :
    (i : ℕ) (c : Class)
    → get_elem? table i ≡ some c
    → c.total_syms_instance_cnt ≢ unset
    → (d : ℕ) × Total (shape table) d i c.total_syms_instance_cnt
none_kept zero c e ne = absurd (ne (ap Class.total_syms_instance_cnt (sym (some_same e))))
none_kept (suc zero) c e ne = absurd (ne (ap Class.total_syms_instance_cnt (sym (some_same e))))
none_kept (suc (suc zero)) c e ne =
    absurd (ne (ap Class.total_syms_instance_cnt (sym (some_same e))))
none_kept (suc (suc (suc zero))) c e ne =
    absurd (ne (ap Class.total_syms_instance_cnt (sym (some_same e))))
none_kept (suc (suc (suc (suc i)))) c e ne = cc

table-Memo : Memo (shape table) table
table-Memo = record { shaped = λ i. refl; right = none_kept }

calc_total_syms_cnt-Counted_example :
    Returns (Counted (shape table) 2 4) (calc_total_syms_cnt 3 2 table)
calc_total_syms_cnt-Counted_example =
    calc_total_syms_cnt-Counted 3 table (derived refl (derived refl (root {d = 0} refl)))
      (omega arith) table-Memo

calc_total_syms_cnt-self_parent_example : calc_total_syms_cnt 50 3 table ≡ stop out_of_fuel
calc_total_syms_cnt-self_parent_example =
    calc_total_syms_cnt-self_parent 50 table 3 (record class_d { parent = some 3 }) refl refl refl
