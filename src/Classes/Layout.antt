-- ===== src/Classes/Layout.antt =====
-- vm/vm.c: the sizes of objects by their class, computed once for each class.
use kek_on_rails.Base.{
  ℕ, zero, suc, ◌+◌, ◌%◌, ◌^◌, Bool, true, false, none, some, List, ◌==◌, if◌then◌else◌, length,
  get_elem?, set,
}
use kek_on_rails.Classes.Table.{
  Allocator, Class, unset, no_allocator, udo_allocator, array_allocator, file_allocator,
  term_allocator, exception_allocator,
}
use kek_on_rails.Outcome.{bad_access, out_of_fuel, ok, stop}
use kek_on_rails.State.{State, pure, ◌>>=◌, get, halt}

unfoldable pub class_at : ℕ → State (List Class) Class
class_at i cs = elim (get_elem? cs i) [ none ↦ stop bad_access | some c ↦ ok (c, cs) ]

unfoldable pub set_total : ℕ → Class → ℕ → State (List Class) ℕ
set_total i c n cs = ok (n, set cs i (record c { total_syms_instance_cnt = n }))

-- The count of the symbols of an object with those of the parents, kept once it is known.
unfoldable pub calc_total_syms_cnt : ℕ → ℕ → State (List Class) ℕ
calc_total_syms_cnt zero i = halt out_of_fuel
calc_total_syms_cnt (suc fuel) i = do
  c ← class_at i
  if c.total_syms_instance_cnt == unset
      then elim c.parent [
        | none ↦ set_total i c (length c.syms_instance)
        | some p ↦ (do
          n ← calc_total_syms_cnt fuel p
          d ← class_at i
          set_total i d ((length c.syms_instance + n) % 2 ^ 32))
      ]
      else pure c.total_syms_instance_cnt

unfoldable pub set_offset : ℕ → Class → ℕ → State (List Class) ℕ
set_offset i c n cs = ok (n, set cs i (record c { syms_instance_offset = n }))

-- What an allocator that is called without a class gives for the offset. Those of arrays and of
-- the terminal do not know this use: they make an object, of which `addr` is the address.
abbrev pub allocator_offset : ℕ → Allocator → ℕ
allocator_offset addr no_allocator = 0
allocator_offset addr udo_allocator = 0
allocator_offset addr file_allocator = 1
allocator_offset addr exception_allocator = 1
allocator_offset addr array_allocator = addr % 2 ^ 32
allocator_offset addr term_allocator = addr % 2 ^ 32

abbrev pub is_udo : Allocator → Bool
is_udo udo_allocator = true
is_udo _ = false

-- Where the variables of an object begin: behind what the built-in class at the top of its parents
-- keeps there.
unfoldable pub calc_syms_offset : ℕ → ℕ → ℕ → State (List Class) ℕ
calc_syms_offset zero addr i = halt out_of_fuel
calc_syms_offset (suc fuel) addr i = do
  c ← class_at i
  if is_udo c.allocator
      then (if c.syms_instance_offset == unset
          then elim c.parent [
            | none ↦ set_offset i c 0
            | some p ↦ (do n ← calc_syms_offset fuel addr p; d ← class_at i; set_offset i d n)
          ]
          else pure c.syms_instance_offset)
      else (set_offset i c 0 >>= λ _. pure (allocator_offset addr c.allocator))

-- The loop of `vm_calculate_udo_sizes` over `n` classes from index `i` on.
unfoldable pub udo_sizes_loop : ℕ → ℕ → ℕ → ℕ → State (List Class) (Unit {0})
udo_sizes_loop fuel addr zero i = pure tt
udo_sizes_loop fuel addr (suc n) i = do
  _ ← calc_total_syms_cnt fuel i
  _ ← calc_syms_offset fuel addr i
  udo_sizes_loop fuel addr n (i + 1)

unfoldable pub vm_calculate_udo_sizes : ℕ → ℕ → State (List Class) (Unit {0})
vm_calculate_udo_sizes fuel addr = do cs ← get; udo_sizes_loop fuel addr (length cs) 0
