-- ===== src/ObjTable/Tests.antt =====
-- A table that is full grows, over memory that is not cleared.
use kek_on_rails.Base.{ℕ, ◌≡◌, refl, none, some, List, [], ◌∷◌, Option}
use kek_on_rails.ObjTable.{
  TableEntry, blank, find_from, obj_table_find, with_obj, add_from, grow_table, obj_table_add,
  put_ptr, entry_regptr, regptr_at, obj_table_regptr,
}
use kek_on_rails.ObjTable.Places.{KeepsPlace, obj_table_regptr_keeps}
use kek_on_rails.Objects.{second_gen_young}
use kek_on_rails.Outcome.{ok, Outcome}

abbrev entry_of : ℕ → ℕ → TableEntry
entry_of objptr obj = with_obj objptr obj blank

abbrev full_table : List TableEntry
full_table = entry_of 300 4096 ∷ entry_of 308 4160 ∷ []

abbrev left_over : ℕ → TableEntry
left_over i = entry_of 0 4160

abbrev no_memory : ℕ → ℕ
no_memory i = 0

abbrev grown_table : List TableEntry
grown_table = entry_of 300 4096 ∷ entry_of 308 4160 ∷ entry_of 316 4224 ∷ entry_of 0 4160 ∷ []

grows : obj_table_regptr left_over no_memory full_table 316 (some 4224) ≡ ok (2, grown_table)
unfolding obj_table_regptr obj_table_find find_from obj_table_add add_from grow_table
grows = refl

obj_table_regptr_keeps_example :
    (obj_table_find grown_table 4224 ≡ some 2)
    × ((q : ℕ) → KeepsPlace (obj_table_find full_table q) (obj_table_find grown_table q))
obj_table_regptr_keeps_example =
    obj_table_regptr_keeps left_over no_memory 316 4224 2 full_table grown_table grows

abbrev shared_entry : ℕ → TableEntry
shared_entry objptr = record {
  state = second_gen_young;
  obj_ptr = some 4096;
  ptr = some 300;
  ptr_arr = some (record { cnt = 0; size = 256; slot = put_ptr no_memory 0 objptr });
}

-- The third variable of an object takes the place of the second.
second_variable :
    obj_table_regptr left_over no_memory (entry_of 300 4096 ∷ []) 400 (some 4096)
    ≡ ok (0, shared_entry 400 ∷ [])
unfolding obj_table_regptr obj_table_find find_from regptr_at entry_regptr
second_variable = refl

abbrev first_further : Outcome (ℕ × List TableEntry) → Option (ℕ × ℕ)
first_further (ok (i, e ∷ es)) = elim e.ptr_arr [ none ↦ none | some a ↦ some (a.cnt, a.slot 0) ]
first_further _ = none

abbrev third : Outcome (ℕ × List TableEntry)
third = obj_table_regptr left_over no_memory (shared_entry 400 ∷ []) 500 (some 4096)

third_variable : first_further third ≡ some (0, 500)
unfolding obj_table_regptr obj_table_find find_from regptr_at entry_regptr
third_variable = refl
