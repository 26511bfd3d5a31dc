-- ===== src/ObjTable.antt =====
-- vm/memory.c: the table of objects with the variables that point to them. A variable is the address
-- of a pointer.
pub mod Places
mod Tests
use kek_on_rails.Base.{
  ℕ, zero, suc, ◌+◌, ◌*◌, ◌/◌, ◌%◌, ◌^◌, Bool, true, false, Option, none, some, List, [], ◌∷◌, ◌++◌,
  ltb, ◌==◌, if◌then◌else◌, length, get_elem?, set, replicate,
}
use kek_on_rails.Machine.Frames.{cleared}
use kek_on_rails.Objects.{ObjState, unknown_state, second_gen_young}
use kek_on_rails.Outcome.{◌>>=◌, ◌>>◌, Outcome, require, assertion, bad_access, ok, stop}

-- The further variables of an object: `slot` is the memory of the array.
pub record PtrArr : Type 0 where
  pub cnt : ℕ
  pub size : ℕ
  pub slot : ℕ → ℕ

pub record TableEntry : Type 0 where
  pub state : ObjState
  pub obj_ptr : Option ℕ
  pub ptr : Option ℕ
  pub ptr_arr : Option PtrArr

-- An entry of zeros.
abbrev pub blank : TableEntry
blank = record { state = unknown_state; obj_ptr = none; ptr = none; ptr_arr = none }

abbrev pub obj_table_default_size : ℕ
obj_table_default_size = 2048

abbrev pub obj_table_init : List TableEntry
obj_table_init = replicate obj_table_default_size blank

abbrev pub holds : Option ℕ → ℕ → Bool
holds none obj = false
holds (some q) obj = q == obj

-- `obj_table_find` from the index `i` on; `none` stands for UINT32_MAX.
unfoldable pub find_from : ℕ → ℕ → List TableEntry → Option ℕ
find_from obj i [] = none
find_from obj i (e ∷ es) = if holds e.obj_ptr obj then some i else find_from obj (i + 1) es

unfoldable pub obj_table_find : List TableEntry → ℕ → Option ℕ
obj_table_find t obj = find_from obj 0 t

-- The other fields of an entry stay as they are.
abbrev pub with_obj : ℕ → ℕ → TableEntry → TableEntry
with_obj objptr obj e = record e { state = second_gen_young; obj_ptr = some obj; ptr = some objptr }

abbrev pub behind_entry : TableEntry → Option (ℕ × List TableEntry) → Option (ℕ × List TableEntry)
behind_entry e none = none
behind_entry e (some (i, es)) = some (i, e ∷ es)

-- An entry that is free is taken, else the rest is searched.
abbrev pub taken_or :
    Option ℕ
    → ℕ
    → ℕ
    → ℕ
    → TableEntry
    → List TableEntry
    → Option (ℕ × List TableEntry)
    → Option (ℕ × List TableEntry)
taken_or none objptr obj i e es rest = some (i, with_obj objptr obj e ∷ es)
taken_or (some q) objptr obj i e es rest = behind_entry e rest

-- The loop of `obj_table_add` from the index `i` on.
unfoldable pub add_from : ℕ → ℕ → ℕ → List TableEntry → Option (ℕ × List TableEntry)
add_from objptr obj i [] = none
add_from objptr obj i (e ∷ es) =
    taken_or e.obj_ptr objptr obj i e es (add_from objptr obj (i + 1) es)

abbrev pub sizeof_entry : ℕ
sizeof_entry = 40

-- The upper half of a table that has grown: `memset` clears a number of bytes that is the number of
-- entries, and behind them stands what memory held.
abbrev pub upper_half : (ℕ → TableEntry) → ℕ → ℕ → ℕ → List TableEntry
upper_half junk cleared i zero = []
upper_half junk cleared i (suc n) =
    (if ltb i cleared then blank else junk i) ∷ upper_half junk cleared (i + 1) n

abbrev pub first_taken : ℕ → ℕ → List TableEntry → Outcome (List TableEntry)
first_taken objptr obj [] = stop bad_access
first_taken objptr obj (e ∷ es) = ok (with_obj objptr obj e ∷ es)

-- The sizes are powers of two, so a size of 2^32 wraps to 0, for which `realloc` gives no memory.
unfoldable pub grow_table :
    (ℕ → TableEntry) → ℕ → ℕ → List TableEntry → Outcome (ℕ × List TableEntry)
grow_table junk objptr obj t =
    require (ltb (length t * 2) (2 ^ 32)) assertion
    >> first_taken objptr obj (upper_half junk (length t / sizeof_entry) 0 (length t))
    >>= λ upper. ok (length t, t ++ upper)

abbrev pub or_grow :
    Option (ℕ × List TableEntry) → Outcome (ℕ × List TableEntry) → Outcome (ℕ × List TableEntry)
or_grow none grown = grown
or_grow (some r) grown = ok r

unfoldable pub obj_table_add :
    (ℕ → TableEntry) → List TableEntry → ℕ → ℕ → Outcome (ℕ × List TableEntry)
obj_table_add junk t objptr obj = or_grow (add_from objptr obj 0 t) (grow_table junk objptr obj t)

abbrev pub ptr_arr_default_size : ℕ
ptr_arr_default_size = 256

-- The array of further variables, made where there is none, and doubled where it is full.
abbrev pub made_arr : (ℕ → ℕ) → Option PtrArr → PtrArr
made_arr fresh none = record { cnt = 0; size = ptr_arr_default_size; slot = fresh }
made_arr fresh (some a) = a

abbrev pub roomy_arr : PtrArr → PtrArr
roomy_arr a = if a.cnt == a.size then record a { size = (a.size * 2) % 2 ^ 32 } else a

abbrev pub put_ptr : (ℕ → ℕ) → ℕ → ℕ → ℕ → ℕ
put_ptr slot i objptr j = if i == j then objptr else slot j

-- The variable is written behind the last one, and `ptr_arr_cnt` stays as it is.
abbrev pub with_ptr : PtrArr → ℕ → Outcome PtrArr
with_ptr a objptr =
    require (ltb a.cnt a.size) bad_access >> ok (record a { slot = put_ptr a.slot a.cnt objptr })

abbrev pub is_set : Option ℕ → Bool
is_set none = false
is_set (some q) = true

unfoldable pub entry_regptr : (ℕ → ℕ) → ℕ → TableEntry → Outcome TableEntry
entry_regptr fresh objptr e =
    require (is_set e.ptr) assertion
    >> with_ptr (roomy_arr (made_arr fresh e.ptr_arr)) objptr
    >>= λ a. ok (record e { ptr_arr = some a })

abbrev pub entry_or_fault : Option TableEntry → Outcome TableEntry
entry_or_fault none = stop bad_access
entry_or_fault (some e) = ok e

unfoldable pub regptr_at : (ℕ → ℕ) → List TableEntry → ℕ → ℕ → Outcome (ℕ × List TableEntry)
regptr_at fresh t objptr i =
    entry_or_fault (get_elem? t i) >>= λ e. entry_regptr fresh objptr e >>= λ e'. ok (i, set t i e')

abbrev pub regptr_found :
    (ℕ → TableEntry) → (ℕ → ℕ) → List TableEntry → ℕ → ℕ → Option ℕ → Outcome (ℕ × List TableEntry)
regptr_found junk fresh t objptr obj none = obj_table_add junk t objptr obj
regptr_found junk fresh t objptr obj (some i) = regptr_at fresh t objptr i

-- `obj` is what the variable points to, `fresh` the memory that `malloc` gives.
unfoldable pub obj_table_regptr :
    (ℕ → TableEntry) → (ℕ → ℕ) → List TableEntry → ℕ → Option ℕ → Outcome (ℕ × List TableEntry)
obj_table_regptr junk fresh t objptr none = stop assertion
obj_table_regptr junk fresh t objptr (some obj) =
    regptr_found junk fresh t objptr obj (obj_table_find t obj)
