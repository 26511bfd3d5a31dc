-- ===== src/Array/Tests.antt =====
-- Arrays at a small heap.
use kek_on_rails.Array.{grow_size, native_arr_elem_set}
use kek_on_rails.Array.Cells.{with_arr, with_objs}
use kek_on_rails.Array.Growth.{grow_size_total, grow_size_stuck}
use kek_on_rails.Array.Items.{head_at, objs_at, IsArray, CanGrow}
use kek_on_rails.Array.Set.{Assigned, native_arr_elem_set-Assigned}
use kek_on_rails.Base.{
  ℕ, zero, suc, ◌*◌, ◌≤◌, ◌≡◌, refl, ◌≢◌, ◌⊎◌, none, some, [], ◌∷◌, arith, ne→==, get_elem?,
}
use kek_on_rails.Heap.{Heap, update, fresh_obj, IsHeap}
use kek_on_rails.Objects.{ArrayObjs, Obj, null, imm, ptr, nil}
use kek_on_rails.Outcome.{out_of_fuel, ok, stop}
use kek_on_rails.State.{Returns}

abbrev objs : ArrayObjs
objs = objs_at 1 2 (imm 7 ∷ ptr 100 ∷ [])

abbrev head_obj : Obj
head_obj = fresh_obj (some 0) nil

abbrev elems_obj : Obj
elems_obj = fresh_obj none nil

-- The constants at 100, the segment at 1000, an array of one item and two slots at 1000, its
-- elements at 1040.
abbrev sample : Heap
sample = record {
  beginning = 1000;
  used = 88;
  size = 4096;
  const_table = 100;
  cell =
      update (update (λ _. none) 1040 (with_objs elems_obj objs)) 1000
        (with_arr head_obj (head_at 1 2 1040));
}

sample-IsArray : IsArray sample 1000 1040 (imm 7 ∷ []) 1
sample-IsArray = record {
  o = head_obj;
  oe = elems_obj;
  holds = record { head = refl; elems = refl; link = refl };
}

sample-IsHeap : IsHeap sample
sample-IsHeap = record {
  fits = omega arith;
  consts_below = omega arith;
  unused = λ p h. rw (ne→== 1000 p (omega arith), ne→== 1040 p (omega arith));
}

no_null : (i : ℕ) → get_elem? (imm 7 ∷ []) i ≢ some null
no_null zero h = cc
no_null (suc i) h = cc

sample-CanGrow : CanGrow sample (imm 7 ∷ []) 1 4
sample-CanGrow = record {
  heap = sample-IsHeap;
  no_null = no_null;
  slots = omega arith;
  more = omega arith;
  small = omega arith;
  room = omega arith;
}

-- Setting index 3 grows the array of two slots.
native_arr_elem_set-Assigned_example :
    Returns
      (λ _ g. Assigned sample g 1000 1040 (imm 7 ∷ ptr 100 ∷ ptr 100 ∷ imm 9 ∷ []))
      (native_arr_elem_set 1000 3 (imm 9) sample)
native_arr_elem_set-Assigned_example =
    native_arr_elem_set-Assigned 3 (imm 9) sample-IsArray sample-IsHeap (λ _. sample-CanGrow)

grow_size_total_example :
    (n : ℕ) × (grow_size 8 2 7 ≡ ok n) × (7 ≤ n) × (2 ≤ n) × ((n ≡ 2) ⊎ (n * 2 ≤ 7 * 3))
grow_size_total_example =
    grow_size_total 8 2 7 (omega arith) (omega arith) (omega arith) (omega arith)

grow_size_stuck_example : grow_size 500 1 2 ≡ stop out_of_fuel
grow_size_stuck_example = grow_size_stuck 500 2 (omega arith)

-- A second array, of one item, is appended to the first.
abbrev both_arrays : Heap
both_arrays = record sample {
  cell =
      update (update sample.cell 2040 (with_objs elems_obj (objs_at 1 1 (imm 5 ∷ [])))) 2000
        (with_arr head_obj (head_at 1 1 2040));
}
