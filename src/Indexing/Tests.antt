-- ===== src/Indexing/Tests.antt =====
-- IDX with an array of two items.
use kek_on_rails.Array.Cells.{with_arr, with_objs}
use kek_on_rails.Array.Items.{head_at, objs_at, IsArray}
use kek_on_rails.Base.{ℕ, ◌≡◌, refl, Option, none, some, [], ◌∷◌, arith, ◌==◌, if◌then◌else◌}
use kek_on_rails.Heap.{Heap, fresh_obj}
use kek_on_rails.Indexing.{idx}
use kek_on_rails.Indexing.Elements.{HasOperands, indexed, idx-IsArray}
use kek_on_rails.Int.{pos}
use kek_on_rails.Machine.{Machine, int_val}
use kek_on_rails.Objects.{Obj, null, imm, chr, ptr, nil}
use kek_on_rails.Outcome.{vm_error, ok, stop}

abbrev objects : ℕ → Option Obj
objects p =
    if p == 1000
    then some (with_arr (fresh_obj none nil) (head_at 2 3 1040))
    else if p == 1040
    then some (with_objs (fresh_obj none nil) (objs_at 2 3 (imm 7 ∷ chr 65 ∷ ptr 100 ∷ [])))
    else none

abbrev two_items : Heap
two_items = record { beginning = 1000; used = 104; size = 4096; const_table = 100; cell = objects }

abbrev ready : ℕ → Machine
ready i = record {
  slot = λ k. if k == 5 then ptr 1000 else if k == 6 then imm i else null;
  sp = 7;
  ap = 0;
  fp = 4;
  ip = pos 3;
  heap = two_items;
}

two_items-IsArray : IsArray two_items 1000 1040 (imm 7 ∷ chr 65 ∷ []) 1
two_items-IsArray = record {
  o = fresh_obj none nil;
  oe = fresh_obj none nil;
  holds = record { head = refl; elems = refl; link = refl };
}

ready-HasOperands : (i : ℕ) → HasOperands (ready i) 1000 (imm i)
ready-HasOperands i = record { high = omega arith; low = omega arith; index = refl; array = refl }

index_num : (i : ℕ) → int_val (imm i) two_items ≡ ok (pos i, two_items)
unfolding int_val
index_num i = refl

past_end : idx (ready 2) ≡ stop vm_error
past_end =
    idx-IsArray (ready 2) (imm 2) (pos 2) two_items-IsArray (ready-HasOperands 2) (index_num 2)

idx-IsArray_example : idx (ready 1) ≡ indexed (ready 1) (ok (chr 65))
idx-IsArray_example =
    idx-IsArray (ready 1) (imm 1) (pos 1) two_items-IsArray (ready-HasOperands 1) (index_num 1)
