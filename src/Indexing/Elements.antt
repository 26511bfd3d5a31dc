-- ===== src/Indexing/Elements.antt =====
-- vm/vm.c: IDX on an array, for each index.
use kek_on_rails.Array.{load_elem}
use kek_on_rails.Array.Cells.{read_arr_lem, read_objs_lem}
use kek_on_rails.Array.Growth.{get_elem?-append}
use kek_on_rails.Array.Items.{head_of, objs_of, IsArray}
use kek_on_rails.Base.{
  ℕ, suc, ◌+◌, ◌-◌, ◌≤◌, ◌<◌, ◌≡◌, refl, some, List, arith, lt→ltb, le→ltb, length, get_elem?,
  replicate, zero, sym, ap, ◌∙◌, inl, inr, false, Option, none, [], ◌∷◌, Option-cases,
}
use kek_on_rails.Classes.Memo.{get_elem?-lt}
use kek_on_rails.Exceptions.{is_null}
use kek_on_rails.Heap.{Heap, nil_value, read_obj}
use kek_on_rails.Indexing.{idx_arr, idx_obj, idx_num, idx}
use kek_on_rails.Int.{ℤ, pos, negsuc}
use kek_on_rails.Machine.{stack_size, Machine, put_slot, int_val, stack_pop, on_heap, stack_push}
use kek_on_rails.Objects.{Value, ptr, null, imm, chr, dptr}
use kek_on_rails.Operators.Ints.{int_val-is_int}
use kek_on_rails.Outcome.{vm_error, bad_access, ok, stop, Outcome}

abbrev pub found_or_error : Option Value → Outcome Value
found_or_error none = stop vm_error
found_or_error (some v) = ok v

-- What an index means: the item there, an error past the end, and a read in front of the elements
-- for a negative one.
abbrev pub item_at : List Value → ℤ → Outcome Value
item_at xs (pos i) = found_or_error (get_elem? xs i)
item_at xs (negsuc i) = stop bad_access

abbrev pub with_heap : Outcome Value → Heap → Outcome (Value × Heap)
with_heap (ok v) h = ok (v, h)
with_heap (stop e) h = stop e

get_elem?-none : (xs : List Value) (i : ℕ) → get_elem? xs i ≡ none → length xs ≤ i
get_elem?-none [] i e = omega arith
get_elem?-none (x ∷ xs) zero e = cc
get_elem?-none (x ∷ xs) (suc i) e = omega (arith, get_elem?-none xs i e)

-- The machine with the array at `p` and the index `i` on top of its stack.
pub record HasOperands (s : Machine) (p : ℕ) (i : Value) : Type 0 where
  pub high : 2 ≤ s.sp
  pub low : s.sp ≤ stack_size
  pub index : s.slot (s.sp - 1) ≡ i
  pub array : s.slot (s.sp - 1 - 1) ≡ ptr p

module _ {h : Heap} {p e : ℕ} {xs : List Value} {spare : ℕ} (is : IsArray h p e xs spare) where
  open is use {o, oe, holds}

  idx_obj-arr : (n : ℤ) → idx_obj (ptr p) n h ≡ idx_arr p n h
  unfolding idx_obj read_obj
  idx_obj-arr n = rw (idx_obj, read_obj, holds.head) refl

  idx_arr-past : (i : ℕ) → length xs ≤ i → idx_arr p (pos i) h ≡ stop vm_error
  unfolding idx_arr
  idx_arr-past i far =
      rw
        (
          idx_arr,
          read_arr_lem h p o (head_of xs spare e) holds.head,
          le→ltb (i + 0) (length xs + 0) (omega arith),
        )
        refl

  idx_arr-negative : (i : ℕ) → idx_arr p (negsuc i) h ≡ stop bad_access
  unfolding idx_arr
  idx_arr-negative i =
      rw
        (
          idx_arr,
          read_arr_lem h p o (head_of xs spare e) holds.head,
          lt→ltb 0 (length xs + suc i) (omega arith),
        )
        refl

  idx_arr-item :
      (i : ℕ) (v : Value)
      → i < length xs
      → get_elem? xs i ≡ some v
      → idx_arr p (pos i) h ≡ ok (v, h)
  unfolding idx_arr load_elem
  idx_arr-item i v inside at =
      rw
        (
          idx_arr,
          read_arr_lem h p o (head_of xs spare e) holds.head,
          lt→ltb (i + 0) (length xs + 0) (omega arith),
          load_elem,
          read_arr_lem h p o (head_of xs spare e) holds.head,
          read_objs_lem h (some e) e oe (objs_of xs spare (nil_value h)) refl holds.elems,
          get_elem?-append xs (replicate spare (nil_value h)) i inside,
          at,
        )
        refl

  idx_obj-item :
      (n : ℤ) (r : Outcome Value) → item_at xs n ≡ r → idx_obj (ptr p) n h ≡ with_heap r h
  idx_obj-item (negsuc i) r at =
      idx_obj-arr (negsuc i) ∙ idx_arr-negative i ∙ ap (λ q. with_heap q h) at
  idx_obj-item (pos i) r at = elim (Option-cases (get_elem? xs i)) [
    | inl nothing ↦
        idx_obj-arr (pos i)
        ∙ idx_arr-past i (get_elem?-none xs i nothing)
        ∙ ap (λ q. with_heap q h) (sym (ap found_or_error nothing) ∙ at)
    | inr (v, there) ↦
        idx_obj-arr (pos i)
        ∙ idx_arr-item i v (get_elem?-lt xs i v there) there
        ∙ ap (λ q. with_heap q h) (sym (ap found_or_error there) ∙ at)
  ]

stack_pop_lem :
    (s : Machine) → 0 < s.sp → stack_pop s ≡ ok (s.slot (s.sp - 1), record s { sp = s.sp - 1 })
unfolding stack_pop
stack_pop_lem s h = rw (stack_pop, lt→ltb 0 s.sp h) refl

not_null : (v : Value) (n : ℤ) (h : Heap) → int_val v h ≡ ok (n, h) → is_null v ≡ false
unfolding int_val
not_null null n h e = cc
not_null (imm i) n h e = refl
not_null (chr c) n h e = refl
not_null (dptr d) n h e = refl
not_null (ptr p) n h e = refl

idx_num_lem : (v : Value) (n : ℤ) (h : Heap) → int_val v h ≡ ok (n, h) → idx_num v h ≡ ok (n, h)
unfolding idx_num
idx_num_lem v n h e = rw (idx_num, not_null v n h e, int_val-is_int v n h e, e) refl

-- The machine when IDX has put an item in the place of its operands, or its stop.
abbrev pub indexed : Machine → Outcome Value → Outcome (Unit {0} × Machine)
indexed s (stop e) = stop e
indexed s (ok v) =
    ok (tt, record s { slot = put_slot s.slot (s.sp - 1 - 1) v; sp = s.sp - 1 - 1 + 1 })

idx_run :
    (s : Machine) {p e : ℕ} {xs : List Value} {spare : ℕ} (i : Value) (n : ℤ) (r : Outcome Value)
    → IsArray s.heap p e xs spare
    → HasOperands s p i
    → int_val i s.heap ≡ ok (n, s.heap)
    → item_at xs n ≡ r
    → idx s ≡ indexed s r
unfolding idx on_heap stack_push
idx_run s i n (ok v) is ops num at =
    let s1 : Machine = record s { sp = s.sp - 1 } in
    rw
      (
        stack_pop_lem s (omega (arith, ops.high)),
        stack_pop_lem s1 (omega (arith, ops.high)),
        ops.array,
        ops.index,
        on_heap,
        idx_num_lem i n s.heap num,
        idx_obj-item is n (ok v) at,
        lt→ltb (s.sp - 1 - 1) stack_size (omega (arith, ops.high, ops.low)),
      )
      refl
idx_run s i n (stop why) is ops num at =
    let s1 : Machine = record s { sp = s.sp - 1 } in
    rw
      (
        stack_pop_lem s (omega (arith, ops.high)),
        stack_pop_lem s1 (omega (arith, ops.high)),
        ops.array,
        ops.index,
        on_heap,
        idx_num_lem i n s.heap num,
        idx_obj-item is n (stop why) at,
      )
      refl

-- IDX with an array below an integer on the stack: an index inside the length puts the item of the
-- array there in the place of both, with nothing else changed; one past the end ends the machine
-- with an error; a negative one is not refused, and the read is outside of the elements.
pub idx-IsArray :
    (s : Machine) {p e : ℕ} {xs : List Value} {spare : ℕ} (i : Value) (n : ℤ)
    → IsArray s.heap p e xs spare
    → HasOperands s p i
    → int_val i s.heap ≡ ok (n, s.heap)
    → idx s ≡ indexed s (item_at xs n)
idx-IsArray s {xs} i n is ops num = idx_run s i n (item_at xs n) is ops num refl
