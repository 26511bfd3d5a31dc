-- ===== src/Machine/Frames.antt =====
-- What the pieces of a call do to the slots of the stack.
use kek_on_rails.Base.{
  ℕ, zero, suc, ◌+◌, ◌≤◌, ◌<◌, ◌≡◌, refl, ◌∙◌, ◌≢◌, none, arith, lt→ltb, eq→==, ne→==, ap,
}
use kek_on_rails.Heap.{Heap, update, read_obj, fresh_obj, gc_obj_malloc_lem}
use kek_on_rails.Int.{ℤ, pos, negsuc}
use kek_on_rails.Machine.{
  stack_size, stack_slots, Machine, put_slot, on_heap, sizeof_integer, make_integer, int_val,
  stack_push, read_slot, write_slot, push_integer, clear_slots, enter, copy_slots,
}
use kek_on_rails.Objects.{Value, null, imm, ptr, int}
use kek_on_rails.Outcome.{ok}

pub put_slot_self : (f : ℕ → Value) (i : ℕ) (v : Value) → put_slot f i v i ≡ v
put_slot_self f i v = rw (eq→== i i refl)

pub put_slot-ne : (f : ℕ → Value) (i j : ℕ) (v : Value) → i ≢ j → put_slot f i v j ≡ f j
put_slot-ne f i j v n = rw (ne→== i j n)

-- The slots after `clear_slots`
abbrev pub cleared : (ℕ → Value) → ℕ → ℕ → ℕ → Value
cleared f zero i = f
cleared f (suc n) i = cleared (put_slot f i null) n (i + 1)

pub clear_slots_lem :
    (n i : ℕ) (s : Machine)
    → i + n ≤ stack_slots
    → clear_slots n i s ≡ ok (tt, record s { slot = cleared s.slot n i })
unfolding clear_slots write_slot
clear_slots_lem zero i s h = refl
clear_slots_lem (suc n) i s h = rw (
  lt→ltb i stack_slots (omega arith),
  clear_slots_lem n (i + 1) (record s { slot = put_slot s.slot i null }) (omega arith),
)

pub cleared-below : (f : ℕ → Value) (n i j : ℕ) → j < i → cleared f n i j ≡ f j
cleared-below f zero i j h = refl
cleared-below f (suc n) i j h =
    cleared-below (put_slot f i null) n (i + 1) j (omega arith)
    ∙ put_slot-ne f i j null (λ e. absurd (omega (arith, e)))

pub cleared-null : (f : ℕ → Value) (n i k : ℕ) → k < n → cleared f n i (i + k) ≡ null
cleared-null f zero i k h = absurd (omega arith)
cleared-null f (suc n) i zero h =
    cleared-below (put_slot f i null) n (i + 1) (i + 0) (omega arith)
    ∙ ap (put_slot f i null) (omega arith)
    ∙ put_slot_self f i null
cleared-null f (suc n) i (suc k) h =
    ap (cleared (put_slot f i null) n (i + 1)) (omega arith)
    ∙ cleared-null (put_slot f i null) n (i + 1) k (omega arith)

-- The slots after `copy_slots`
abbrev pub copied : (ℕ → Value) → ℕ → ℕ → ℕ → ℕ → Value
copied f zero from to = f
copied f (suc n) from to = copied (put_slot f to (f from)) n (from + 1) (to + 1)

pub copy_slots_lem :
    (n from to : ℕ) (s : Machine)
    → from + n ≤ stack_slots
    → to ≤ from
    → copy_slots n from to s ≡ ok (tt, record s { slot = copied s.slot n from to })
unfolding copy_slots read_slot write_slot
copy_slots_lem zero from to s h le = refl
copy_slots_lem (suc n) from to s h le = rw (
  lt→ltb from stack_slots (omega arith),
  lt→ltb to stack_slots (omega arith),
  copy_slots_lem n (from + 1) (to + 1) (record s { slot = put_slot s.slot to (s.slot from) })
      (omega arith) (omega arith),
)

pub copied-below : (f : ℕ → Value) (n from to j : ℕ) → j < to → copied f n from to j ≡ f j
copied-below f zero from to j h = refl
copied-below f (suc n) from to j h =
    copied-below (put_slot f to (f from)) n (from + 1) (to + 1) j (omega arith)
    ∙ put_slot-ne f to j (f from) (λ e. absurd (omega (arith, e)))

-- Copying upwards from a higher place to a lower one is right even where the two overlap.
pub copied-at :
    (f : ℕ → Value) (n from to i : ℕ)
    → to ≤ from
    → i < n
    → copied f n from to (to + i) ≡ f (from + i)
copied-at f zero from to i le h = absurd (omega arith)
copied-at f (suc n) from to zero le h =
    copied-below (put_slot f to (f from)) n (from + 1) (to + 1) (to + 0) (omega arith)
    ∙ ap (put_slot f to (f from)) (omega arith)
    ∙ put_slot_self f to (f from)
    ∙ ap f (omega arith)
copied-at f (suc n) from to (suc i) le h =
    ap (copied (put_slot f to (f from)) n (from + 1) (to + 1)) (omega arith)
    ∙ copied-at (put_slot f to (f from)) n (from + 1) (to + 1) i (omega arith) (omega arith)
    ∙ put_slot-ne f to (from + 1 + i) (f from) (λ e. absurd (omega (arith, e)))
    ∙ ap f (omega arith)

-- A number as `make_integer` gives it, and the heap after it.
abbrev pub int_ref : ℤ → Heap → Value
int_ref (pos n) h = imm n
int_ref (negsuc n) h = ptr (h.beginning + h.used)

abbrev pub int_heap : ℤ → Heap → Heap
int_heap (pos n) h = h
int_heap (negsuc n) h = record h {
  used = h.used + sizeof_integer;
  cell = update h.cell (h.beginning + h.used) (fresh_obj none (int (negsuc n)));
}

-- Only a negative number takes room.
abbrev pub HasRoom : ℤ → Heap → Type 0
HasRoom (pos n) h = Unit {0}
HasRoom (negsuc n) h = h.used + sizeof_integer ≤ h.size

pub make_integer_lem :
    (n : ℤ) (h : Heap) → HasRoom n h → make_integer n h ≡ ok (int_ref n h, int_heap n h)
unfolding make_integer
make_integer_lem (pos n) h room = refl
make_integer_lem (negsuc n) h room =
    rw (gc_obj_malloc_lem sizeof_integer (fresh_obj none (int (negsuc n))) h room)

pub int_val-int_ref :
    (n : ℤ) (h : Heap) → int_val (int_ref n h) (int_heap n h) ≡ ok (n, int_heap n h)
unfolding int_val read_obj
int_val-int_ref (pos n) h = refl
int_val-int_ref (negsuc n) h =
    rw (read_obj, eq→== (h.beginning + h.used) (h.beginning + h.used) refl)

pub push_integer_lem :
    (n : ℤ) (s : Machine)
    → HasRoom n s.heap
    → s.sp < stack_size
    → push_integer n s
      ≡ ok (
        tt,
        record s {
          slot = put_slot s.slot s.sp (int_ref n s.heap);
          sp = s.sp + 1;
          heap = int_heap n s.heap;
        },
      )
unfolding push_integer on_heap stack_push
push_integer_lem n s room h = rw (on_heap, make_integer_lem n s.heap room, lt→ltb s.sp stack_size h)

pub enter_lem :
    (entry : ℤ) (n : ℕ) (s : Machine)
    → s.sp + n < stack_slots
    → enter entry n s
      ≡ ok (
        tt,
        record s {
          slot = cleared (put_slot s.slot s.sp null) n (s.sp + 1);
          fp = s.sp;
          sp = s.sp + n + 1;
          ip = entry;
        },
      )
unfolding enter write_slot
enter_lem entry n s h = rw (
  lt→ltb s.sp stack_slots (omega arith),
  clear_slots_lem n (s.sp + 1) (record s { slot = put_slot s.slot s.sp null }) (omega arith),
)

-- The slots once a frame stands at `p`: the saved registers, NULL under the frame pointer, and the
-- locals.
abbrev pub framed : (ℕ → Value) → ℕ → Value → Value → Value → ℕ → ℕ → Value
framed f p r a b n =
    let f1 = put_slot f p r in
    let f2 = put_slot f1 (p + 1) a in
    let f3 = put_slot f2 (p + 1 + 1) b in
    cleared (put_slot f3 (p + 1 + 1 + 1) null) n (p + 1 + 1 + 1 + 1)

module _ (f : ℕ → Value) (p : ℕ) (r a b : Value) (n : ℕ) where
  abbrev frame_slots : ℕ → Value
  frame_slots =
      put_slot (put_slot (put_slot (put_slot f p r) (p + 1) a) (p + 1 + 1) b) (p + 1 + 1 + 1) null

  pub framed-below : (j : ℕ) → j < p → framed f p r a b n j ≡ f j
  framed-below j h = rw (
    cleared-below frame_slots n (p + 1 + 1 + 1 + 1) j (omega arith),
    ne→== (p + 1 + 1 + 1) j (λ e. absurd (omega (arith, e))),
    ne→== (p + 1 + 1) j (λ e. absurd (omega (arith, e))),
    ne→== (p + 1) j (λ e. absurd (omega (arith, e))),
    ne→== p j (λ e. absurd (omega (arith, e))),
  )

  pub framed-ret : framed f p r a b n p ≡ r
  framed-ret = rw (
    cleared-below frame_slots n (p + 1 + 1 + 1 + 1) p (omega arith),
    ne→== (p + 1 + 1 + 1) p (λ e. absurd (omega (arith, e))),
    ne→== (p + 1 + 1) p (λ e. absurd (omega (arith, e))),
    ne→== (p + 1) p (λ e. absurd (omega (arith, e))),
    eq→== p p refl,
  )

  pub framed-ap : framed f p r a b n (p + 1) ≡ a
  framed-ap = rw (
    cleared-below frame_slots n (p + 1 + 1 + 1 + 1) (p + 1) (omega arith),
    ne→== (p + 1 + 1 + 1) (p + 1) (λ e. absurd (omega (arith, e))),
    ne→== (p + 1 + 1) (p + 1) (λ e. absurd (omega (arith, e))),
    eq→== (p + 1) (p + 1) refl,
  )

  pub framed-fp : framed f p r a b n (p + 1 + 1) ≡ b
  framed-fp = rw (
    cleared-below frame_slots n (p + 1 + 1 + 1 + 1) (p + 1 + 1) (omega arith),
    ne→== (p + 1 + 1 + 1) (p + 1 + 1) (λ e. absurd (omega (arith, e))),
    eq→== (p + 1 + 1) (p + 1 + 1) refl,
  )

  pub framed-locals : (k : ℕ) → k < n → framed f p r a b n (p + 1 + 1 + 1 + 1 + k) ≡ null
  framed-locals k h = cleared-null frame_slots n (p + 1 + 1 + 1 + 1) k h
