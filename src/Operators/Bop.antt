-- ===== src/Operators/Bop.antt =====
-- vm/vm.c: bc_bop, the binary operators on every kind of operand, and the instructions UNM, NOT and
-- the test of IFNJ.
use mathlib.Core.Bool.{not}
use kek_on_rails.Base.{
  ℕ, ◌+◌, ◌-◌, ◌%◌, Bool, true, false, ◌||◌, Option, none, some, List, [], ◌∷◌, ◌++◌, ltb, ◌==◌,
  if◌then◌else◌, length,
}
use kek_on_rails.Heap.{Heap, read_obj, gc_obj_malloc, fresh_obj}
use kek_on_rails.Int.{ℤ, ◌-ℤ◌, ltb_ℤ, pos, negsuc}
use kek_on_rails.Machine.{
  Machine, on_heap, make_integer, int_val, stack_push, stack_pop, stack_top, write_slot,
}
use kek_on_rails.Objects.{Value, Body, null, imm, chr, dptr, ptr, nil, int, str, symbol}
use kek_on_rails.Operators.{
  Op, in_range, truth, is_zero, int_op, plus, eq_op, not_eq, less, greater, less_or_eq,
  greater_or_eq,
}
use kek_on_rails.Outcome.{vm_error, bad_access}
use kek_on_rails.State.{State, pure, ◌>>=◌, ◌>>◌, get, put, halt, check, lift}

abbrev pub is_int_body : Body → Bool
is_int_body (int n) = true
is_int_body _ = false

-- `IS_INT`. A null pointer is taken for the address of an object.
unfoldable pub is_int : Value → State Heap Bool
is_int (imm n) = pure true
is_int (dptr d) = pure true
is_int (chr c) = pure false
is_int (ptr p) = do o ← read_obj p; pure (is_int_body o.body)
is_int null = halt bad_access

-- The bytes before the first zero.
abbrev pub cstring : List ℕ → List ℕ
cstring [] = []
cstring (b ∷ bs) = if b == 0 then [] else b ∷ cstring bs

abbrev pub text_body : Body → Option (List ℕ)
text_body (str n bytes) = some (cstring bytes)
text_body _ = none

-- An operand as a string: that of a character, unless it is zero, or of a string.
unfoldable pub text_of : Value → State Heap (Option (List ℕ))
text_of (chr c) = pure (if (c % 256) == 0 then none else some ((c % 256) ∷ []))
text_of (ptr p) = do o ← read_obj p; pure (text_body o.body)
text_of (imm n) = pure none
text_of (dptr d) = pure none
text_of null = halt bad_access

abbrev pub symbol_body : Body → Option (List ℕ)
symbol_body (symbol n bytes) = some (cstring bytes)
symbol_body _ = none

unfoldable pub symbol_of : Value → State Heap (Option (List ℕ))
symbol_of (ptr p) = do o ← read_obj p; pure (symbol_body o.body)
symbol_of null = halt bad_access
symbol_of _ = pure none

-- `strcmp`, of which C fixes the sign only.
abbrev pub strcmp : List ℕ → List ℕ → ℤ
strcmp [] [] = pos 0
strcmp [] (b ∷ bs) = negsuc 0
strcmp (a ∷ xs) [] = pos 1
strcmp (a ∷ xs) (b ∷ ys) = if ltb a b then negsuc 0 else (if ltb b a then pos 1 else strcmp xs ys)

abbrev pub sizeof_string : ℕ
sizeof_string = 32

unfoldable pub new_string_from_concat : Option ℕ → List ℕ → List ℕ → State Heap Value
new_string_from_concat str_class a b = do
  p ←
      gc_obj_malloc (sizeof_string + (length a + length b))
        (fresh_obj str_class (str (length a + length b) (a ++ b)))
  pure (ptr p)

-- The two operands of one kind, the second looked at only if the first is of it.
abbrev pub both :
    (Value → State Heap (Option (List ℕ))) → Value → Value → State Heap (Option (List ℕ × List ℕ))
both of a b = do
  x ← of a
  elim x [
    | none ↦ pure none
    | some s ↦ (do y ← of b; elim y [ none ↦ pure none | some t ↦ pure (some (s, t)) ])
  ]

unfoldable pub text_op : Option ℕ → Op → List ℕ → List ℕ → State Heap Value
text_op str_class plus a b = new_string_from_concat str_class a b
text_op str_class eq_op a b = make_integer (truth (is_zero (strcmp a b)))
text_op str_class not_eq a b = make_integer (strcmp a b)
text_op str_class less a b = make_integer (truth (ltb_ℤ (strcmp a b) (pos 0)))
text_op str_class greater a b = make_integer (truth (ltb_ℤ (pos 0) (strcmp a b)))
text_op str_class less_or_eq a b = make_integer (truth (not (ltb_ℤ (pos 0) (strcmp a b))))
text_op str_class greater_or_eq a b = make_integer (truth (not (ltb_ℤ (strcmp a b) (pos 0))))
text_op str_class _ a b = halt vm_error

unfoldable pub symbol_op : Op → List ℕ → List ℕ → State Heap Value
symbol_op eq_op a b = make_integer (truth (is_zero (strcmp a b)))
symbol_op not_eq a b = make_integer (strcmp a b)
symbol_op _ a b = halt vm_error

-- Two references are the same word.
abbrev pub same_ref : Value → Value → Bool
same_ref null null = true
same_ref (imm a) (imm b) = a == b
same_ref (chr a) (chr b) = a == b
same_ref (dptr a) (dptr b) = a == b
same_ref (ptr a) (ptr b) = a == b
same_ref _ _ = false

unfoldable pub ref_op : Op → Value → Value → State Heap Value
ref_op eq_op a b = make_integer (truth (same_ref a b))
ref_op not_eq a b = make_integer (truth (not (same_ref a b)))
ref_op _ a b = halt vm_error

abbrev pub both_ints : Value → Value → State Heap Bool
both_ints a b = do x ← is_int a; if x then is_int b else pure false

-- The operators on two operands that are not both integers.
unfoldable pub other_op : Option ℕ → Op → Value → Value → State Heap Value
other_op str_class o a b = do
  texts ← both text_of a b
  elim texts [
    | some (s, t) ↦ text_op str_class o s t
    | none ↦ (do
      symbols ← both symbol_of a b
      elim symbols [ some (s, t) ↦ symbol_op o s t | none ↦ ref_op o a b ])
  ]

-- `str_class` is what vm_find_class gives for the class of strings.
unfoldable pub bc_bop : Option ℕ → Op → Value → Value → State Heap Value
bc_bop str_class o a b = do
  ints ← both_ints a b
  if ints
      then (do x ← int_val a; y ← int_val b; z ← lift (int_op o x y); make_integer z)
      else other_op str_class o a b

-- BOP
unfoldable pub bop : Option ℕ → Op → State Machine (Unit {0})
bop str_class o = do
  op2 ← stack_pop
  op1 ← stack_pop
  res ← on_heap (bc_bop str_class o op1 op2)
  stack_push res

-- UNM
unfoldable pub unm : State Machine (Unit {0})
unm = do
  obj ← stack_top
  known ← on_heap (is_int obj)
  check known vm_error
  x ← on_heap (int_val obj)
  z ← lift (in_range (pos 0 -ℤ x))
  n ← on_heap (make_integer z)
  s ← get
  write_slot (s.sp - 1) n

abbrev pub is_nil_body : Body → Bool
is_nil_body nil = true
is_nil_body _ = false

-- `IS_NIL`
unfoldable pub is_nil : Value → State Heap Bool
is_nil (ptr p) = do o ← read_obj p; pure (is_nil_body o.body)
is_nil null = halt bad_access
is_nil _ = pure false

-- Whether a value counts as false: zero or nil.
unfoldable pub is_false : Value → State Heap Bool
is_false v = do known ← is_int v; if known then (do x ← int_val v; pure (is_zero x)) else is_nil v

-- NOT
unfoldable pub not_op : State Machine (Unit {0})
not_op = do
  obj ← stack_top
  falsy ← on_heap (is_false obj)
  n ← on_heap (make_integer (truth falsy))
  s ← get
  write_slot (s.sp - 1) n

-- IFNJ, from its operand on: what is neither a number nor nil is an error.
unfoldable pub ifnj : ℕ → State Machine (Unit {0})
ifnj arg = do
  obj ← stack_pop
  known ← on_heap (is_int obj)
  falsy ← on_heap (if known then is_false obj else is_nil obj)
  check (known || falsy) vm_error
  s ← get
  put (record s { ip = if falsy then pos arg else s.ip })
