-- ===== src/Operators/Ints.antt =====
-- vm/vm.c: bc_bop on two integers, whatever their representation.
use kek_on_rails.Base.{ℕ, ◌≡◌, refl, true, Option}
use kek_on_rails.Heap.{Heap, read_obj}
use kek_on_rails.Int.{ℤ}
use kek_on_rails.Machine.{body_int, int_val}
use kek_on_rails.Machine.Frames.{HasRoom, make_integer_lem, int_val-int_ref}
use kek_on_rails.Machine.Numbers.{cell-int_val}
use kek_on_rails.Objects.{
  Value, Body, null, imm, chr, dptr, ptr, nil, int, str, symbol, arr, arr_objs, exinfo, expt, file,
  term, udo, cls, stack, copied,
}
use kek_on_rails.Operators.{Op, int_op}
use kek_on_rails.Operators.Bop.{is_int_body, is_int, bc_bop}
use kek_on_rails.Operators.Range.{IsInt, int_op-IsInt}
use kek_on_rails.Outcome.{Stop, ok, stop}
use kek_on_rails.State.{Returns, returns}

int_body-is_int : (b : Body) (x : ℤ) → body_int b ≡ ok x → is_int_body b ≡ true
int_body-is_int (int n) x e = refl
int_body-is_int nil x e = cc
int_body-is_int (str n s) x e = cc
int_body-is_int (symbol n s) x e = cc
int_body-is_int (arr a) x e = cc
int_body-is_int (arr_objs a) x e = cc
int_body-is_int (exinfo v l) x e = cc
int_body-is_int (expt v) x e = cc
int_body-is_int file x e = cc
int_body-is_int term x e = cc
int_body-is_int (udo k l) x e = cc
int_body-is_int (cls k) x e = cc
int_body-is_int stack x e = cc
int_body-is_int (copied p) x e = cc

pub int_val-is_int :
    (v : Value) (x : ℤ) (h : Heap) → int_val v h ≡ ok (x, h) → is_int v h ≡ ok (true, h)
unfolding int_val is_int read_obj
int_val-is_int (imm n) x h e = refl
int_val-is_int (dptr d) x h e = refl
int_val-is_int (chr c) x h e = cc
int_val-is_int null x h e = cc
int_val-is_int (ptr p) x h e =
    let (o, at, body) = cell-int_val h p x e in
    rw (is_int, read_obj, at, int_body-is_int o.body x body) refl

-- On two references that both stand for ints, small or boxed, an operator gives a reference that
-- stands for its result, which is an int again, if there is room to box it where it is negative.
pub bc_bop-ints :
    (str_class : Option ℕ) (o : Op) (a b : Value) (x y z : ℤ) (h : Heap)
    → int_val a h ≡ ok (x, h)
    → int_val b h ≡ ok (y, h)
    → IsInt x
    → IsInt y
    → int_op o x y ≡ ok z
    → HasRoom z h
    → Returns (λ v g. (int_val v g ≡ ok (z, g)) × IsInt z) (bc_bop str_class o a b h)
unfolding bc_bop
bc_bop-ints str_class o a b x y z h ea eb ix iy e room =
    rw (int_val-is_int a x h ea, int_val-is_int b y h eb, ea, eb, e, make_integer_lem z h room)
      (returns (int_val-int_ref z h, int_op-IsInt o x y z ix iy e))

-- An operator without a result on two ints has none in the machine either.
pub bc_bop-undefined :
    (str_class : Option ℕ) (o : Op) (a b : Value) (x y : ℤ) (s : Stop) (h : Heap)
    → int_val a h ≡ ok (x, h)
    → int_val b h ≡ ok (y, h)
    → int_op o x y ≡ stop s
    → bc_bop str_class o a b h ≡ stop s
unfolding bc_bop
bc_bop-undefined str_class o a b x y s h ea eb e =
    rw (int_val-is_int a x h ea, int_val-is_int b y h eb, ea, eb, e) refl
