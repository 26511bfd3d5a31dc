-- ===== src/Objects.antt =====
-- vm/types.h: references and objects.
-- A reference by its tag. `imm` is a small integer in the reference itself, `chr` a character,
-- `dptr` the distance from an object to a slot inside it, `ptr` the address of an object.
use kek_on_rails.Base.{ℕ, Option, List}
use kek_on_rails.Int.{ℤ}

pub data Value : Type 0 where
  null : Value
  imm : ℕ → Value
  chr : ℕ → Value
  dptr : ℕ → Value
  ptr : ℕ → Value

-- `elems` is the address of the array's object of elements, `none` the null pointer.
pub record ArrayHead : Type 0 where
  pub length : ℕ
  pub alloc_size : ℕ
  pub elems : Option ℕ

pub record ArrayObjs : Type 0 where
  pub length : ℕ
  pub alloc_size : ℕ
  pub elems : List Value

-- What an object holds, by its type. `cls` is a class by its index, `copied` an object that the
-- collector has moved, with the address of the copy.
pub data Body : Type 0 where
  nil : Body
  int : ℤ → Body
  str : ℕ → List ℕ → Body
  symbol : ℕ → List ℕ → Body
  arr : ArrayHead → Body
  arr_objs : ArrayObjs → Body
  exinfo : Value → List (ℕ × ℕ) → Body
  expt : Value → Body
  file : Body
  term : Body
  udo : ℕ → List Value → Body
  cls : ℕ → Body
  stack : Body
  copied : ℕ → Body

pub data ObjState : Type 0 where
  unknown_state : ObjState
  first_gen_young : ObjState
  second_gen_young : ObjState
  old_white : ObjState
  old_gray : ObjState
  old_black : ObjState

-- `cls` is the index of the object's class, `none` the null pointer.
pub record Obj : Type 0 where
  pub cls : Option ℕ
  pub state : ObjState
  pub body : Body
