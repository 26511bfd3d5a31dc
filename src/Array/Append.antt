-- ===== src/Array/Append.antt =====
-- vm/k_array.c: array_append where the array is large enough already.
use kek_on_rails.Array.Cells.{Holds}
use kek_on_rails.Array.Items.{IsArray, head_at, objs_at}
use kek_on_rails.Base.{ℕ, suc, ◌+◌, ◌≢◌, List, [], ◌∷◌, ◌++◌, length, set, replicate}
use kek_on_rails.Heap.{Heap, nil_value}
use kek_on_rails.Objects.{Value, Obj}

-- The elements after the loop has written `ys` from the index `i` on.
abbrev pub written : List Value → ℕ → List Value → List Value
written l i [] = l
written l i (y ∷ ys) = written (set l i y) (suc i) ys

-- An argument of `append`: an array of its own, apart from the one that is appended to.
pub record IsArgument (h : Heap) (q f : ℕ) (ys : List Value) (p e : ℕ) : Type 0 where
  pub spare : ℕ
  pub array : IsArray h q f ys spare
  pub head_p : q ≢ p
  pub head_e : q ≢ e
  pub elems_p : f ≢ p
  pub elems_e : f ≢ e

-- What append leaves where nothing grows: the array's own length counts the new items and the
-- elements hold them, but the object of the elements keeps the old length.
pub record Appended (h g : Heap) (p e : ℕ) (xs ys : List Value) (spare k : ℕ) : Type 0 where
  pub o : Obj
  pub oe : Obj
  pub holds :
      Holds g p o
        (head_at (length xs + length ys) (length xs + spare) e)
        e
        oe
        (objs_at (length xs) (length xs + spare) ((xs ++ ys) ++ replicate k (nil_value h)))
