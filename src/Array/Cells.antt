-- ===== src/Array/Cells.antt =====
-- The two objects of an array in the heap, and what the primitive accesses do to them.
use kek_on_rails.Array.{
  read_arr, write_arr, read_objs, write_objs, arr_set_length, arr_set_alloc_size, store_elem,
}
use kek_on_rails.Base.{ℕ, ◌<◌, ◌≡◌, ◌≢◌, false, some, arith, ◌==◌, lt→ltb, length, set, Option}
use kek_on_rails.Heap.{Heap, update, read_obj, write_obj}
use kek_on_rails.Objects.{Value, ArrayHead, ArrayObjs, Obj, arr, arr_objs}
use kek_on_rails.Outcome.{ok}

abbrev pub with_arr : Obj → ArrayHead → Obj
with_arr o a = record o { body = arr a }

abbrev pub with_objs : Obj → ArrayObjs → Obj
with_objs o b = record o { body = arr_objs b }

abbrev pub set_cell : Heap → ℕ → Obj → Heap
set_cell h p o = record h { cell = update h.cell p o }

-- At `p` stands an array, at `e` the object of its elements.
pub record Holds (h : Heap) (p : ℕ) (o : Obj) (a : ArrayHead) (e : ℕ) (oe : Obj) (b : ArrayObjs)
    : Type 0 where
  pub head : h.cell p ≡ some (with_arr o a)
  pub elems : h.cell e ≡ some (with_objs oe b)
  pub link : a.elems ≡ some e

pub Holds-ne :
    {h : Heap} {p : ℕ} {o : Obj} {a : ArrayHead} {e : ℕ} {oe : Obj} {b : ArrayObjs}
    → Holds h p o a e oe b
    → (p == e) ≡ false
Holds-ne {p} {e} hd = ground arith

pub read_arr_lem :
    (h : Heap) (p : ℕ) (o : Obj) (a : ArrayHead)
    → h.cell p ≡ some (with_arr o a)
    → read_arr p h ≡ ok (a, h)
unfolding read_arr read_obj
read_arr_lem h p o a e = rw (read_arr, read_obj, e)

pub write_arr_lem :
    (h : Heap) (p : ℕ) (o : Obj) (a a' : ArrayHead)
    → h.cell p ≡ some (with_arr o a)
    → write_arr p a' h ≡ ok (tt, set_cell h p (with_arr o a'))
unfolding write_arr read_obj write_obj
write_arr_lem h p o a a' e = rw (write_arr, read_obj, e)

pub read_objs_lem :
    (h : Heap) (l : Option ℕ) (e : ℕ) (oe : Obj) (b : ArrayObjs)
    → l ≡ some e
    → h.cell e ≡ some (with_objs oe b)
    → read_objs l h ≡ ok (b, h)
unfolding read_objs read_obj
read_objs_lem h l p oe b le e = rw (le, read_objs, read_obj, e)

pub write_objs_lem :
    (h : Heap) (l : Option ℕ) (e : ℕ) (oe : Obj) (b b' : ArrayObjs)
    → l ≡ some e
    → h.cell e ≡ some (with_objs oe b)
    → write_objs l b' h ≡ ok (tt, set_cell h e (with_objs oe b'))
unfolding write_objs read_obj write_obj
write_objs_lem h l p oe b b' le e = rw (le, write_objs, read_obj, e)

pub cell-set_cell_self : (h : Heap) (p : ℕ) (o : Obj) → (set_cell h p o).cell p ≡ some o
cell-set_cell_self h p o = ground arith

pub cell-set_cell_ne : (h : Heap) (p q : ℕ) (o : Obj) → p ≢ q → (set_cell h p o).cell q ≡ h.cell q
cell-set_cell_ne h p q o ne = ground arith

abbrev pub set_pair : Heap → ℕ → Obj → ArrayHead → ℕ → Obj → ArrayObjs → Heap
set_pair h p o a e oe b = set_cell (set_cell h p (with_arr o a)) e (with_objs oe b)

module _ {h : Heap} {p : ℕ} {o : Obj} {a : ArrayHead} {e : ℕ} {oe : Obj} {b : ArrayObjs}
    (hd : Holds h p o a e oe b) where
  pub Holds-set_pair :
      (a' : ArrayHead) (b' : ArrayObjs)
      → a'.elems ≡ some e
      → Holds (set_pair h p o a' e oe b') p o a' e oe b'
  Holds-set_pair a' b' l = record {
    head = ground (arith, Holds-ne hd);
    elems = ground arith;
    link = l;
  }

  -- A write to the array's own object leaves the object of its elements.
  elems-set_cell : (a' : ArrayHead) → (set_cell h p (with_arr o a')).cell e ≡ some (with_objs oe b)
  elems-set_cell a' = rw (Holds-ne hd) hd.elems

  pub arr_set_length_lem :
      (n : ℕ)
      → arr_set_length p n h
        ≡ ok (tt, set_pair h p o (record a { length = n }) e oe (record b { length = n }))
  unfolding arr_set_length
  arr_set_length_lem n =
      let a' : ArrayHead = record a { length = n } in
      rw (
        read_arr_lem h p o a hd.head,
        write_arr_lem h p o a a' hd.head,
        read_objs_lem (set_cell h p (with_arr o a')) a.elems e oe b hd.link (elems-set_cell a'),
        write_objs_lem (set_cell h p (with_arr o a')) a.elems e oe b (record b { length = n })
            hd.link (elems-set_cell a'),
      )

  pub arr_set_alloc_size_lem :
      (n : ℕ)
      → arr_set_alloc_size p n h
        ≡ ok (tt, set_pair h p o (record a { alloc_size = n }) e oe (record b { alloc_size = n }))
  unfolding arr_set_alloc_size
  arr_set_alloc_size_lem n =
      let a' : ArrayHead = record a { alloc_size = n } in
      rw (
        read_arr_lem h p o a hd.head,
        write_arr_lem h p o a a' hd.head,
        read_objs_lem (set_cell h p (with_arr o a')) a.elems e oe b hd.link (elems-set_cell a'),
        write_objs_lem (set_cell h p (with_arr o a')) a.elems e oe b (record b { alloc_size = n })
            hd.link (elems-set_cell a'),
      )

  pub store_elem_lem :
      (i : ℕ) (v : Value)
      → i < length b.elems
      → store_elem p i v h
        ≡ ok (tt, set_cell h e (with_objs oe (record b { elems = set b.elems i v })))
  unfolding store_elem
  store_elem_lem i v lt = rw (
    read_arr_lem h p o a hd.head,
    read_objs_lem h a.elems e oe b hd.link hd.elems,
    lt→ltb i (length b.elems) lt,
    write_objs_lem h a.elems e oe b (record b { elems = set b.elems i v }) hd.link hd.elems,
  )
