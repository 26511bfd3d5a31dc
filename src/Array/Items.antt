-- ===== src/Array/Items.antt =====
-- Arrays in the heap by their items, and what a growth of an array is to leave.
use kek_on_rails.Array.{copy_elems, is_set, last_is_set, relink}
use kek_on_rails.Array.Cells.{
  with_arr, with_objs, set_cell, Holds, Holds-ne, write_arr_lem, read_objs_lem, write_objs_lem,
  set_pair, arr_set_alloc_size_lem,
}
use kek_on_rails.Array.Growth.{get_elem?-append}
use kek_on_rails.Base.{
  ℕ, ◌+◌, ◌-◌, ◌*◌, ◌^◌, ◌≤◌, ◌<◌, ◌≡◌, refl, ◌≢◌, true, false, Option, none, some, List, [], ◌∷◌,
  ◌++◌, arith, ◌==◌, lt→ltb, ne→==, length, get_elem?, replicate,
}
use kek_on_rails.Heap.{Heap, nil_value, IsHeap}
use kek_on_rails.Objects.{Value, ArrayHead, ArrayObjs, Obj, null}
use kek_on_rails.Outcome.{ok}

abbrev pub head_at : ℕ → ℕ → ℕ → ArrayHead
head_at len size e = record { length = len; alloc_size = size; elems = some e }

abbrev pub objs_at : ℕ → ℕ → List Value → ArrayObjs
objs_at len size l = record { length = len; alloc_size = size; elems = l }

abbrev pub head_of : List Value → ℕ → ℕ → ArrayHead
head_of xs spare e = head_at (length xs) (length xs + spare) e

abbrev pub objs_of : List Value → ℕ → Value → ArrayObjs
objs_of xs spare n = objs_at (length xs) (length xs + spare) (xs ++ replicate spare n)

-- The array at `p`, with its elements at `e`, has the items `xs` and `spare` more slots, which hold NIL; both of its objects
-- agree on the counts.
pub record IsArray (h : Heap) (p e : ℕ) (xs : List Value) (spare : ℕ) : Type 0 where
  pub o : Obj
  pub oe : Obj
  pub holds : Holds h p o (head_of xs spare e) e oe (objs_of xs spare (nil_value h))

-- What growing takes: no item is the null pointer, the old array has at least two slots, no
-- product overflows, and the segment has room for the new elements.
pub record CanGrow (h : Heap) (xs : List Value) (spare len : ℕ) : Type 0 where
  pub heap : IsHeap h
  pub no_null : (i : ℕ) → get_elem? xs i ≢ some null
  pub slots : 2 ≤ length xs + spare
  pub more : length xs + spare < len
  pub small : len * 3 ≤ 2 ^ 31
  pub room : h.used + (len * 12 + 64) ≤ h.size

is_set_lem : (o : Option Value) → o ≢ some null → is_set o ≡ true
is_set_lem none h = refl
is_set_lem (some null) h = absurd (h refl)
is_set_lem (some _) h = refl

pub last_is_set_lem :
    (xs : List Value) (spare e : ℕ) (n : Value)
    → ((i : ℕ) → get_elem? xs i ≢ some null)
    → 2 ≤ length xs + spare
    → last_is_set (head_of xs spare e) (objs_of xs spare n) ≡ true
unfolding last_is_set
last_is_set_lem [] spare e n h two = lt→ltb 0 _ (omega arith)
last_is_set_lem (x ∷ xs) spare e n h two =
    let i : ℕ = length (x ∷ xs) - 1 in
    rw
      (
        ne→== (length (x ∷ xs)) 0 (omega arith),
        get_elem?-append (x ∷ xs) (replicate spare n) i (omega arith),
      )
      (is_set_lem _ (h i))

-- What stays of a heap in which an array's two objects are written: its constants, its place, and
-- every other object.
pub record Keeps (h g : Heap) (p e : ℕ) : Type 0 where
  pub const_table : g.const_table ≡ h.const_table
  pub beginning : g.beginning ≡ h.beginning
  pub size : g.size ≡ h.size
  pub grows : h.used ≤ g.used
  pub others : (q : ℕ) → q ≢ p → q ≢ e → h.cell q ≢ none → g.cell q ≡ h.cell q

unfoldable pub relinked :
    Heap → ℕ → ℕ → Obj → ArrayHead → ℕ → Obj → ArrayObjs → ℕ → Obj → ArrayObjs → Heap
relinked g p size o a e oe b e' oe' c =
    let a' : ArrayHead = record a { elems = some e' } in
    let c' : ArrayObjs = record c { elems = copy_elems a.length b.elems c.elems } in
    set_pair
      (set_cell
        (set_cell (set_cell g e' (with_objs oe' c')) e
          (with_objs oe (record b { length = a.length })))
        p (with_arr o a'))
      p o (record a' { alloc_size = size }) e' oe' (record c' { alloc_size = size })

module _ {g : Heap} {p : ℕ} {o : Obj} {a : ArrayHead} {e : ℕ} {oe : Obj} {b : ArrayObjs}
    (hd : Holds g p o a e oe b) (e' : ℕ) (oe' : Obj) (c : ArrayObjs)
    (there : g.cell e' ≡ some (with_objs oe' c)) (apart : e ≢ e') where
  pub relink_lem :
      (size : ℕ) → relink p size a b e' g ≡ ok (tt, relinked g p size o a e oe b e' oe' c)
  unfolding relink relinked
  relink_lem size =
      let a' : ArrayHead = record a { elems = some e' } in
      let c' : ArrayObjs = record c { elems = copy_elems a.length b.elems c.elems } in
      let b' : ArrayObjs = record b { length = a.length } in
      let pe : (p == e) ≡ false = Holds-ne hd in
      let head : g.cell p ≡ some (with_arr o a) = hd.head in
      let elems : g.cell e ≡ some (with_objs oe b) = hd.elems in
      let g1 : Heap = set_cell g e' (with_objs oe' c') in
      let g2 : Heap = set_cell g1 e (with_objs oe b') in
      let g3 : Heap = set_cell g2 p (with_arr o a') in
      let at1 : g1.cell e ≡ some (with_objs oe b) = ground arith in
      let at2 : g2.cell p ≡ some (with_arr o a) = ground arith in
      let at3 : Holds g3 p o a' e' oe' c' = record {
        head = ground arith;
        elems = ground arith;
        link = refl;
      } in
      rw (
        read_objs_lem g (some e') e' oe' c refl there,
        write_objs_lem g (some e') e' oe' c c' refl there,
        write_objs_lem g1 a.elems e oe b b' hd.link at1,
        write_arr_lem g2 p o a a' at2,
        arr_set_alloc_size_lem at3 size,
      )

-- What the growth leaves: the same items with more room behind them.
pub record Grown (h g : Heap) (p e : ℕ) (xs : List Value) (len : ℕ) : Type 0 where
  pub spare : ℕ
  pub new_e : ℕ
  pub array : IsArray g p new_e xs spare
  pub enough : len ≤ length xs + spare
  pub heap : IsHeap g
  pub keeps : Keeps h g p e
  pub apart : (q : ℕ) → h.cell q ≢ none → q ≢ new_e
