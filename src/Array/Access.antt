-- ===== src/Array/Access.antt =====
-- Setting and reading elements: the functions of vm/k_array.c against a plain list.
-- What an assignment to an index means: the list is padded with NIL up to the index.
use mathlib.Core.List.{append-nil, append_assoc}
use kek_on_rails.Array.{arr_set_length, store_elem}
use kek_on_rails.Array.Cells.{
  set_pair, Holds-set_pair, arr_set_length_lem, store_elem_lem, with_objs, set_cell, Holds-ne,
}
use kek_on_rails.Array.Growth.{replicate-add, set-append}
use kek_on_rails.Array.Items.{IsArray, Keeps, head_at, objs_at}
use kek_on_rails.Base.{
  ℕ, zero, suc, ◌+◌, ◌<◌, ◌≡◌, refl, sym, List, [], ◌∷◌, ◌++◌, arith, ne→==, some-ne-none, length,
  set, replicate, length-append, length-replicate, eq→==, ==_comm, length-set,
}
use kek_on_rails.Heap.{Heap, IsHeap, nil_value}
use kek_on_rails.Objects.{Value, ArrayHead, ArrayObjs}
use kek_on_rails.State.{Returns, returns}

abbrev pub put_elem : List Value → ℕ → Value → Value → List Value
put_elem [] zero v n = v ∷ []
put_elem [] (suc i) v n = n ∷ put_elem [] i v n
put_elem (x ∷ xs) zero v n = v ∷ xs
put_elem (x ∷ xs) (suc i) v n = x ∷ put_elem xs i v n

-- The same in two steps, as the code has it: padding, then a write.
pub put_elem_lem :
    (xs : List Value) (d i : ℕ) (v n : Value)
    → suc i ≡ length xs + d
    → set (xs ++ replicate d n) i v ≡ put_elem xs i v n
put_elem_lem [] zero i v n h = absurd (omega arith)
put_elem_lem [] (suc zero) zero v n h = refl
put_elem_lem [] (suc (suc d)) zero v n h = absurd (omega arith)
put_elem_lem [] (suc d) (suc i) v n h = rw (put_elem_lem [] d i v n (omega arith))
put_elem_lem (x ∷ xs) zero zero v n h = rw append-nil
put_elem_lem (x ∷ xs) (suc d) zero v n h = absurd (omega arith)
put_elem_lem (x ∷ xs) d (suc i) v n h = rw (put_elem_lem xs d i v n (omega arith))

pub set-put_elem :
    (xs : List Value) (i : ℕ) (v n : Value) → i < length xs → set xs i v ≡ put_elem xs i v n
set-put_elem [] i v n h = elim h [ ]
set-put_elem (x ∷ xs) zero v n h = refl
set-put_elem (x ∷ xs) (suc i) v n h = rw (set-put_elem xs i v n (omega arith))

-- A change to the two objects of an array, both in use already.
module _ {h : Heap} {p e : ℕ} {xs : List Value} {spare : ℕ} (is : IsArray h p e xs spare)
    (a : ArrayHead) (b : ArrayObjs) where
  open is use {o, oe, holds}

  pub set_pair-Keeps : Keeps h (set_pair h p o a e oe b) p e
  set_pair-Keeps = record {
    const_table = refl;
    beginning = refl;
    size = refl;
    grows = omega arith;
    others = λ q np ne u. rw (ne→== e q (λ x. ne (sym x)), ne→== p q (λ x. np (sym x)));
  }

  pub set_pair-IsHeap : IsHeap h → IsHeap (set_pair h p o a e oe b)
  set_pair-IsHeap heap = record {
    fits = heap.fits;
    consts_below = heap.consts_below;
    unused = λ q high.
        rw
          (
            ne→== e q (λ x. some-ne-none holds.elems (rw x (heap.unused q high))),
            ne→== p q (λ x. some-ne-none holds.head (rw x (heap.unused q high))),
          )
          (heap.unused q high);
  }

module _ (xs : List Value) (d s : ℕ) (n : Value) where
  padded-length : length (xs ++ replicate d n) ≡ length xs + d
  padded-length = omega (arith, length-append xs (replicate d n), length-replicate d n)

  padded-size : length (xs ++ replicate d n) + s ≡ length xs + (d + s)
  padded-size = omega (arith, padded-length)

  padded-elems : (xs ++ replicate d n) ++ replicate s n ≡ xs ++ replicate (d + s) n
  padded-elems = rw (append_assoc, replicate-add d s n)

-- `arr_set_length` inside the allocated size: the items are padded with the NIL that stands there.
pub arr_set_length-IsArray :
    {h : Heap} {p e : ℕ} {xs : List Value} {t : ℕ} (d s : ℕ)
    → IsArray h p e xs t
    → t ≡ d + s
    → IsHeap h
    → Returns
        (λ _ g. IsArray g p e (xs ++ replicate d (nil_value h)) s × IsHeap g × Keeps h g p e)
        (arr_set_length p (length xs + d) h)
arr_set_length-IsArray {h} {p} {e} {xs} {t} d s is split heap =
    let n : Value = nil_value h in
    let a : ArrayHead = head_at (length xs + d) (length xs + t) e in
    let b : ArrayObjs = objs_at (length xs + d) (length xs + t) (xs ++ replicate t n) in
    rw (arr_set_length_lem is.holds (length xs + d)) (
      returns (
        record {
          o = is.o;
          oe = is.oe;
          holds =
              rw (padded-size xs d s n, padded-length xs d s n, padded-elems xs d s n, ← split)
                (Holds-set_pair is.holds a b refl);
        },
        set_pair-IsHeap is a b heap,
        set_pair-Keeps is a b,
      ))

-- A write inside the length.
module _ {h : Heap} {p e : ℕ} {xs : List Value} {s : ℕ} (i : ℕ) (v : Value)
    (is : IsArray h p e xs s) (lt : i < length xs) where
  open is use {o, oe, holds}

  abbrev n : Value
  n = nil_value h

  abbrev after_store : Heap
  after_store =
      set_cell h e
        (with_objs oe (objs_at (length xs) (length xs + s) (set (xs ++ replicate s n) i v)))

  after_store-IsArray : IsArray after_store p e (set xs i v) s
  after_store-IsArray = record {
    o = o;
    oe = oe;
    holds = record {
      head = rw (==_comm e p, Holds-ne holds, length-set xs i v) holds.head;
      elems = rw (eq→== e e refl, length-set xs i v, set-append xs (replicate s n) i v lt);
      link = refl;
    };
  }

  after_store-Keeps : Keeps h after_store p e
  after_store-Keeps = record {
    const_table = refl;
    beginning = refl;
    size = refl;
    grows = omega arith;
    others = λ q np ne u. rw (ne→== e q (λ x. ne (sym x)));
  }

  after_store-IsHeap : IsHeap h → IsHeap after_store
  after_store-IsHeap heap = record {
    fits = heap.fits;
    consts_below = heap.consts_below;
    unused = λ q high.
        rw (ne→== e q (λ x. some-ne-none holds.elems (rw x (heap.unused q high))))
          (heap.unused q high);
  }

  pub store_elem-IsArray :
      IsHeap h
      → Returns
          (λ _ g. IsArray g p e (set xs i v) s × IsHeap g × Keeps h g p e)
          (store_elem p i v h)
  store_elem-IsArray heap =
      rw (store_elem_lem holds i v (omega (arith, length-append xs (replicate s n), lt)))
        (returns (after_store-IsArray, after_store-IsHeap heap, after_store-Keeps))
