-- ===== src/Array/Realloc.antt =====
-- `arr_realloc_elems`: a new object of elements with the old ones in front and NIL behind.
use kek_on_rails.Array.{
  array_objs_size, alloc_array_objs, alloc_arr_elems, grow_size, copy_elems, arr_realloc_elems,
}
use kek_on_rails.Array.Cells.{with_arr, with_objs, Holds, read_arr_lem, read_objs_lem}
use kek_on_rails.Array.Growth.{grow_size_total, copy_elems_lem}
use kek_on_rails.Array.Items.{
  head_at, objs_at, head_of, objs_of, IsArray, CanGrow, last_is_set_lem, Keeps, relinked,
  relink_lem, Grown,
}
use kek_on_rails.Base.{
  ℕ, suc, ◌+◌, ◌-◌, ◌*◌, ◌≤◌, ◌<◌, ◌≡◌, refl, sym, ap, ◌∙◌, ◌≢◌, inl, inr, false, none, some, List,
  ◌++◌, arith, ltb, ◌==◌, ltb→lt, eq→==, ne→==, Bool-cases, ==_comm, some-ne-none, length,
  replicate,
}
use kek_on_rails.Heap.{aligned, Heap, nil_value, update, fresh_obj, IsHeap, gc_obj_malloc_lem}
use kek_on_rails.Objects.{Value, ArrayObjs, Obj, nil, arr_objs}
use kek_on_rails.Outcome.{ok}
use kek_on_rails.State.{Returns, returns}

module _ {h : Heap} {p e : ℕ} {xs : List Value} {spare : ℕ} (is : IsArray h p e xs spare) (len : ℕ)
    (can : CanGrow h xs spare len) where
  open is use {o, oe, holds}

  abbrev fresh_address : ℕ
  fresh_address = h.beginning + h.used

  pub is_below : (q : ℕ) → h.cell q ≢ none → q < h.beginning + h.used
  is_below q used = elim (Bool-cases (ltb q (h.beginning + h.used))) [
    | inl lt ↦ ltb→lt _ _ lt
    | inr not_lt ↦ absurd (used (can.heap.unused q (ground arith)))
  ]

  -- The new object of elements as it is allocated, and the heap with it.
  abbrev new_objs : ℕ → ArrayObjs
  new_objs n = record { length = length xs; alloc_size = 0; elems = replicate n (nil_value h) }

  abbrev with_new : ℕ → Heap
  with_new n = record h {
    used = h.used + aligned (aligned (array_objs_size n));
    cell = update h.cell fresh_address (fresh_obj none (arr_objs (new_objs n)));
  }

  alloc_arr_elems_lem :
      (n : ℕ) → n * 8 ≤ len * 12 → alloc_arr_elems n (length xs) h ≡ ok (fresh_address, with_new n)
  unfolding alloc_arr_elems alloc_array_objs
  alloc_arr_elems_lem n bound =
      gc_obj_malloc_lem (array_objs_size n) (fresh_obj none (arr_objs (new_objs n))) h
        (omega (arith, can.room))

  abbrev new_obj : Obj
  new_obj = fresh_obj none nil

  p-ne-fresh : (p == fresh_address) ≡ false
  p-ne-fresh = ground (arith, is_below p (λ u. some-ne-none holds.head u))

  e-ne-fresh : (e == fresh_address) ≡ false
  e-ne-fresh = ground (arith, is_below e (λ u. some-ne-none holds.elems u))

  Holds-new :
      (n : ℕ) → Holds (with_new n) p o (head_of xs spare e) e oe (objs_of xs spare (nil_value h))
  Holds-new n = record {
    head = rw (==_comm fresh_address p, p-ne-fresh) holds.head;
    elems = rw (==_comm fresh_address e, e-ne-fresh) holds.elems;
    link = refl;
  }

  new_there : (n : ℕ) → (with_new n).cell fresh_address ≡ some (with_objs new_obj (new_objs n))
  new_there n = rw (eq→== fresh_address fresh_address refl)

  -- The heap in which the growth ends.
  grown_heap : ℕ → Heap
  grown_heap n =
      relinked (with_new n) p n o (head_of xs spare e) e oe (objs_of xs spare (nil_value h))
        fresh_address new_obj (new_objs n)

  arr_realloc_elems-eq :
      (n : ℕ)
      → grow_size (suc len) (length xs + spare) len ≡ ok n
      → n * 8 ≤ len * 12
      → arr_realloc_elems p len h ≡ ok (tt, grown_heap n)
  unfolding arr_realloc_elems grown_heap
  arr_realloc_elems-eq n grown bound = rw (
    read_arr_lem h p o (head_of xs spare e) holds.head,
    read_objs_lem h (some e) e oe (objs_of xs spare (nil_value h)) refl holds.elems,
    last_is_set_lem xs spare e (nil_value h) can.no_null can.slots,
    grown,
    alloc_arr_elems_lem n bound,
    relink_lem (Holds-new n) fresh_address new_obj (new_objs n) (new_there n)
        (λ q. cc (e-ne-fresh, eq→== e fresh_address q)) n,
  )

  grown_heap-IsArray : (n k : ℕ) → n ≡ length xs + k → IsArray (grown_heap n) p fresh_address xs k
  unfolding grown_heap relinked
  grown_heap-IsArray n k split = record {
    o = o;
    oe = new_obj;
    holds = record {
      head =
          rw (==_comm fresh_address p, p-ne-fresh, eq→== p p refl)
            (ap (λ m. some (with_arr o (head_at (length xs) m fresh_address))) split);
      elems = rw (eq→== fresh_address fresh_address refl) (
          ap
            (λ m. some (
              with_objs new_obj (
                objs_at (length xs) m (
                  copy_elems (length xs) (xs ++ replicate spare (nil_value h))
                    (replicate m (nil_value h))))))
            split
          ∙ ap (λ l. some (with_objs new_obj (objs_at (length xs) (length xs + k) l)))
              (copy_elems_lem xs (replicate spare (nil_value h)) k (nil_value h)));
      link = refl;
    };
  }

  -- An address that was in use, other than the array's own, is untouched.
  grown_heap-others :
      (n q : ℕ) → q ≢ p → q ≢ e → q ≢ fresh_address → (grown_heap n).cell q ≡ h.cell q
  unfolding grown_heap relinked
  grown_heap-others n q np ne nf = rw (
    ne→== p q (λ x. np (sym x)),
    ne→== e q (λ x. ne (sym x)),
    ne→== fresh_address q (λ x. nf (sym x)),
  )

  grown_heap-used : (n : ℕ) → (grown_heap n).used ≡ h.used + aligned (aligned (array_objs_size n))
  unfolding grown_heap relinked
  grown_heap-used n = refl

  grown_heap-Keeps : (n : ℕ) → Keeps h (grown_heap n) p e
  unfolding grown_heap relinked
  grown_heap-Keeps n = record {
    const_table = refl;
    beginning = refl;
    size = refl;
    grows = omega arith;
    others = λ q np ne u. grown_heap-others n q np ne (λ x. not-fresh q u x);
  }
    where
      not-fresh : (q : ℕ) → h.cell q ≢ none → q ≢ fresh_address
      not-fresh q u x = absurd (omega (arith, is_below q u))

  grown_heap-IsHeap : (n : ℕ) → n * 8 ≤ len * 12 → IsHeap (grown_heap n)
  unfolding grown_heap relinked
  grown_heap-IsHeap n bound = record {
    fits = omega (arith, can.room);
    consts_below = can.heap.consts_below;
    unused = λ q high. unused q (omega arith);
  }
    where
      unused :
          (q : ℕ)
          → h.beginning + (h.used + aligned (aligned (array_objs_size n))) ≤ q
          → (grown_heap n).cell q ≡ none
      unused q high =
          grown_heap-others n q (λ x. absurd (omega (arith, is_below p (some-ne-none holds.head))))
            (λ x. absurd (omega (arith, is_below e (some-ne-none holds.elems))))
            (λ x. absurd (omega arith))
          ∙ can.heap.unused q (omega arith)

  Grown-of :
      (n : ℕ)
      → grow_size (suc len) (length xs + spare) len ≡ ok n
      → len ≤ n
      → length xs + spare ≤ n
      → n * 8 ≤ len * 12
      → Returns (λ _ g. Grown h g p e xs len) (arr_realloc_elems p len h)
  Grown-of n grown enough larger short = rw (arr_realloc_elems-eq n grown short) (
      returns (record {
        spare = n - length xs;
        new_e = fresh_address;
        array = grown_heap-IsArray n (n - length xs) (omega arith);
        enough = omega arith;
        heap = grown_heap-IsHeap n short;
        keeps = grown_heap-Keeps n;
        apart = λ q u x. absurd (omega (arith, is_below q u));
      }))

  -- Growing keeps the items, in order, with at least as many slots as were asked for and NIL in
  -- those that are free.
  pub arr_realloc_elems-Grown : Returns (λ _ g. Grown h g p e xs len) (arr_realloc_elems p len h)
  arr_realloc_elems-Grown =
      let (n, grown, enough, larger, bound) =
        grow_size_total (suc len) (length xs + spare) len can.slots (omega arith) (omega arith)
          can.small in
      Grown-of n grown enough larger (omega (arith, can.more, bound))
