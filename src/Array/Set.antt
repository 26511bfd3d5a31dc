-- ===== src/Array/Set.antt =====
-- `native_grow_array` and `native_arr_elem_set`.
use mathlib.Core.Path.{subst}
use kek_on_rails.Array.{native_grow_array, arr_set_length, store_elem, native_arr_elem_set}
use kek_on_rails.Array.Access.{
  arr_set_length-IsArray, put_elem, put_elem_lem, set-put_elem, store_elem-IsArray,
}
use kek_on_rails.Array.Cells.{read_arr_lem, read_objs_lem}
use kek_on_rails.Array.Items.{IsArray, CanGrow, Keeps}
use kek_on_rails.Array.Realloc.{arr_realloc_elems-Grown}
use kek_on_rails.Base.{
  ℕ, ◌+◌, ◌-◌, refl, ap, ◌∙◌, ◌≢◌, none, List, ◌++◌, arith, length, replicate, suc, ◌≤◌, ◌<◌, ◌≡◌,
  inl, inr, leb, Bool-cases, length-append, length-replicate,
}
use kek_on_rails.Heap.{Heap, nil_value, IsHeap}
use kek_on_rails.Objects.{Value, ptr}
use kek_on_rails.State.{Returns, Returns-bind, Returns-mono, ◌>>◌}

Keeps-trans :
    {h g k : Heap} {p e e' : ℕ}
    → Keeps h g p e
    → Keeps g k p e'
    → ((q : ℕ) → h.cell q ≢ none → q ≢ e → q ≢ e')
    → Keeps h k p e
Keeps-trans a b apart = record {
  const_table = b.const_table ∙ a.const_table;
  beginning = b.beginning ∙ a.beginning;
  size = b.size ∙ a.size;
  grows = omega (arith, a.grows, b.grows);
  others =
      λ q np ne u. let same = a.others q np ne u in b.others q np (apart q u ne) (rw same u) ∙ same;
}

pub native_grow_array-IsArray :
    {h : Heap} {p e : ℕ} {xs : List Value} {spare : ℕ} (d : ℕ)
    → IsArray h p e xs spare
    → CanGrow h xs spare (length xs + d)
    → Returns
        (λ _ g.
          (k e' : ℕ) × IsArray g p e' (xs ++ replicate d (nil_value h)) k
          × IsHeap g
          × Keeps h g p e
          × ((q : ℕ) → h.cell q ≢ none → q ≢ e → q ≢ e'))
        (native_grow_array p (length xs + d) h)
unfolding native_grow_array
native_grow_array-IsArray {h} {p} {e} {xs} {spare} d is can =
    Returns-bind (arr_realloc_elems-Grown is (length xs + d) can) λ _ g gr.
      let hd = gr.array.holds in
      let s : ℕ = gr.spare - d in
      rw
        (
          read_arr_lem g p gr.array.o _ hd.head,
          read_objs_lem g _ gr.new_e gr.array.oe _ refl hd.elems,
        )
        (Returns-mono (arr_set_length-IsArray d s gr.array (omega (arith, gr.enough)) gr.heap)
          λ _ k (made, heap, keeps). (
            s,
            gr.new_e,
            subst (λ n. IsArray k p gr.new_e (xs ++ replicate d n) s) (ap ptr gr.keeps.const_table)
                made,
            heap,
            Keeps-trans gr.keeps keeps (λ q u _. gr.apart q u),
            λ q u _. gr.apart q u,
          ))

-- The heap after an assignment: the array holds the new list, whatever room it has now, and every
-- object that was in use, the array's two apart, is what it was.
pub record Assigned (h g : Heap) (p e : ℕ) (ys : List Value) : Type 0 where
  pub spare : ℕ
  pub elems_at : ℕ
  pub array : IsArray g p elems_at ys spare
  pub heap : IsHeap g
  pub keeps : Keeps h g p e

module _ {h : Heap} {p e : ℕ} {xs : List Value} {spare : ℕ} (i : ℕ) (v : Value)
    (is : IsArray h p e xs spare) (heap : IsHeap h) where
  abbrev n : Value
  n = nil_value h

  abbrev result : List Value
  result = put_elem xs i v n

  -- The write that follows, once the list is long enough.
  store_last :
      {g : Heap} {e' k : ℕ} (d : ℕ)
      → suc i ≡ length xs + d
      → IsArray g p e' (xs ++ replicate d n) k
      → IsHeap g
      → Keeps h g p e
      → ((q : ℕ) → h.cell q ≢ none → q ≢ e → q ≢ e')
      → Returns (λ _ t. Assigned h t p e result) (store_elem p i v g)
  store_last {g} {e'} {k} d len made heap' keeps apart =
      Returns-mono
        (store_elem-IsArray i v made
          (omega (arith, length-append xs (replicate d n), length-replicate d n)) heap')
        λ _ t (array, heap'', keeps'). record {
          spare = k;
          elems_at = e';
          array = subst (λ l. IsArray t p e' l k) (put_elem_lem xs d i v n len) array;
          heap = heap'';
          keeps = Keeps-trans keeps keeps' apart;
        }

  Assigned-grow :
      length xs + spare ≤ i
      → CanGrow h xs spare (suc i)
      → Returns
          (λ _ t. Assigned h t p e result)
          ((native_grow_array p (i + 1) >> store_elem p i v) h)
  Assigned-grow past can =
      let d : ℕ = suc i - length xs in
      let len : suc i ≡ length xs + d = omega arith in
      let len' : i + 1 ≡ length xs + d = omega arith in
      rw len' (
        Returns-bind (native_grow_array-IsArray d is (rw (← len) can))
          λ _ g (k, e', made, heap', keeps, apart). store_last d len made heap' keeps apart)

  Assigned-extend :
      length xs ≤ i
      → i < length xs + spare
      → Returns (λ _ t. Assigned h t p e result) ((arr_set_length p (i + 1) >> store_elem p i v) h)
  Assigned-extend past inside =
      let d : ℕ = suc i - length xs in
      let len : suc i ≡ length xs + d = omega arith in
      let len' : i + 1 ≡ length xs + d = omega arith in
      rw len' (
        Returns-bind (arr_set_length-IsArray d (spare - d) is (omega arith) heap)
          λ _ g (made, heap', keeps). store_last d len made heap' keeps (λ q _ ne. ne))

  Assigned-inside : i < length xs → Returns (λ _ t. Assigned h t p e result) (store_elem p i v h)
  Assigned-inside inside =
      Returns-mono (store_elem-IsArray i v is inside heap) λ _ t (array, heap', keeps). record {
        spare = spare;
        elems_at = e;
        array = subst (λ l. IsArray t p e l spare) (set-put_elem xs i v n inside) array;
        heap = heap';
        keeps = keeps;
      }

  -- Setting an element of an array gives the list padded with NIL up to the index and holding the
  -- value there, whether the index is inside the length, inside the allocated size or beyond it;
  -- the last needs what growing takes. No other object in use changes.
  pub native_arr_elem_set-Assigned :
      (length xs + spare ≤ i → CanGrow h xs spare (suc i))
      → Returns
          (λ _ t. Assigned h t p e (put_elem xs i v (nil_value h)))
          (native_arr_elem_set p i v h)
  unfolding native_arr_elem_set
  native_arr_elem_set-Assigned can =
      rw (read_arr_lem h p is.o _ is.holds.head) (elim (Bool-cases (leb (length xs + spare) i)) [
        | inl past ↦ rw past (Assigned-grow (ground arith) (can (ground arith)))
        | inr before ↦ rw before (elim (Bool-cases (leb (length xs) i)) [
          | inl over ↦ rw over (Assigned-extend (ground arith) (ground arith))
          | inr inside ↦ rw inside (Assigned-inside (ground arith))
        ])
      ])
