-- ===== src/Machine/Numbers.antt =====
-- Numbers in the heap of the machine, and the allocation of others.
use kek_on_rails.Base.{ℕ, ◌+◌, ◌≤◌, ◌≡◌, refl, ◌≢◌, Option, none, some, arith, ne→==, some-ne-none}
use kek_on_rails.Heap.{Heap, read_obj, IsHeap}
use kek_on_rails.Int.{ℤ, pos, negsuc}
use kek_on_rails.Machine.{sizeof_integer, body_int, int_val}
use kek_on_rails.Machine.Frames.{int_heap, HasRoom}
use kek_on_rails.Objects.{Value, Obj, null, imm, chr, dptr, ptr}
use kek_on_rails.Outcome.{Outcome, bad_access, ok, stop}
use kek_on_rails.State.{and_then, lift}

-- Every number that `h` gives for a reference, `g` gives too.
abbrev pub KeepsInts : Heap → Heap → Type 0
KeepsInts h g = (v : Value) (n : ℤ) → int_val v h ≡ ok (n, h) → int_val v g ≡ ok (n, g)

int_val-cell :
    (h : Heap) (p : ℕ) (o : Obj) (n : ℤ)
    → h.cell p ≡ some o
    → body_int o.body ≡ ok n
    → int_val (ptr p) h ≡ ok (n, h)
unfolding int_val read_obj
int_val-cell h p o n e b = rw (read_obj, e, b)

lift-eq-ok : (m : Outcome ℤ) (h : Heap) (n : ℤ) → lift m h ≡ ok (n, h) → m ≡ ok n
lift-eq-ok (ok a) h n e = cc
lift-eq-ok (stop x) h n e = cc

number_in :
    (c : Option Obj) (h : Heap) (n : ℤ)
    → and_then
        (elim c [ none ↦ stop bad_access | some o ↦ ok (o, h) ])
        (λ o. lift {S = Heap} (body_int o.body))
      ≡ ok (n, h)
    → (o : Obj) × (c ≡ some o) × (body_int o.body ≡ ok n)
number_in none h n e = cc
number_in (some o) h n e = (o, refl, lift-eq-ok (body_int o.body) h n e)

pub cell-int_val :
    (h : Heap) (p : ℕ) (n : ℤ)
    → int_val (ptr p) h ≡ ok (n, h)
    → (o : Obj) × (h.cell p ≡ some o) × (body_int o.body ≡ ok n)
unfolding int_val read_obj
cell-int_val h p n e = number_in (h.cell p) h n e

pub int_heap-KeepsInts : (m : ℤ) (h : Heap) → IsHeap h → KeepsInts h (int_heap m h)
unfolding int_val read_obj
int_heap-KeepsInts (pos m) h is v n e = e
int_heap-KeepsInts (negsuc m) h is (imm k) n e = cc
int_heap-KeepsInts (negsuc m) h is (dptr d) n e = cc
int_heap-KeepsInts (negsuc m) h is null n e = cc
int_heap-KeepsInts (negsuc m) h is (chr c) n e = cc
int_heap-KeepsInts (negsuc m) h is (ptr p) n e =
    let (o, c, b) = cell-int_val h p n e in
    let apart : h.beginning + h.used ≢ p = λ x. some-ne-none c (is.unused p (omega (arith, x))) in
    int_val-cell (int_heap (negsuc m) h) p o n (rw (ne→== (h.beginning + h.used) p apart) c) b

pub HasRoom-of : (n : ℤ) (h : Heap) → h.used + sizeof_integer ≤ h.size → HasRoom n h
HasRoom-of (pos n) h room = tt
HasRoom-of (negsuc n) h room = room
