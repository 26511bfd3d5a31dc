-- ===== src/Cheney/Whole.antt =====
-- The heaps that the collector of vm/memory.c can start from when gc_type_g is GC_NEW: what a
-- reference, a slot and an object may hold.
use kek_on_rails.Base.{
  ℕ, zero, suc, ◌+◌, ◌*◌, ◌≤◌, ◌<◌, ◌≡◌, refl, ◌≢◌, ◌⊎◌, inl, inr, Bool, true, false, Option, none,
  some, List, ◌∷◌, arith, lt→leb,
}
use kek_on_rails.Heap.{aligned}
use kek_on_rails.Int.{ℤ}
use kek_on_rails.Objects.{
  Value, ArrayHead, ArrayObjs, Body, Obj, null, imm, chr, dptr, ptr, int, str, symbol, arr,
  arr_objs, expt, file, term, udo, first_gen_young,
}
use kek_on_rails.OldSpace.{outside_generations, forwarded}
use kek_on_rails.Outcome.{ok}
use kek_on_rails.Space.{
  new_segment_size, Space, sizeof_header, is_const, ptr_in_to_space, body_size,
}

-- An address that is not in the half into which objects are copied.
abbrev pub Outside : Space → ℕ → Type 0
Outside s p = (p < s.to_space) ⊎ (s.to_space + new_segment_size ≤ p)

-- An object that the collector may be led to: a constant, or an object outside the to-space.
pub record IsObject (s : Space) (p : ℕ) : Type 0 where
  pub held : Obj
  pub found : s.cell p ≡ some held
  pub place : Outside s p
  pub mortal : is_const s p ≡ false → outside_generations held.body ≡ false

-- A reference that is a pointer leads to an object.
pub data IsGood (s : Space) : Value → Type 0 where
  good_null : IsGood s null
  good_imm : (n : ℕ) → IsGood s (imm n)
  good_chr : (n : ℕ) → IsGood s (chr n)
  good_dptr : (n : ℕ) → IsGood s (dptr n)
  good_ptr : {p : ℕ} → IsObject s p → IsGood s (ptr p)

-- The first `n` slots are there and are good, and not NULL where `nonnull` says so.
pub data AreGood (s : Space) (nonnull : Bool) : ℕ → List Value → Type 0 where
  no_slots : {vs : List Value} → AreGood s nonnull zero vs
  one_slot :
      {n : ℕ} {v : Value} {vs : List Value}
      → IsGood s v
      → (nonnull ≡ true → v ≢ null)
      → AreGood s nonnull n vs
      → AreGood s nonnull (suc n) (v ∷ vs)

-- An object of the new space, by its class and its body.
pub data IsSound (s : Space) (c : Option ℕ) : Body → Type 0 where
  sound_int : (n : ℤ) → IsSound s c (int n)
  sound_str : (n : ℕ) (bytes : List ℕ) → IsSound s c (str n bytes)
  sound_symbol : (n : ℕ) (bytes : List ℕ) → IsSound s c (symbol n bytes)
  sound_file : IsSound s c file
  sound_term : IsSound s c term
  sound_empty : (a : ArrayHead) → a.elems ≡ none → IsSound s c (arr a)
  sound_arr : (a : ArrayHead) {p : ℕ} → a.elems ≡ some p → IsObject s p → IsSound s c (arr a)
  sound_objs : (a : ArrayObjs) → AreGood s true a.length a.elems → IsSound s c (arr_objs a)
  sound_expt : {v : Value} → IsGood s v → IsSound s c (expt v)
  sound_udo :
      (offset : ℕ) {k : ℕ} {vs : List Value}
      → c ≡ some k
      → AreGood s false (s.var_count k) vs
      → IsSound s c (udo offset vs)

-- An object that the collector may move: outside the to-space, no constant, no class and not the
-- stack.
pub record IsMortal (s : Space) (p : ℕ) (o : Obj) : Type 0 where
  pub found : s.cell p ≡ some o
  pub place : Outside s p
  pub variable : is_const s p ≡ false
  pub mortal : outside_generations o.body ≡ false

-- There is one generation, and every object that the collector may move is young and sound. That is
-- asked of each cell outside the to-space, also of one in memory that was given back.
pub record IsWhole (s : Space) : Type 0 where
  pub one_generation : s.generational ≡ false
  pub young : (p : ℕ) (o : Obj) → IsMortal s p o → o.state ≡ first_gen_young
  pub sound : (p : ℕ) (o : Obj) → IsMortal s p o → IsSound s o.cls o.body

-- A sound object has a size, and it is not empty.
pub obj_size-IsSound :
    (s : Space) {c : Option ℕ} {b : Body}
    → IsSound s c b
    → (n : ℕ) × (body_size s.var_count c b ≡ ok n) × (32 ≤ n)
obj_size-IsSound s (sound_int n) = (48, refl, omega arith)
obj_size-IsSound s (sound_str n bytes) = (32 + n, refl, omega arith)
obj_size-IsSound s (sound_symbol n bytes) = (32 + n, refl, omega arith)
obj_size-IsSound s sound_file = (48, refl, omega arith)
obj_size-IsSound s sound_term = (48, refl, omega arith)
obj_size-IsSound s (sound_empty a e) = (48, refl, omega arith)
obj_size-IsSound s (sound_arr a e h) = (48, refl, omega arith)
obj_size-IsSound s (sound_objs a h) = (32 + a.alloc_size * 8, refl, omega arith)
obj_size-IsSound s (sound_expt h) = (48, refl, omega arith)
obj_size-IsSound s (sound_udo offset {k} e h) = (32 + s.var_count k * 8, rw e refl, omega arith)

pub forwarded-IsSound : (s : Space) {c : Option ℕ} {b : Body} → IsSound s c b → forwarded b ≡ none
forwarded-IsSound s (sound_int n) = refl
forwarded-IsSound s (sound_str n bytes) = refl
forwarded-IsSound s (sound_symbol n bytes) = refl
forwarded-IsSound s sound_file = refl
forwarded-IsSound s sound_term = refl
forwarded-IsSound s (sound_empty a e) = refl
forwarded-IsSound s (sound_arr a e h) = refl
forwarded-IsSound s (sound_objs a h) = refl
forwarded-IsSound s (sound_expt h) = refl
forwarded-IsSound s (sound_udo offset e h) = refl

pub outside_generations-IsSound :
    (s : Space) {c : Option ℕ} {b : Body} → IsSound s c b → outside_generations b ≡ false
outside_generations-IsSound s (sound_int n) = refl
outside_generations-IsSound s (sound_str n bytes) = refl
outside_generations-IsSound s (sound_symbol n bytes) = refl
outside_generations-IsSound s sound_file = refl
outside_generations-IsSound s sound_term = refl
outside_generations-IsSound s (sound_empty a e) = refl
outside_generations-IsSound s (sound_arr a e h) = refl
outside_generations-IsSound s (sound_objs a h) = refl
outside_generations-IsSound s (sound_expt h) = refl
outside_generations-IsSound s (sound_udo offset e h) = refl

pub aligned-le : (n : ℕ) → n ≤ aligned n
aligned-le n = omega arith

pub in_to_space-Outside :
    (s : Space) (p : ℕ) → Outside s p → ptr_in_to_space s p sizeof_header ≡ false
in_to_space-Outside s p (inl low) = rw (lt→leb s.to_space p low) refl
in_to_space-Outside s p (inr high) = grind arith
