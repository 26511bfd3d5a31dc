-- ===== src/Exceptions/Frames.antt =====
-- vm/vm.c: the frames that the search for a handler goes through, and one step of it.
use mathlib.Core.Path.{subst}
use kek_on_rails.Base.{
  ℕ, suc, ◌-◌, ◌≤◌, ◌<◌, ◌≡◌, refl, ap, Bool, true, false, Option, none, some, List, arith, lt→ltb,
  le→leb, ◌+◌, sym, ◌∙◌, inl, inr, ◌&&◌, [], ◌∷◌, ◌++◌, ltb, leb, if◌then◌else◌, ltb→lt, Bool-cases,
  leb→le,
}
use kek_on_rails.Classes.Names.{and-true}
use kek_on_rails.Exceptions.{Search, Handler, unwind, covering, set_thrown, find_handler_loop}
use kek_on_rails.Heap.{update, read_obj, write_obj}
use kek_on_rails.Int.{ℤ, eqb_ℤ, pos, negsuc, pos_part, neg_part}
use kek_on_rails.Machine.{stack_slots, Machine, on_heap, int_val, read_slot}
use kek_on_rails.Objects.{Value, Obj, null, ptr, exinfo}
use kek_on_rails.Outcome.{ok}
use kek_on_rails.State.{State, pure}

-- The frame of a search, with what it has saved.
pub record AtFrame (s : Machine) (u : Search) (ret : ℤ) (ap fp : ℕ) : Type 0 where
  pub high : 3 ≤ u.fp
  pub inside : u.fp < stack_slots
  pub saved_ret : int_val (s.slot (u.fp - 3)) s.heap ≡ ok (ret, s.heap)
  pub saved_ap : int_val (s.slot (u.fp - 2)) s.heap ≡ ok (pos ap, s.heap)
  pub saved_fp : int_val (s.slot (u.fp - 1)) s.heap ≡ ok (pos fp, s.heap)

abbrev pub native : ℤ
native = negsuc 0

abbrev pub caller : Search → ℤ → ℕ → ℕ → Search
caller u ret ap fp = record { ap = ap; fp = fp; sp = u.ap; ret_addr = ret }

-- The try blocks of a frame, in the constant under its frame pointer.
pub record HasBlocks (s : Machine) (u : Search) (blocks : List (ℕ × ℕ)) : Type 0 where
  pub address : ℕ
  pub obj : Obj
  pub thrown : Value
  pub slot : s.slot u.fp ≡ ptr address
  pub at : s.heap.cell address ≡ some obj
  pub body : obj.body ≡ exinfo thrown blocks

-- The byte in front of `at` lies in the block, from its start up to its handler.
pub record Covers (at : ℤ) (block : ℕ × ℕ) : Type 0 where
  pub byte : ℕ
  pub in_front : at ≡ pos (byte + 1)
  pub starts : block.0 ≤ byte
  pub stays : byte < block.1

abbrev pub NoneCovers : ℤ → List (ℕ × ℕ) → Type 0
NoneCovers at [] = Unit {0}
NoneCovers at (b ∷ blocks) = (¬ Covers at b) × NoneCovers at blocks

-- `addr` is the handler of the first block that covers.
pub record IsFirstCover (at : ℤ) (blocks : List (ℕ × ℕ)) (addr : ℕ) : Type 0 where
  pub before : List (ℕ × ℕ)
  pub try_addr : ℕ
  pub after : List (ℕ × ℕ)
  pub split : blocks ≡ before ++ (try_addr, addr) ∷ after
  pub skipped : NoneCovers at before
  pub covers : Covers at (try_addr, addr)

-- No block of the frame covers.
pub data IsQuiet (s : Machine) (u : Search) : Type 0 where
  no_exinfo : s.slot u.fp ≡ null → IsQuiet s u
  no_block :
      {blocks : List (ℕ × ℕ)} → HasBlocks s u blocks → NoneCovers u.ret_addr blocks → IsQuiet s u

pub record Catches (s : Machine) (u : Search) (addr : ℕ) : Type 0 where
  pub blocks : List (ℕ × ℕ)
  pub has : HasBlocks s u blocks
  pub first_cover : IsFirstCover u.ret_addr blocks addr

-- From one frame, `n` callers up over frames without a block that covers, is another.
pub data Passes (s : Machine) : Search → Search → ℕ → Type 0 where
  here : {u : Search} → Passes s u u 0
  past :
      {u w : Search} {ret : ℤ} {ap fp n : ℕ}
      → AtFrame s u ret ap fp
      → eqb_ℤ ret native ≡ false
      → IsQuiet s u
      → Passes s (caller u ret ap fp) w n
      → Passes s u w (suc n)

-- The test of the search for one block.
abbrev covers_test : ℤ → ℕ × ℕ → Bool
covers_test at b =
    leb (b.0 + 1 + neg_part at) (pos_part at) && ltb (pos_part at) (b.1 + 1 + neg_part at)

covers_test-true : (at : ℤ) (b : ℕ × ℕ) → Covers at b → covers_test at b ≡ true
covers_test-true at b c =
    subst (λ z. covers_test z b ≡ true) (sym c.in_front)
      (rw
        (
          le→leb (b.0 + 1 + 0) (c.byte + 1) (omega (arith, c.starts)),
          lt→ltb (c.byte + 1) (b.1 + 1 + 0) (omega (arith, c.stays)),
        )
        refl)

covers_test-Covers : (at : ℤ) (b : ℕ × ℕ) → covers_test at b ≡ true → Covers at b
covers_test-Covers (pos n) b e =
    let (low, high) = and-true (leb (b.0 + 1 + 0) n) (ltb n (b.1 + 1 + 0)) e in
    let l : b.0 + 1 + 0 ≤ n = leb→le (b.0 + 1 + 0) n low in
    let h : n < b.1 + 1 + 0 = ltb→lt n (b.1 + 1 + 0) high in
    record {
      byte = n - 1;
      in_front = ap pos (omega (arith, l));
      starts = omega (arith, l);
      stays = omega (arith, l, h);
    }
covers_test-Covers (negsuc n) b e =
    let (low, high) = and-true (leb (b.0 + 1 + suc n) 0) (ltb 0 (b.1 + 1 + suc n)) e in
    absurd (omega (arith, leb→le (b.0 + 1 + suc n) 0 low))

covers_test-false : (at : ℤ) (b : ℕ × ℕ) → ¬ Covers at b → covers_test at b ≡ false
covers_test-false at b no_cover = elim (Bool-cases (covers_test at b)) [
  | inl e ↦ absurd (no_cover (covers_test-Covers at b e))
  | inr e ↦ e
]

covering-none : (at : ℤ) (blocks : List (ℕ × ℕ)) → NoneCovers at blocks → covering at blocks ≡ none
covering-none at [] h = refl
covering-none at ((try_addr, catch_addr) ∷ blocks) (h, hs) =
    ap (λ b. if b then some catch_addr else covering at blocks)
      (covers_test-false at (try_addr, catch_addr) h)
    ∙ covering-none at blocks hs

covering-append :
    (at : ℤ) (before : List (ℕ × ℕ)) (try_addr addr : ℕ) (after : List (ℕ × ℕ))
    → NoneCovers at before
    → Covers at (try_addr, addr)
    → covering at (before ++ (try_addr, addr) ∷ after) ≡ some addr
covering-append at [] try_addr addr after h c =
    ap (λ b. if b then some addr else covering at after) (covers_test-true at (try_addr, addr) c)
covering-append at ((low, high) ∷ before) try_addr addr after (h, hs) c =
    ap (λ b. if b then some high else covering at (before ++ (try_addr, addr) ∷ after))
      (covers_test-false at (low, high) h)
    ∙ covering-append at before try_addr addr after hs c

covering-IsFirstCover :
    (at : ℤ) (blocks : List (ℕ × ℕ)) (addr : ℕ)
    → IsFirstCover at blocks addr
    → covering at blocks ≡ some addr
covering-IsFirstCover at blocks addr f =
    ap (covering at) f.split
    ∙ covering-append at f.before f.try_addr addr f.after f.skipped f.covers

minus_lt : (a k n : ℕ) → a < n → a - k < n
minus_lt a k n h = omega arith

abbrev pub unwound : Search → ℤ → ℕ → ℕ → Bool → Option Search
unwound u ret ap fp true = none
unwound u ret ap fp false = some (caller u ret ap fp)

unwind_lem :
    {s : Machine} {u : Search} {ret : ℤ} {ap fp : ℕ} (b : Bool)
    → AtFrame s u ret ap fp
    → eqb_ℤ ret native ≡ b
    → unwind u s ≡ ok (unwound u ret ap fp b, s)
unfolding unwind read_slot on_heap
unwind_lem {s} {u} {ret} {ap} {fp} true f e =
    rw
      (
        le→leb 3 u.fp f.high,
        lt→ltb (u.fp - 3) stack_slots (minus_lt u.fp 3 stack_slots f.inside),
        on_heap,
        f.saved_ret,
        lt→ltb (u.fp - 2) stack_slots (minus_lt u.fp 2 stack_slots f.inside),
        f.saved_ap,
        lt→ltb (u.fp - 1) stack_slots (minus_lt u.fp 1 stack_slots f.inside),
        f.saved_fp,
        e,
      )
      refl
unwind_lem {s} {u} {ret} {ap} {fp} false f e =
    rw
      (
        le→leb 3 u.fp f.high,
        lt→ltb (u.fp - 3) stack_slots (minus_lt u.fp 3 stack_slots f.inside),
        on_heap,
        f.saved_ret,
        lt→ltb (u.fp - 2) stack_slots (minus_lt u.fp 2 stack_slots f.inside),
        f.saved_ap,
        lt→ltb (u.fp - 1) stack_slots (minus_lt u.fp 1 stack_slots f.inside),
        f.saved_fp,
        e,
      )
      refl

abbrev pub continue : ℕ → Value → Option Search → State Machine (Option Handler)
continue fuel obj none = pure none
continue fuel obj (some w) = find_handler_loop fuel obj w

pub quiet_step :
    (fuel : ℕ) (obj : Value) {s : Machine} {u : Search} {ret : ℤ} {ap fp : ℕ} (b : Bool)
    → AtFrame s u ret ap fp
    → eqb_ℤ ret native ≡ b
    → IsQuiet s u
    → find_handler_loop (suc fuel) obj u s ≡ continue fuel obj (unwound u ret ap fp b) s
unfolding find_handler_loop read_slot on_heap read_obj
quiet_step fuel obj {s} {u} b f e (no_exinfo bare) =
    rw (find_handler_loop, lt→ltb u.fp stack_slots f.inside, bare, unwind_lem b f e) refl
quiet_step fuel obj {s} {u} b f e (no_block has none_covers) =
    rw
      (
        find_handler_loop,
        lt→ltb u.fp stack_slots f.inside,
        has.slot,
        on_heap,
        read_obj,
        has.at,
        has.body,
        covering-none u.ret_addr _ none_covers,
        unwind_lem b f e,
      )
      refl

abbrev pub thrown_in : Machine → ℕ → Obj → Value → List (ℕ × ℕ) → Machine
thrown_in s p o obj blocks = record s {
  heap = record s.heap { cell = update s.heap.cell p (record o { body = exinfo obj blocks }) };
}

set_thrown_lem :
    (s : Machine) (obj : Value) (p : ℕ) (o : Obj) (blocks : List (ℕ × ℕ))
    → s.heap.cell p ≡ some o
    → on_heap (set_thrown (ptr p) obj blocks) s ≡ ok (tt, thrown_in s p o obj blocks)
unfolding set_thrown on_heap read_obj write_obj
set_thrown_lem s obj p o blocks at = rw (on_heap, read_obj, at) refl

abbrev pub handler_at : Search → ℕ → Handler
handler_at u addr = record { unw_ap = u.ap; unw_fp = u.fp; unw_sp = u.sp; catch_addr = addr }

pub catch_step :
    (fuel : ℕ) (obj : Value) {s : Machine} {u : Search} (addr : ℕ)
    → u.fp < stack_slots
    → (c : Catches s u addr)
    → find_handler_loop (suc fuel) obj u s
      ≡ ok (some (handler_at u addr), thrown_in s c.has.address c.has.obj obj c.blocks)
unfolding find_handler_loop read_slot on_heap read_obj
catch_step fuel obj {s} {u} addr inside c =
    rw
      (
        find_handler_loop,
        lt→ltb u.fp stack_slots inside,
        c.has.slot,
        on_heap,
        read_obj,
        c.has.at,
        c.has.body,
        covering-IsFirstCover u.ret_addr c.blocks addr c.first_cover,
        set_thrown_lem s obj c.has.address c.has.obj c.blocks c.has.at,
      )
      refl
