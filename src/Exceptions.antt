-- ===== src/Exceptions.antt =====
-- vm/vm.c: how a thrown object finds its handler.
pub mod Frames
pub mod Throw
mod Tests
use kek_on_rails.Base.{
  ℕ, zero, suc, ◌+◌, ◌-◌, Bool, true, false, ◌&&◌, Option, none, some, List, [], ◌∷◌, ltb, leb,
  if◌then◌else◌,
}
use kek_on_rails.Heap.{Heap, read_obj, write_obj}
use kek_on_rails.Int.{ℤ, pos_part, neg_part, ◌+ℤ◌, eqb_ℤ, pos, negsuc}
use kek_on_rails.Machine.{Machine, on_heap, int_val, read_slot, as_register}
use kek_on_rails.Objects.{Value, Body, null, ptr, exinfo}
use kek_on_rails.Outcome.{Outcome, vm_error, bad_access, out_of_fuel, ok, stop}
use kek_on_rails.State.{State, pure, ◌>>=◌, ◌>>◌, get, put, halt, check, lift}

-- The state of the search: the registers of the frame it is at, and an address by which the blocks are
-- chosen: for a caller the return address, which is behind its call. For the frame that throws it is
-- one more than the instruction pointer, which THROW has already moved behind itself.
pub record Search : Type 0 where
  pub ap : ℕ
  pub fp : ℕ
  pub sp : ℕ
  pub ret_addr : ℤ

-- Where the machine goes on: the registers, and the handler's address.
pub record Handler : Type 0 where
  pub unw_ap : ℕ
  pub unw_fp : ℕ
  pub unw_sp : ℕ
  pub catch_addr : ℕ

-- `UNWIND`: to the caller's frame, or `none` where the caller is native.
unfoldable pub unwind : Search → State Machine (Option Search)
unwind u = do
  check (leb 3 u.fp) bad_access
  v3 ← read_slot (u.fp - 3)
  ret_addr ← on_heap (int_val v3)
  v2 ← read_slot (u.fp - 2)
  caller_ap ← on_heap (int_val v2)
  ap ← as_register caller_ap
  v1 ← read_slot (u.fp - 1)
  caller_fp ← on_heap (int_val v1)
  fp ← as_register caller_fp
  if eqb_ℤ ret_addr (negsuc 0)
      then pure none
      else pure (some (record { ap = ap; fp = fp; sp = u.ap; ret_addr = ret_addr }))

-- The first block of a frame that covers the address in front of `at`.
abbrev pub covering : ℤ → List (ℕ × ℕ) → Option ℕ
covering at [] = none
covering at ((try_addr, catch_addr) ∷ blocks) =
    if leb (try_addr + 1 + neg_part at) (pos_part at)
      && ltb (pos_part at) (catch_addr + 1 + neg_part at)
    then some catch_addr
    else covering at blocks

abbrev pub exinfo_blocks : Body → Outcome (List (ℕ × ℕ))
exinfo_blocks (exinfo thrown blocks) = ok blocks
exinfo_blocks _ = stop bad_access

abbrev pub is_null : Value → Bool
is_null null = true
is_null _ = false

abbrev pub exinfo_at : Value → State Heap (List (ℕ × ℕ))
exinfo_at (ptr p) = do o ← read_obj p; lift (exinfo_blocks o.body)
exinfo_at _ = halt bad_access

-- `exi->obj_thrown = obj`
unfoldable pub set_thrown : Value → Value → List (ℕ × ℕ) → State Heap (Unit {0})
set_thrown (ptr p) obj blocks = do
  o ← read_obj p
  write_obj p (record o { body = exinfo obj blocks })
set_thrown _ obj blocks = halt bad_access

abbrev pub covered_or :
    State Machine (Option Handler)
    → (ℕ → State Machine (Option Handler))
    → Option ℕ
    → State Machine (Option Handler)
covered_or other take none = other
covered_or other take (some addr) = take addr

-- The search from one frame on: `none` is the -1 of a throw that nothing handles.
unfoldable pub find_handler_loop : ℕ → Value → Search → State Machine (Option Handler)
find_handler_loop zero obj u = halt out_of_fuel
find_handler_loop (suc fuel) obj u = do
  v ← read_slot u.fp
  if is_null v
      then (do
        next ← unwind u
        elim next [ none ↦ pure none | some w ↦ find_handler_loop fuel obj w ])
      else (do
        blocks ← on_heap (exinfo_at v)
        covered_or
            (do
              next ← unwind u
              elim next [ none ↦ pure none | some w ↦ find_handler_loop fuel obj w ])
            (λ addr. do
              on_heap (set_thrown v obj blocks)
              pure (
                  some (record { unw_ap = u.ap; unw_fp = u.fp; unw_sp = u.sp; catch_addr = addr })))
            (covering u.ret_addr blocks))

unfoldable pub find_handler_for_exobj : ℕ → Value → State Machine (Option Handler)
find_handler_for_exobj fuel obj = do
  s ← get
  find_handler_loop fuel obj (record { ap = s.ap; fp = s.fp; sp = s.sp; ret_addr = s.ip +ℤ pos 1 })

-- `vm_throw_obj`: without a handler the machine ends.
unfoldable pub vm_throw_obj : ℕ → Value → State Machine (Unit {0})
vm_throw_obj fuel obj = do
  h ← find_handler_for_exobj fuel obj
  elim h [
    | none ↦ halt vm_error
    | some k ↦ (do
      s ← get
      put (record s { ap = k.unw_ap; fp = k.unw_fp; sp = k.unw_sp; ip = pos k.catch_addr }))
  ]
