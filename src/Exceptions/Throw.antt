-- ===== src/Exceptions/Throw.antt =====
-- vm/vm.c: where vm_throw_obj goes on.
use kek_on_rails.Base.{ℕ, zero, suc, ◌<◌, ◌≡◌, refl, ap, ◌∙◌, true, false, arith}
use kek_on_rails.Exceptions.{Search, find_handler_loop, find_handler_for_exobj, vm_throw_obj}
use kek_on_rails.Exceptions.Frames.{
  AtFrame, native, IsQuiet, Catches, Passes, quiet_step, thrown_in, catch_step, here, past,
}
use kek_on_rails.Int.{◌+ℤ◌, pos}
use kek_on_rails.Machine.{stack_slots, Machine}
use kek_on_rails.Objects.{Value}
use kek_on_rails.Outcome.{vm_error, ok, stop}

find_handler_loop-Passes :
    (obj : Value) {s : Machine} (fuel : ℕ) {u w : Search} {n : ℕ}
    → Passes s u w n
    → n < fuel
    → (k : ℕ) × (find_handler_loop fuel obj u s ≡ find_handler_loop (suc k) obj w s)
find_handler_loop-Passes obj zero here h = absurd (omega arith)
find_handler_loop-Passes obj zero (past f e q p) h = absurd (omega arith)
find_handler_loop-Passes obj (suc fuel) here h = (fuel, refl)
find_handler_loop-Passes obj (suc fuel) (past f e q p) h =
    let (k, same) = find_handler_loop-Passes obj fuel p (omega arith) in
    (k, quiet_step fuel obj false f e q ∙ same)

-- Where the search of a throw begins.
abbrev pub thrower : Machine → Search
thrower s = record { ap = s.ap; fp = s.fp; sp = s.sp; ret_addr = s.ip +ℤ pos 1 }

-- A throw goes to the nearest frame, on the way up through the callers, that has a try block over its
-- place: the registers become those of that frame, with the stack cut back to where its callee's
-- arguments began, the machine goes on at the handler of the first such block, no slot of the stack
-- changes, and the thrown object stands in the frame's constant. The place of a caller is the last byte
-- in front of the return address. The place of the frame that throws is the byte at the instruction
-- pointer, which is that behind THROW, where the instruction pointer is not negative.
pub vm_throw_obj-Catches :
    (fuel : ℕ) (obj : Value) (s : Machine) (w : Search) (n addr : ℕ)
    → Passes s (thrower s) w n
    → w.fp < stack_slots
    → (c : Catches s w addr) → n < fuel
    → vm_throw_obj fuel obj s
      ≡ ok (
        tt,
        record (thrown_in s c.has.address c.has.obj obj c.blocks) {
          ap = w.ap;
          fp = w.fp;
          sp = w.sp;
          ip = pos addr;
        },
      )
unfolding vm_throw_obj find_handler_for_exobj
vm_throw_obj-Catches fuel obj s w n addr way inside c enough =
    let (k, same) = find_handler_loop-Passes obj fuel way enough in
    rw (vm_throw_obj, find_handler_for_exobj, same, catch_step k obj addr inside c) refl

-- A throw where no frame, up to the one that native code called, has a try block over its place ends
-- the machine with an error. The place of a caller is the last byte in front of the return address, and
-- that of the frame that throws the byte at the instruction pointer, behind THROW.
pub vm_throw_obj-unhandled :
    (fuel : ℕ) (obj : Value) (s : Machine) (w : Search) (n ap fp : ℕ)
    → Passes s (thrower s) w n
    → AtFrame s w native ap fp
    → IsQuiet s w
    → n < fuel
    → vm_throw_obj fuel obj s ≡ stop vm_error
unfolding vm_throw_obj find_handler_for_exobj
vm_throw_obj-unhandled fuel obj s w n ap fp way topmost quiet enough =
    let (k, same) = find_handler_loop-Passes obj fuel way enough in
    rw (vm_throw_obj, find_handler_for_exobj, same, quiet_step k obj true topmost refl quiet) refl
