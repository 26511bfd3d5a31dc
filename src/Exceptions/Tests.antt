-- ===== src/Exceptions/Tests.antt =====
-- A method that was called inside a try block throws.
use kek_on_rails.Base.{ℕ, ◌≡◌, refl, Option, none, some, [], ◌∷◌, arith, ◌==◌, if◌then◌else◌, ap}
use kek_on_rails.Exceptions.{Search, vm_throw_obj}
use kek_on_rails.Exceptions.Frames.{
  AtFrame, native, HasBlocks, Catches, Passes, no_exinfo, no_block, here, past, thrown_in, Covers,
}
use kek_on_rails.Exceptions.Throw.{thrower, vm_throw_obj-Catches, vm_throw_obj-unhandled}
use kek_on_rails.Heap.{update, read_obj, fresh_obj}
use kek_on_rails.Int.{pos, negsuc, pos_part}
use kek_on_rails.Machine.{Machine, int_val}
use kek_on_rails.Objects.{Value, Obj, null, imm, ptr, int, exinfo}
use kek_on_rails.Outcome.{vm_error, ok, stop}

abbrev try_info : Obj
try_info = fresh_obj none (exinfo null ((40, 45) ∷ (10, 30) ∷ []))

abbrev minus_one : Obj
minus_one = fresh_obj none (int (negsuc 0))

abbrev objects : ℕ → Option Obj
objects p = if p == 8 then some try_info else if p == 4096 then some minus_one else none

abbrev slots : ℕ → Value
slots i =
    if i == 1
    then ptr 4096
    else if i == 2
    then imm 0
    else if i == 3
    then imm 0
    else if i == 4
    then ptr 8
    else if i == 7
    then imm 20
    else if i == 8
    then imm 0
    else if i == 9
    then imm 4
    else null

abbrev throwing : Machine
throwing = record {
  slot = slots;
  sp = 11;
  ap = 6;
  fp = 10;
  ip = pos 50;
  heap = record { beginning = 4096; used = 32; size = 1024; const_table = 0; cell = objects };
}

abbrev main_frame : Search
main_frame = record { ap = 0; fp = 4; sp = 6; ret_addr = pos 20 }

callee-AtFrame : AtFrame throwing (thrower throwing) (pos 20) 0 4
unfolding int_val
callee-AtFrame = record {
  high = omega arith;
  inside = omega arith;
  saved_ret = refl;
  saved_ap = refl;
  saved_fp = refl;
}

main-AtFrame : AtFrame throwing main_frame native 0 0
unfolding int_val read_obj
main-AtFrame = record {
  high = omega arith;
  inside = omega arith;
  saved_ret = refl;
  saved_ap = refl;
  saved_fp = refl;
}

way : Passes throwing (thrower throwing) main_frame 1
way = past callee-AtFrame refl (no_exinfo refl) here

main-HasBlocks : HasBlocks throwing main_frame ((40, 45) ∷ (10, 30) ∷ [])
main-HasBlocks = record {
  address = 8;
  obj = try_info;
  thrown = null;
  slot = refl;
  at = refl;
  body = refl;
}

-- The block from 40 on does not cover the byte 19, and the one from 10 on does.
not_covered : ¬ Covers (pos 20) (40, 45)
not_covered c = absurd (omega (arith, ap pos_part c.in_front, c.starts))

main-Catches : Catches throwing main_frame 30
main-Catches = record {
  blocks = (40, 45) ∷ (10, 30) ∷ [];
  has = main-HasBlocks;
  first_cover = record {
    before = (40, 45) ∷ [];
    try_addr = 10;
    after = [];
    split = refl;
    skipped = (not_covered, tt);
    covers = record { byte = 19; in_front = refl; starts = omega arith; stays = omega arith };
  };
}

vm_throw_obj-Catches_example :
    vm_throw_obj 9 (imm 7) throwing
    ≡ ok (
      tt,
      record (thrown_in throwing 8 try_info (imm 7) ((40, 45) ∷ (10, 30) ∷ [])) {
        ap = 0;
        fp = 4;
        sp = 6;
        ip = pos 30;
      },
    )
unfolding main-Catches main-HasBlocks
vm_throw_obj-Catches_example =
    vm_throw_obj-Catches 9 (imm 7) throwing main_frame 1 30 way (omega arith) main-Catches
      (omega arith)

-- The same frames with a try block that ends before the call.
abbrev late : Machine
late = record throwing {
  heap = record throwing.heap {
    cell = update objects 8 (fresh_obj none (exinfo null ((40, 45) ∷ [])));
  };
}

late_callee-AtFrame : AtFrame late (thrower late) (pos 20) 0 4
unfolding int_val
late_callee-AtFrame = record {
  high = omega arith;
  inside = omega arith;
  saved_ret = refl;
  saved_ap = refl;
  saved_fp = refl;
}

late_main-AtFrame : AtFrame late main_frame native 0 0
unfolding int_val read_obj
late_main-AtFrame = record {
  high = omega arith;
  inside = omega arith;
  saved_ret = refl;
  saved_ap = refl;
  saved_fp = refl;
}

late_main-HasBlocks : HasBlocks late main_frame ((40, 45) ∷ [])
late_main-HasBlocks = record {
  address = 8;
  obj = fresh_obj none (exinfo null ((40, 45) ∷ []));
  thrown = null;
  slot = refl;
  at = refl;
  body = refl;
}

vm_throw_obj-unhandled_example : vm_throw_obj 9 (imm 7) late ≡ stop vm_error
vm_throw_obj-unhandled_example =
    vm_throw_obj-unhandled 9 (imm 7) late main_frame 1 0 0
      (past late_callee-AtFrame refl (no_exinfo refl) here) late_main-AtFrame
      (no_block late_main-HasBlocks (not_covered, tt)) (omega arith)
