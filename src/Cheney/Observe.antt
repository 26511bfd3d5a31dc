-- ===== src/Cheney/Observe.antt =====
-- What a program can see of the objects that vm/memory.c moves: it follows references from slot to
-- slot, and reads classes, contents and small numbers, but no addresses.
use kek_on_rails.Base.{ℕ, zero, suc, Option, none, some, List, [], ◌∷◌}
use kek_on_rails.Objects.{Value, Body, Obj, ptr, arr, arr_objs, expt, udo}
use kek_on_rails.Space.{Space}

-- A reference without the address in it.
abbrev pub hide : Value → Value
hide (ptr p) = ptr 0
hide v = v

abbrev pub hide_all : List Value → List Value
hide_all [] = []
hide_all (v ∷ vs) = hide v ∷ hide_all vs

abbrev pub hide_elems : Option ℕ → Option ℕ
hide_elems none = none
hide_elems (some p) = some 0

abbrev pub hide_body : Body → Body
hide_body (arr a) = arr (record a { elems = hide_elems a.elems })
hide_body (arr_objs a) = arr_objs (record a { elems = hide_all a.elems })
hide_body (expt v) = expt (hide v)
hide_body (udo offset vs) = udo offset (hide_all vs)
hide_body b = b

abbrev pub elems_ref : Option ℕ → Option Value
elems_ref none = none
elems_ref (some p) = some (ptr p)

-- The first `n` slots.
abbrev pub slot_below : ℕ → List Value → ℕ → Option Value
slot_below zero vs i = none
slot_below (suc n) [] i = none
slot_below (suc n) (v ∷ vs) zero = some v
slot_below (suc n) (v ∷ vs) (suc i) = slot_below n vs i

abbrev pub udo_slot : (ℕ → ℕ) → Option ℕ → List Value → ℕ → Option Value
udo_slot count none vs i = none
udo_slot count (some c) vs i = slot_below (count c) vs i

-- The slot `i` of an object: an array has its object of elements in the only one. The object that a
-- table of handlers has caught is no slot: the collector does not follow it.
abbrev pub ref_at : (ℕ → ℕ) → Option ℕ → Body → ℕ → Option Value
ref_at count c (arr a) i = elems_ref a.elems
ref_at count c (arr_objs a) i = slot_below a.length a.elems i
ref_at count c (expt v) i = some v
ref_at count c (udo offset vs) i = udo_slot count c vs i
ref_at count c b i = none

abbrev pub object_of : Space → Value → Option Obj
object_of s (ptr p) = s.cell p
object_of s v = none

abbrev pub seen_obj : Option Obj → Option (Option ℕ × Body)
seen_obj none = none
seen_obj (some o) = some (o.cls, hide_body o.body)

abbrev pub next_ref : Space → Option Obj → ℕ → Option Value
next_ref s none i = none
next_ref s (some o) i = ref_at s.var_count o.cls o.body i

unfoldable pub Sight : Type 0
Sight = Option (Value × Option (Option ℕ × Body))

-- What is seen at the end of a path that starts at a reference.
unfoldable pub observe : Space → Option Value → List ℕ → Sight
unfolding Sight
observe s none path = none
observe s (some v) [] = some (hide v, seen_obj (object_of s v))
observe s (some v) (i ∷ path) = observe s (next_ref s (object_of s v) i) path
