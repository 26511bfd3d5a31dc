-- ===== src/Cheney/Copying.antt =====
-- A collection of vm/memory.c under way: how the heap `s` relates to the heap `s0` that the
-- collection started from.
use kek_on_rails.Base.{
  ℕ, zero, suc, ◌+◌, ◌≤◌, ◌<◌, ◌≡◌, refl, ◌∙◌, ◌⊎◌, true, Option, none, some, List, [], ◌∷◌, arith,
  false,
}
use kek_on_rails.Cheney.Whole.{Outside, IsSound, IsMortal, IsObject}
use kek_on_rails.Heap.{aligned}
use kek_on_rails.Int.{ℤ}
use kek_on_rails.Objects.{
  copied, Value, ArrayHead, ArrayObjs, Body, Obj, null, imm, chr, dptr, ptr, int, str, symbol, arr,
  arr_objs, expt, file, term, udo, copied,
}
use kek_on_rails.OldSpace.{to_elems, outside_generations}
use kek_on_rails.Outcome.{ok, Outcome, stop}
use kek_on_rails.Space.{new_segment_size, Space, is_const, obj_size}

-- The object at `p` has been copied to `q`.
pub record IsMoved (s0 s : Space) (p q : ℕ) : Type 0 where
  pub old : Obj
  pub place : Outside s0 p
  pub variable : is_const s0 p ≡ false
  pub was : s0.cell p ≡ some old
  pub sound : IsSound s0 old.cls old.body
  pub now : s.cell p ≡ some (record old { body = copied q })

-- A reference of the old heap, and the reference that takes its place.
pub data Follows (s0 s : Space) : Value → Value → Type 0 where
  same_null : Follows s0 s null null
  same_imm : (n : ℕ) → Follows s0 s (imm n) (imm n)
  same_chr : (n : ℕ) → Follows s0 s (chr n) (chr n)
  same_dptr : (n : ℕ) → Follows s0 s (dptr n) (dptr n)
  same_const : {p : ℕ} → is_const s0 p ≡ true → IsObject s0 p → Follows s0 s (ptr p) (ptr p)
  same_class :
      {p : ℕ} {o : Obj}
      → s0.cell p ≡ some o
      → Outside s0 p
      → outside_generations o.body ≡ true
      → Follows s0 s (ptr p) (ptr p)
  new_place : {p q : ℕ} → IsMoved s0 s p q → Follows s0 s (ptr p) (ptr q)

-- An array of the table of constants whose elements have been moved.
pub record IsRepointed (s0 s : Space) (p : ℕ) : Type 0 where
  pub old : Obj
  pub head : ArrayHead
  pub from_elems : ℕ
  pub to_place : ℕ
  pub constant : is_const s0 p ≡ true
  pub was : s0.cell p ≡ some old
  pub array : old.body ≡ arr head
  pub elements : head.elems ≡ some from_elems
  pub follows : Follows s0 s (ptr from_elems) (ptr to_place)
  pub now : s.cell p ≡ some (record old { body = to_elems head to_place })

-- What has become of an object of the old heap.
pub data Kept (s0 s : Space) (p : ℕ) (old : Obj) : Type 0 where
  unchanged : s.cell p ≡ some old → Kept s0 s p old
  gone : {q : ℕ} → IsMoved s0 s p q → Kept s0 s p old
  repointed : IsRepointed s0 s p → Kept s0 s p old

-- The first `n` slots follow, the others are the same.
pub data FollowAll (s0 s : Space) : ℕ → List Value → List Value → Type 0 where
  none_follow : {vs : List Value} → FollowAll s0 s zero vs vs
  one_follows :
      {n : ℕ} {v w : Value} {vs ws : List Value}
      → Follows s0 s v w
      → FollowAll s0 s n vs ws
      → FollowAll s0 s (suc n) (v ∷ vs) (w ∷ ws)

-- The body of an object and that of its copy, once the copy has been scanned.
pub data IsScanned (s0 s : Space) (c : Option ℕ) : Body → Body → Type 0 where
  scanned_int : (n : ℤ) → IsScanned s0 s c (int n) (int n)
  scanned_str : (n : ℕ) (bytes : List ℕ) → IsScanned s0 s c (str n bytes) (str n bytes)
  scanned_symbol : (n : ℕ) (bytes : List ℕ) → IsScanned s0 s c (symbol n bytes) (symbol n bytes)
  scanned_file : IsScanned s0 s c file file
  scanned_term : IsScanned s0 s c term term
  scanned_empty : (a : ArrayHead) → a.elems ≡ none → IsScanned s0 s c (arr a) (arr a)
  scanned_arr :
      (a : ArrayHead) {p q : ℕ}
      → a.elems ≡ some p
      → Follows s0 s (ptr p) (ptr q)
      → IsScanned s0 s c (arr a) (to_elems a q)
  scanned_objs :
      (a : ArrayObjs) {vs : List Value}
      → FollowAll s0 s a.length a.elems vs
      → IsScanned s0 s c (arr_objs a) (arr_objs (record a { elems = vs }))
  scanned_expt : {v w : Value} → Follows s0 s v w → IsScanned s0 s c (expt v) (expt w)
  scanned_udo :
      (offset : ℕ) {k : ℕ} {vs ws : List Value}
      → c ≡ some k
      → FollowAll s0 s (s0.var_count k) vs ws
      → IsScanned s0 s c (udo offset vs) (udo offset ws)

-- An object of the old heap has a copy at `q` that has been scanned.
pub record HasScannedCopy (s0 s : Space) (old : Obj) (q : ℕ) : Type 0 where
  pub body : Body
  pub copy : s.cell q ≡ some (record old { body = body })
  pub scanned : IsScanned s0 s old.cls old.body body

pub data Pending (q : ℕ) : List ℕ → Type 0 where
  first : {qs : List ℕ} → Pending q (q ∷ qs)
  later : {p : ℕ} {qs : List ℕ} → Pending q qs → Pending q (p ∷ qs)

-- The copies that wait to be scanned stand one behind the other from `a` to `b`.
pub data Layout (s0 s : Space) : ℕ → List ℕ → ℕ → Type 0 where
  end : {a : ℕ} → Layout s0 s a [] a
  laid :
      {a b n : ℕ} {qs : List ℕ} {o : Obj}
      → s.cell a ≡ some o
      → IsSound s0 o.cls o.body
      → obj_size s0.var_count o ≡ ok n
      → 32 ≤ n
      → Layout s0 s (a + aligned n) qs b
      → Layout s0 s a (a ∷ qs) b

-- The bytes that an object of the old heap takes in the to-space.
abbrev pub room_of : Outcome ℕ → ℕ
room_of (ok n) = aligned n
room_of (stop why) = 0

abbrev pub room_at : (ℕ → ℕ) → Option Obj → ℕ
room_at count none = 0
room_at count (some o) = room_of (obj_size count o)

abbrev pub weight : Space → List ℕ → ℕ
weight s0 [] = 0
weight s0 (p ∷ ps) = room_at s0.var_count (s0.cell p) + weight s0 ps

-- The objects that have not moved are among those listed in `left`, which fit behind the free pointer.
pub record Fits (s0 s : Space) : Type 0 where
  pub left : List ℕ
  pub room : s.to_space_free + weight s0 left < s0.to_space + new_segment_size
  pub covers : (p : ℕ) (o : Obj) → IsMortal s0 p o → s.cell p ≡ some o → Pending p left

-- What is left fits, and together with what has moved it is no more than it was.
pub record Within (s0 s : Space) (f : Fits s0 s0) : Type 0 where
  pub rest : Fits s0 s
  pub used : s.to_space_free + weight s0 rest.left ≤ s0.to_space_free + weight s0 f.left

-- What does not change while a collection runs.
pub record SameSpaces (s0 s : Space) : Type 0 where
  pub to_same : s.to_space ≡ s0.to_space
  pub from_same : s.const_from ≡ s0.const_from
  pub const_same : s.const_to ≡ s0.const_to
  pub count_same : s.var_count ≡ s0.var_count
  pub generation_same : s.generational ≡ s0.generational

-- Where the copy at `q` of an old object stands: scanned and below `d`, or waiting, still as the
-- object was.
abbrev pub Stands : Space → Space → ℕ → List ℕ → Obj → ℕ → Type 0
Stands s0 s d qs old q =
    ((q < d) × HasScannedCopy s0 s old q) ⊎ (Pending q qs × (s.cell q ≡ some old))

-- The invariant of a collection: `d` is the end of what has been scanned.
pub record IsCopying (s0 : Space) (d : ℕ) (s : Space) : Type 0 where
  pub spaces : SameSpaces s0 s
  pub pending : List ℕ
  pub low : s0.to_space ≤ d
  pub high : s.to_space_free < s0.to_space + new_segment_size
  pub layout : Layout s0 s d pending s.to_space_free
  pub fits : (f : Fits s0 s0) → Within s0 s f
  pub one_copy : (p p' q : ℕ) → IsMoved s0 s p q → IsMoved s0 s p' q → p ≡ p'
  pub kept : (p : ℕ) (old : Obj) → Outside s0 p → s0.cell p ≡ some old → Kept s0 s p old
  pub stands :
      (p q : ℕ) (m : IsMoved s0 s p q)
      → (s0.to_space ≤ q) × (q < s.to_space_free) × Stands s0 s d pending m.old q

pub Within-mono :
    {s0 s t : Space} {f : Fits s0 s0}
    → t.to_space_free ≡ s.to_space_free
    → ((p : ℕ) (o : Obj) → IsMortal s0 p o → t.cell p ≡ some o → s.cell p ≡ some o)
    → Within s0 s f
    → Within s0 t f
Within-mono same back w = record {
  rest = record {
    left = w.rest.left;
    room = omega (arith, same, w.rest.room);
    covers = λ p o mortal e. w.rest.covers p o mortal (back p o mortal e);
  };
  used = omega (arith, same, w.used);
}

-- From `s` on, the collection has gone on to `t`.
pub record GoesOn (s0 s t : Space) : Type 0 where
  pub grows : s.to_space_free ≤ t.to_space_free
  pub same_scan : t.scan_ptr ≡ s.scan_ptr
  pub moves : (p q : ℕ) → IsMoved s0 s p q → IsMoved s0 t p q
  pub same_consts : (p : ℕ) → is_const s0 p ≡ true → Outside s0 p → t.cell p ≡ s.cell p
  pub same_copies : (q : ℕ) → s0.to_space ≤ q → q < s.to_space_free → t.cell q ≡ s.cell q

-- What has moved stays where it is, and the constants are as they were.
pub record Persists (s0 s t : Space) : Type 0 where
  pub moves : (p q : ℕ) → IsMoved s0 s p q → IsMoved s0 t p q
  pub same_consts : (p : ℕ) → is_const s0 p ≡ true → Outside s0 p → t.cell p ≡ s.cell p

pub Persists-refl : (s0 s : Space) → Persists s0 s s
Persists-refl s0 s = record { moves = λ p q m. m; same_consts = λ p c out. refl }

pub Persists-trans : {s0 s t u : Space} → Persists s0 s t → Persists s0 t u → Persists s0 s u
Persists-trans g h = record {
  moves = λ p q m. h.moves p q (g.moves p q m);
  same_consts = λ p c out. h.same_consts p c out ∙ g.same_consts p c out;
}

pub GoesOn-Persists : {s0 s t : Space} → GoesOn s0 s t → Persists s0 s t
GoesOn-Persists g = record { moves = g.moves; same_consts = g.same_consts }

pub GoesOn-refl : (s0 s : Space) → GoesOn s0 s s
GoesOn-refl s0 s = record {
  grows = omega arith;
  same_scan = refl;
  moves = λ p q m. m;
  same_consts = λ p c out. refl;
  same_copies = λ q l h. refl;
}

pub GoesOn-trans : {s0 s t u : Space} → GoesOn s0 s t → GoesOn s0 t u → GoesOn s0 s u
GoesOn-trans g h = record {
  grows = omega (arith, g.grows, h.grows);
  same_scan = h.same_scan ∙ g.same_scan;
  moves = λ p q m. h.moves p q (g.moves p q m);
  same_consts = λ p c out. h.same_consts p c out ∙ g.same_consts p c out;
  same_copies = λ q l b. h.same_copies q l (omega (arith, g.grows)) ∙ g.same_copies q l b;
}

module _ {s0 s t : Space} (moves : (p q : ℕ) → IsMoved s0 s p q → IsMoved s0 t p q) where
  pub Follows-mono : {v w : Value} → Follows s0 s v w → Follows s0 t v w
  Follows-mono same_null = same_null
  Follows-mono (same_imm n) = same_imm n
  Follows-mono (same_chr n) = same_chr n
  Follows-mono (same_dptr n) = same_dptr n
  Follows-mono (same_const c object) = same_const c object
  Follows-mono (same_class e out o) = same_class e out o
  Follows-mono (new_place {p} {q} m) = new_place (moves p q m)

  pub FollowAll-mono :
      {n : ℕ} {vs ws : List Value} → FollowAll s0 s n vs ws → FollowAll s0 t n vs ws
  FollowAll-mono none_follow = none_follow
  FollowAll-mono (one_follows f fs) = one_follows (Follows-mono f) (FollowAll-mono fs)

  pub IsScanned-mono : {c : Option ℕ} {b b' : Body} → IsScanned s0 s c b b' → IsScanned s0 t c b b'
  IsScanned-mono (scanned_int n) = scanned_int n
  IsScanned-mono (scanned_str n bytes) = scanned_str n bytes
  IsScanned-mono (scanned_symbol n bytes) = scanned_symbol n bytes
  IsScanned-mono scanned_file = scanned_file
  IsScanned-mono scanned_term = scanned_term
  IsScanned-mono (scanned_empty a e) = scanned_empty a e
  IsScanned-mono (scanned_arr a e f) = scanned_arr a e (Follows-mono f)
  IsScanned-mono (scanned_objs a fs) = scanned_objs a (FollowAll-mono fs)
  IsScanned-mono (scanned_expt f) = scanned_expt (Follows-mono f)
  IsScanned-mono (scanned_udo offset e fs) = scanned_udo offset e (FollowAll-mono fs)

  pub HasScannedCopy-mono :
      {old : Obj} {q : ℕ}
      → t.cell q ≡ s.cell q
      → HasScannedCopy s0 s old q
      → HasScannedCopy s0 t old q
  HasScannedCopy-mono same h = record {
    body = h.body;
    copy = same ∙ h.copy;
    scanned = IsScanned-mono h.scanned;
  }

  pub IsRepointed-mono : {p : ℕ} → t.cell p ≡ s.cell p → IsRepointed s0 s p → IsRepointed s0 t p
  IsRepointed-mono same r = record {
    old = r.old;
    head = r.head;
    from_elems = r.from_elems;
    to_place = r.to_place;
    constant = r.constant;
    was = r.was;
    array = r.array;
    elements = r.elements;
    follows = Follows-mono r.follows;
    now = same ∙ r.now;
  }

  pub Kept-mono : {p : ℕ} {old : Obj} → t.cell p ≡ s.cell p → Kept s0 s p old → Kept s0 t p old
  Kept-mono same (unchanged e) = unchanged (same ∙ e)
  Kept-mono same (gone {q} m) = gone (moves _ q m)
  Kept-mono same (repointed r) = repointed (IsRepointed-mono same r)
