-- ===== src/RememberSet/Part.antt =====
-- Parts of a remember set, in its order, and what they keep.
use kek_on_rails.Base.{◌≤◌, ◌≡◌, ◌≢◌, List, [], ◌∷◌, arith, length}
use kek_on_rails.RememberSet.{Entry}

pub data IsPart : List Entry → List Entry → Type 0 where
  empty : IsPart [] []
  keep : {e : Entry} {xs ys : List Entry} → IsPart xs ys → IsPart (e ∷ xs) (e ∷ ys)
  skip : {e : Entry} {xs ys : List Entry} → IsPart xs ys → IsPart xs (e ∷ ys)

pub data Mem (e : Entry) : List Entry → Type 0 where
  at_head : {es : List Entry} → Mem e (e ∷ es)
  in_tail : {m : Entry} {es : List Entry} → Mem e es → Mem e (m ∷ es)

-- No entry is of the slot of `e`.
abbrev pub Apart : Entry → List Entry → Type 0
Apart e [] = Unit {0}
Apart e (m ∷ ms) = (e.new_obj ≢ m.new_obj) × Apart e ms

-- Every entry of the slot of `e` is of its object.
abbrev pub Agree : Entry → List Entry → Type 0
Agree e [] = Unit {0}
Agree e (m ∷ ms) = (e.new_obj ≡ m.new_obj → e.old_obj ≡ m.old_obj) × Agree e ms

abbrev pub Distinct : List Entry → Type 0
Distinct [] = Unit {0}
Distinct (e ∷ es) = Apart e es × Distinct es

abbrev pub Consistent : List Entry → Type 0
Consistent [] = Unit {0}
Consistent (e ∷ es) = Agree e es × Consistent es

pub Apart-IsPart : (e : Entry) {xs ys : List Entry} → IsPart xs ys → Apart e ys → Apart e xs
Apart-IsPart e empty h = tt
Apart-IsPart e (keep p) (ne, h) = (ne, Apart-IsPart e p h)
Apart-IsPart e (skip p) (ne, h) = Apart-IsPart e p h

pub Agree-IsPart : (e : Entry) {xs ys : List Entry} → IsPart xs ys → Agree e ys → Agree e xs
Agree-IsPart e empty h = tt
Agree-IsPart e (keep p) (same, h) = (same, Agree-IsPart e p h)
Agree-IsPart e (skip p) (same, h) = Agree-IsPart e p h

pub Consistent-IsPart : {xs ys : List Entry} → IsPart xs ys → Consistent ys → Consistent xs
Consistent-IsPart empty h = tt
Consistent-IsPart (keep {e} p) (a, h) = (Agree-IsPart e p a, Consistent-IsPart p h)
Consistent-IsPart (skip p) (a, h) = Consistent-IsPart p h

pub length-IsPart : {xs ys : List Entry} → IsPart xs ys → length xs ≤ length ys
length-IsPart empty = omega arith
length-IsPart (keep p) = omega (arith, length-IsPart p)
length-IsPart (skip p) = omega (arith, length-IsPart p)

pub IsPart-trans : {xs ys zs : List Entry} → IsPart xs ys → IsPart ys zs → IsPart xs zs
IsPart-trans p empty = p
IsPart-trans (keep p) (keep q) = keep (IsPart-trans p q)
IsPart-trans (skip p) (keep q) = skip (IsPart-trans p q)
IsPart-trans p (skip q) = skip (IsPart-trans p q)
