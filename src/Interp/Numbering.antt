-- ===== src/Interp/Numbering.antt =====
-- vm/vm.c: what `SYM_STATIC` finds, for the numbers that the compiler gives to static symbols.
use mathlib.Core.Path.{subst}
use kek_on_rails.Base.{
  ℕ, suc, ◌+◌, ◌<◌, ◌≡◌, refl, sym, none, some, List, [], ◌∷◌, arith, length, ◌-◌, inl, inr, leb,
  if◌then◌else◌, Bool-cases, leb→le, leb→gt,
}
use kek_on_rails.Classes.Table.{Class}
use kek_on_rails.Int.{ℤ, ◌-ℤ◌, pos, negsuc, sub_ℕ}
use kek_on_rails.Interp.StaticSyms.{
  first_addr, class_rec, distance, sym_static_loop, sym_static, own_distance,
}
use kek_on_rails.Loader.Records.{Symbol}
use kek_on_rails.Outcome.{Outcome, ok, ◌>>=◌}

-- The first symbol of a class has the number `b`.
abbrev pub StartsAt : ℕ → List Symbol → Type 0
StartsAt b [] = Unit {0}
StartsAt b (member ∷ syms) = member.addr ≡ b

-- The static symbols of the class `k` are numbered from `b` on, behind those of its parents. `fuel` is
-- at least the number of its parents.
pub data IsNumbered (cs : List Class) : ℕ → ℕ → Class → ℕ → Type 0 where
  eldest :
      {fuel k : ℕ} {c : Class}
      → class_rec cs k ≡ ok c
      → c.parent ≡ none
      → StartsAt 0 c.syms_static
      → IsNumbered cs fuel k c 0
  heir :
      {fuel k p : ℕ} {c above : Class} {b : ℕ}
      → class_rec cs k ≡ ok c
      → c.parent ≡ some p
      → IsNumbered cs fuel p above b
      → StartsAt (b + length above.syms_static) c.syms_static
      → IsNumbered cs (suc fuel) k c (b + length above.syms_static)

-- `q` is `k` or a parent of it, at any distance.
pub data IsLine (cs : List Class) : ℕ → ℕ → Type 0 where
  itself : {k : ℕ} → IsLine cs k k
  upward :
      {k p q : ℕ} {c : Class}
      → class_rec cs k ≡ ok c
      → c.parent ≡ some p
      → IsLine cs p q
      → IsLine cs k q

-- The place of the symbol with the number `n`, in the class `k` or in a parent.
pub record IsPlace (cs : List Class) (k n : ℕ) (place : ℕ × ℕ) : Type 0 where
  pub line : IsLine cs k place.0
  pub fuel : ℕ
  pub owner : Class
  pub base : ℕ
  pub numbered : IsNumbered cs fuel place.0 owner base
  pub inside : place.1 < length owner.syms_static
  pub number : base + place.1 ≡ n

abbrev pub FindsPlace : List Class → ℕ → ℕ → Outcome (ℕ × ℕ) → Type 0
FindsPlace cs k n r = (place : ℕ × ℕ) × (r ≡ ok place) × IsPlace cs k n place

found_above :
    (cs : List Class) (k p n : ℕ) (c : Class) (r : Outcome (ℕ × ℕ))
    → class_rec cs k ≡ ok c
    → c.parent ≡ some p
    → FindsPlace cs p n r
    → FindsPlace cs k n r
found_above cs k p n c r known parent (place, e, h) = (
  place,
  e,
  record {
    line = upward known parent h.line;
    fuel = h.fuel;
    owner = h.owner;
    base = h.base;
    numbered = h.numbered;
    inside = h.inside;
    number = h.number;
  },
)

-- The distance `d` of `n` from `b`.
data IsDistance (n b : ℕ) : ℤ → Type 0 where
  behind : (i : ℕ) → b + i ≡ n → IsDistance n b (pos i)
  before : (i : ℕ) → n < b → IsDistance n b (negsuc i)

sub_ℕ-IsDistance : (n b x y : ℕ) → x ≡ n → y ≡ b → IsDistance n b (sub_ℕ x y)
sub_ℕ-IsDistance n b x y ex ey = elim (Bool-cases (leb y x)) [
  | inl enough ↦
      subst (λ t. IsDistance n b (if t then pos (x - y) else negsuc (y - x - 1))) (sym enough)
        (behind (x - y) (omega (arith, leb→le y x enough)))
  | inr lacking ↦
      subst (λ t. IsDistance n b (if t then pos (x - y) else negsuc (y - x - 1))) (sym lacking)
        (before (y - x - 1) (omega (arith, leb→gt y x lacking)))
]

minus-IsDistance : (n b : ℕ) → IsDistance n b (pos n -ℤ pos b)
unfolding ◌-ℤ◌
minus-IsDistance n b = sub_ℕ-IsDistance n b (n + 0) (0 + b) (omega arith) (omega arith)

distance-IsDistance :
    (n c i : ℕ) (syms : List Symbol)
    → StartsAt c syms
    → n < c + length syms
    → IsDistance n c (distance n (negsuc i) (first_addr syms))
distance-IsDistance n c i [] starts room = before i (omega arith)
distance-IsDistance n c i (member ∷ syms) starts room =
    subst (λ a. IsDistance n c (pos n -ℤ pos a)) (sym starts) (minus-IsDistance n c)

class_of :
    (cs : List Class) (fuel k : ℕ) (c : Class) (b : ℕ)
    → IsNumbered cs fuel k c b
    → class_rec cs k ≡ ok c
class_of cs fuel k c b (eldest known parent starts) = known
class_of cs fuel k c b (heir known parent above starts) = known

starts_of :
    (cs : List Class) (fuel k : ℕ) (c : Class) (b : ℕ)
    → IsNumbered cs fuel k c b
    → StartsAt b c.syms_static
starts_of cs fuel k c b (eldest known parent starts) = starts
starts_of cs fuel k c b (heir known parent above starts) = starts

loop_finds :
    (cs : List Class) (fuel k : ℕ) (c : Class) (b n : ℕ) (d : ℤ)
    → IsNumbered cs fuel k c b
    → n < b + length c.syms_static
    → IsDistance n b d
    → FindsPlace cs k n (sym_static_loop fuel cs n k d c.parent)
unfolding sym_static_loop
loop_finds cs fuel k c b n d numbered room (behind i e) = (
  (k, i),
  refl,
  record {
    line = itself;
    fuel = fuel;
    owner = c;
    base = b;
    numbered = numbered;
    inside = omega (arith, e, room);
    number = e;
  },
)
loop_finds cs fuel k c b n d (eldest known parent starts) room (before i short) =
    absurd (omega (arith, short))
loop_finds cs fuel k c b n d
      (heir {fuel = f} {p = p} {above = above} {b = base} known parent numbered starts) room
      (before i short) =
    subst (λ x. FindsPlace cs k n (sym_static_loop (suc f) cs n k (negsuc i) x)) (sym parent)
      (subst
        (λ r. FindsPlace cs k n (
          r >>= λ a.
          sym_static_loop f cs n p (distance n (negsuc i) (first_addr a.syms_static)) a.parent))
        (sym (class_of cs f p above base numbered))
        (found_above cs k p n c _ known parent (
          loop_finds cs f p above base n (distance n (negsuc i) (first_addr above.syms_static))
            numbered short
            (distance-IsDistance n base i above.syms_static (starts_of cs f p above base numbered)
              short))))

own_distance-IsDistance :
    (n b : ℕ) (syms : List Symbol)
    → StartsAt b syms
    → 0 < length syms
    → (d : ℤ) × (own_distance n (first_addr syms) ≡ ok d) × IsDistance n b d
own_distance-IsDistance n b [] starts some_own = absurd (omega (arith, some_own))
own_distance-IsDistance n b (member ∷ syms) starts some_own = (
  pos n -ℤ pos member.addr,
  refl,
  subst (λ a. IsDistance n b (pos n -ℤ pos a)) (sym starts) (minus-IsDistance n b),
)

-- For every number from 0 up to that of the last static symbol of a class which has such symbols of
-- its own, `SYM_STATIC` gives the class, itself or one of its parents, and the index of the symbol
-- with that number.
pub sym_static-IsPlace :
    (cs : List Class) (fuel k : ℕ) (c : Class) (b n : ℕ)
    → IsNumbered cs fuel k c b
    → 0 < length c.syms_static
    → n < b + length c.syms_static
    → FindsPlace cs k n (sym_static fuel cs k n)
unfolding sym_static
sym_static-IsPlace cs fuel k c b n numbered some_own room =
    let (d, e, far) =
      own_distance-IsDistance n b c.syms_static (starts_of cs fuel k c b numbered) some_own in
    subst
      (λ r. FindsPlace cs k n (
        r >>= λ a.
        own_distance n (first_addr a.syms_static) >>= λ x. sym_static_loop fuel cs n k x a.parent))
      (sym (class_of cs fuel k c b numbered))
      (subst (λ r. FindsPlace cs k n (r >>= λ x. sym_static_loop fuel cs n k x c.parent)) (sym e)
        (loop_finds cs fuel k c b n d numbered room far))
