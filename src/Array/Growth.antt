-- ===== src/Array/Growth.antt =====
-- How far an array grows, and what happens to its elements on the way.
use Prim.Native.Nat.add
use kek_on_rails.Array.{grow_size, copy_elems}
use kek_on_rails.Base.{
  ℕ, zero, suc, ◌+◌, ◌*◌, ◌/◌, ◌^◌, ◌≤◌, ◌<◌, ◌≡◌, refl, ◌⊎◌, inl, inr, List, [], ◌∷◌, ◌++◌, arith,
  ltb, ltb→lt, lt→ltb, Bool-cases, length, get_elem?, set, replicate,
}
use kek_on_rails.Objects.{Value}
use kek_on_rails.Outcome.{out_of_fuel, ok, stop}

-- From two slots on, where three times the length asked for is at most 2^31, and with rounds for what
-- the length exceeds the size by, the loop ends with a size that is at least the length and at least
-- the old size: it is the old size itself, or at most half as large again as the length asked for.
pub grow_size_total :
    (fuel size len : ℕ)
    → 2 ≤ size
    → 0 < fuel
    → len < size + fuel
    → len * 3 ≤ 2 ^ 31
    → (n : ℕ) × (grow_size fuel size len ≡ ok n)
      × (len ≤ n)
      × (size ≤ n)
      × ((n ≡ size) ⊎ (n * 2 ≤ len * 3))
unfolding grow_size
grow_size_total zero size len two positive enough small = absurd (omega arith)
grow_size_total (suc fuel) size len two positive enough small = elim (Bool-cases (ltb size len)) [
  | inr large ↦ (size, rw large, ground arith, omega arith, inl refl)
  | inl more ↦
      let lt = ltb→lt size len more in
      let (n, e, a, b, c) =
        grow_size_total fuel (size * 3 / 2) len (omega arith) (omega arith) (omega arith) small in
      (n, rw (more, lt→ltb (size * 3) (2 ^ 31) (omega arith)) e, a, omega arith, inr (omega arith))
]

-- From one slot, for a length of two or more, the loop never ends, whatever the fuel.
pub grow_size_stuck : (fuel len : ℕ) → 1 < len → grow_size fuel 1 len ≡ stop out_of_fuel
unfolding grow_size
grow_size_stuck zero len h = refl
grow_size_stuck (suc fuel) len h = rw (lt→ltb 1 len h) (grow_size_stuck fuel len h)

pub copy_elems_lem :
    (xs ys : List Value) (k : ℕ) (n : Value)
    → copy_elems (length xs) (xs ++ ys) (replicate (length xs + k) n) ≡ xs ++ replicate k n
copy_elems_lem [] ys k n = rw add.zero
copy_elems_lem (x ∷ xs) ys k n = rw (add.suc, copy_elems_lem xs ys k n)

pub replicate-add {ℓ} :
    {A : Type ℓ} (m n : ℕ) (a : A) → replicate (m + n) a ≡ replicate m a ++ replicate n a
replicate-add zero n a = rw add.zero
replicate-add (suc m) n a = rw (add.suc, replicate-add m n a)

pub set-append {ℓ} :
    {A : Type ℓ} (xs ys : List A) (i : ℕ) (v : A)
    → i < length xs
    → set (xs ++ ys) i v ≡ set xs i v ++ ys
set-append [] ys i v h = elim h [ ]
set-append (x ∷ xs) ys zero v h = refl
set-append (x ∷ xs) ys (suc i) v h = rw (set-append xs ys i v (omega arith))

-- The value before the end of a list in front of others.
pub get_elem?-append {ℓ} :
    {A : Type ℓ} (xs ys : List A) (i : ℕ) → i < length xs → get_elem? (xs ++ ys) i ≡ get_elem? xs i
get_elem?-append [] ys i h = elim h [ ]
get_elem?-append (x ∷ xs) ys zero h = refl
get_elem?-append (x ∷ xs) ys (suc i) h = get_elem?-append xs ys i (omega arith)
