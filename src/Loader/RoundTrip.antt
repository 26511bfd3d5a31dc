-- ===== src/Loader/RoundTrip.antt =====
-- Reading back what the compiler writes.
pub mod Records
pub mod File
use Prim.Native.Nat.{max}
use mathlib.Core.List.{append_assoc}
use kek_on_rails.Base.{
  ℕ, suc, ◌^◌, ◌<◌, ◌≡◌, refl, ap, ◌≢◌, List, [], ◌∷◌, ◌++◌, some, arith, length, eq→==, ne→==,
}
use kek_on_rails.Loader.Read.{
  Input, Load, ◌>>=◌, fread, load_bytes, load_uint8, load_uint32, load_size, checked, uint8_max,
  uint32_max, size_max, strlen, load_string,
}
use kek_on_rails.Loader.Writer.{le_bytes, classout_wstr}
use kek_on_rails.Outcome.{ok}

pub fread-append : (xs r : List ℕ) → fread (length xs) (xs ++ r) ≡ some (xs, r)
unfolding fread
fread-append [] r = refl
fread-append (x ∷ xs) r = rw (fread-append xs r)

pub load_bytes-append : (xs r : List ℕ) → load_bytes (length xs) (xs ++ r) ≡ ok (xs, r)
unfolding load_bytes
load_bytes-append xs r = rw (load_bytes, fread-append xs r)

pub load_uint8-le_bytes :
    (n : ℕ) (r : Input) → n < 2 ^ 8 → load_uint8 (le_bytes 1 n ++ r) ≡ ok (n, r)
unfolding load_uint8 load_bytes fread le_bytes
load_uint8-le_bytes n r h = ap (λ m. ok (m, r)) (omega arith)

pub load_uint32-le_bytes :
    (n : ℕ) (r : Input) → n < 2 ^ 32 → load_uint32 (le_bytes 4 n ++ r) ≡ ok (n, r)
unfolding load_uint32 load_bytes fread le_bytes
load_uint32-le_bytes n r h = ap (λ m. ok (m, r)) (omega arith)

pub load_size-le_bytes :
    (n : ℕ) (r : Input) → n < 2 ^ 64 → load_size (le_bytes 8 n ++ r) ≡ ok (n, r)
unfolding load_size load_bytes fread le_bytes
load_size-le_bytes n r h = ap (λ m. ok (m, r)) (omega arith)

-- The greatest number of a width stands for a failed read, so it is excluded.
pub checked_lem :
    (max n : ℕ) (m : Load ℕ) (f r : Input) → m f ≡ ok (n, r) → n ≢ max → checked max m f ≡ ok (n, r)
unfolding checked
checked_lem max n m f r e h = rw (e, ne→== n max h)

pub checked_uint32 :
    (n : ℕ) (r : Input)
    → n < uint32_max
    → checked uint32_max load_uint32 (le_bytes 4 n ++ r) ≡ ok (n, r)
checked_uint32 n r h =
    checked_lem uint32_max n load_uint32 _ r (load_uint32-le_bytes n r (omega arith)) (omega arith)

pub checked_uint8 :
    (n : ℕ) (r : Input)
    → n < uint8_max
    → checked uint8_max load_uint8 (le_bytes 1 n ++ r) ≡ ok (n, r)
checked_uint8 n r h =
    checked_lem uint8_max n load_uint8 _ r (load_uint8-le_bytes n r (omega arith)) (omega arith)

pub checked_size :
    (n : ℕ) (r : Input) → n < size_max → checked size_max load_size (le_bytes 8 n ++ r) ≡ ok (n, r)
checked_size n r h =
    checked_lem size_max n load_size _ r (load_size-le_bytes n r (omega arith)) (omega arith)

-- A C string holds no zero byte.
abbrev pub NoZero : List ℕ → Type 0
NoZero [] = Unit
NoZero (b ∷ bs) = (b ≢ 0) × NoZero bs

pub record IsString (s : List ℕ) : Type 0 where
  pub no_zero : NoZero s
  pub short : length s < uint32_max

strlen-append : (s : List ℕ) → NoZero s → strlen (s ++ 0 ∷ []) ≡ length s
strlen-append [] h = refl
strlen-append (b ∷ bs) (h, hs) = rw (ne→== b 0 h) (ap suc (strlen-append bs hs))

pub load_string-classout_wstr :
    (s r : List ℕ) → IsString s → load_string (classout_wstr s ++ r) ≡ ok (s, r)
unfolding load_string classout_wstr
load_string-classout_wstr s r h = rw (
  append_assoc,
  checked_uint32 (length s) (s ++ r) h.short,
  load_bytes-append s r,
  strlen-append s h.no_zero,
  eq→== (length s) (length s) refl,
)

-- The whole of a reader's contract: on what the writer wrote, with anything behind it, the reader
-- gives the value and stops where the writer stopped.
abbrev pub Reads : {A : Type 0} → Load A → List ℕ → A → Type 0
Reads m w a = (r : Input) → m (w ++ r) ≡ ok (a, r)

-- Reading one thing, then the rest.
pub Reads-bind :
    {A B : Type 0} (m : Load A) (k : A → Load B) (w v : List ℕ) (a : A) (b : B)
    → Reads m w a
    → Reads (k a) v b
    → Reads (m >>= k) (w ++ v) b
Reads-bind m k w v a b hm hk r = rw (append_assoc, hm) (hk r)
