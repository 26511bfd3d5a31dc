-- ===== src/Loader/Read.antt =====
-- The readers of primitives of vm/loader.c, over the bytes that are left of the file. A read
-- that fails calls vm_error, which ends the process, so the value returned after it is not
-- modelled. Numbers are stored with the low byte first.
use kek_on_rails.Base.{
  ℕ, zero, suc, ◌+◌, ◌-◌, ◌*◌, ◌^◌, List, [], ◌∷◌, ◌++◌, Option, none, some, ◌==◌, if◌then◌else◌,
}
use kek_on_rails.Outcome.{vm_error, assertion, Outcome, ok, stop, require}

abbrev pub Input : Type 0
Input = List ℕ

abbrev pub Load : Type 0 → Type 0
Load A = Input → Outcome (A × Input)

abbrev pub pure : {A : Type 0} → A → Load A
pure a f = ok (a, f)

abbrev pub then_load : {A B : Type 0} → Outcome (A × Input) → (A → Load B) → Outcome (B × Input)
then_load (ok (a, f)) k = k a f
then_load (stop e) k = stop e

infixl 5 ◌>>=◌ ◌>>◌
abbrev pub ◌>>=◌ : {A B : Type 0} → Load A → (A → Load B) → Load B
◌>>=◌ m k f = then_load (m f) k

abbrev pub ◌>>◌ : {B : Type 0} → Load (Unit {0}) → Load B → Load B
m >> k = m >>= λ _. k

-- A step that reads nothing.
abbrev pub lift : {A : Type 0} → Outcome A → Load A
lift (ok a) f = ok (a, f)
lift (stop e) f = stop e

-- `fread` of `n` bytes: all of them, or `none` for a short count.
unfoldable pub fread : ℕ → Input → Option (List ℕ × Input)
fread zero f = some ([], f)
fread (suc n) [] = none
fread (suc n) (b ∷ f) = elim (fread n f) [ none ↦ none | some (bs, r) ↦ some (b ∷ bs, r) ]

abbrev pub le_value : List ℕ → ℕ
le_value [] = 0
le_value (b ∷ bs) = b + 256 * le_value bs

-- `fread` into a buffer of `n` bytes
unfoldable pub load_bytes : ℕ → Load (List ℕ)
load_bytes n f = elim (fread n f) [ none ↦ stop vm_error | some (bs, r) ↦ ok (bs, r) ]

unfoldable pub load_uint8 : Load ℕ
load_uint8 = do bs ← load_bytes 1; pure (le_value bs)

unfoldable pub load_uint16 : Load ℕ
load_uint16 = do bs ← load_bytes 2; pure (le_value bs)

unfoldable pub load_uint32 : Load ℕ
load_uint32 = do bs ← load_bytes 4; pure (le_value bs)

unfoldable pub load_size : Load ℕ
load_size = do bs ← load_bytes 8; pure (le_value bs)

abbrev pub uint8_max : ℕ
uint8_max = 2 ^ 8 - 1

abbrev pub uint32_max : ℕ
uint32_max = 2 ^ 32 - 1

abbrev pub size_max : ℕ
size_max = 2 ^ 64 - 1

-- The caller's test of what a reader returned: the greatest value stands for a failed read.
unfoldable pub checked : ℕ → Load ℕ → Load ℕ
checked max m = do n ← m; lift (if n == max then stop vm_error else ok n)

-- `strlen` of a buffer: the bytes before the first zero
abbrev pub strlen : List ℕ → ℕ
strlen [] = 0
strlen (b ∷ bs) = if b == 0 then 0 else suc (strlen bs)

unfoldable pub load_string : Load (List ℕ)
load_string = do
  len ← checked uint32_max load_uint32
  string ← load_bytes len
  lift (require (strlen (string ++ 0 ∷ []) == len) assertion)
  pure string
