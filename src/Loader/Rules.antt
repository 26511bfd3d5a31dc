-- ===== src/Loader/Rules.antt =====
-- Rules for the readers: what a successful read tells, whatever file it is given.
use mathlib.Core.Path.{subst}
use kek_on_rails.Base.{
  ℕ, zero, suc, ◌≡◌, refl, inl, inr, some, List, [], ◌∷◌, ◌++◌, arith, Option-cases,
}
use kek_on_rails.Loader.Read.{
  ◌>>=◌, Input, Load, pure, then_load, lift, fread, le_value, load_bytes, load_uint8, load_uint32,
  load_size, checked, load_string,
}
use kek_on_rails.Outcome.{Outcome, ok, stop}

pub then_load-eq-ok :
    {A B : Type 0} (o : Outcome (A × Input)) (k : A → Load B) {b : B} {s : Input}
    → then_load o k ≡ ok (b, s)
    → (a : A) × (r : Input) × (o ≡ ok (a, r)) × (k a r ≡ ok (b, s))
then_load-eq-ok (ok (a, r)) k h = (a, r, refl, h)
then_load-eq-ok (stop e) k h = cc

-- More bytes behind the input change nothing but what is left.
abbrev pub Extends : {A : Type 0} → Load A → Type 0
Extends {A} m = (f g : Input) (a : A) (r : Input) → m f ≡ ok (a, r) → m (f ++ g) ≡ ok (a, r ++ g)

-- Every value that the reader can give has the property.
abbrev pub Gives : {A : Type 0} → (A → Type 0) → Load A → Type 0
Gives {A} P m = (f : Input) (a : A) (r : Input) → m f ≡ ok (a, r) → P a

module _ {A B : Type 0} where
  pub Extends-bind :
      (m : Load A) (k : A → Load B) → Extends m → ((a : A) → Extends (k a)) → Extends (m >>= k)
  Extends-bind m k em ek f g b s h =
      let (a, r, e, h') = then_load-eq-ok (m f) k h in rw (em f g a r e) (ek a r g b s h')

  pub Gives-bind :
      {P : A → Type 0} {Q : B → Type 0} (m : Load A) (k : A → Load B)
      → Gives P m
      → ((a : A) → P a → Gives Q (k a))
      → Gives Q (m >>= k)
  Gives-bind m k gm gk f b s h =
      let (a, r, e, h') = then_load-eq-ok (m f) k h in gk a (gm f a r e) r b s h'

module _ {A : Type 0} where
  pub Extends-pure : (a : A) → Extends (pure a)
  Extends-pure a f g b r h = ground arith

  pub Gives-pure : (P : A → Type 0) (a : A) → P a → Gives P (pure a)
  Gives-pure P a p f b r h = subst P (cc) p

  pub Extends-lift : (o : Outcome A) → Extends (lift o)
  Extends-lift (ok a) f g b r h = ground arith
  Extends-lift (stop e) f g b r h = cc

  pub Gives-any : (m : Load A) → Gives (λ _. Unit {0}) m
  Gives-any m f a r h = tt

pub fread-append_of_some :
    (n : ℕ) (f g : Input) {bs r : List ℕ}
    → fread n f ≡ some (bs, r)
    → fread n (f ++ g) ≡ some (bs, r ++ g)
unfolding fread
fread-append_of_some zero f g h = ground arith
fread-append_of_some (suc n) [] g h = cc
fread-append_of_some (suc n) (b ∷ f) g h = elim (Option-cases (fread n f)) [
  | inl e ↦ ground arith
  | inr ((bs, r), e) ↦ ground (arith, fread-append_of_some n f g e)
]

pub load_bytes-Extends : (n : ℕ) → Extends (load_bytes n)
unfolding load_bytes
load_bytes-Extends n f g a r h = elim (Option-cases (fread n f)) [
  | inl e ↦ ground arith
  | inr ((bs, s), e) ↦ ground (arith, fread-append_of_some n f g e)
]

pub load_uint8-Extends : Extends load_uint8
unfolding load_uint8
load_uint8-Extends =
    Extends-bind (load_bytes 1) _ (load_bytes-Extends 1) (λ bs. Extends-pure (le_value bs))

pub load_uint32-Extends : Extends load_uint32
unfolding load_uint32
load_uint32-Extends =
    Extends-bind (load_bytes 4) _ (load_bytes-Extends 4) (λ bs. Extends-pure (le_value bs))

pub load_size-Extends : Extends load_size
unfolding load_size
load_size-Extends =
    Extends-bind (load_bytes 8) _ (load_bytes-Extends 8) (λ bs. Extends-pure (le_value bs))

pub checked-Extends : (top : ℕ) (m : Load ℕ) → Extends m → Extends (checked top m)
unfolding checked
checked-Extends top m em = Extends-bind m _ em (λ n. Extends-lift _)

pub load_string-Extends : Extends load_string
unfolding load_string
load_string-Extends = Extends-bind _ _ (checked-Extends _ _ load_uint32-Extends) λ len.
    Extends-bind _ _ (load_bytes-Extends len)
      λ s. Extends-bind _ _ (Extends-lift _) λ _. Extends-pure s
