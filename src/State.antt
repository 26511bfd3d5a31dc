-- ===== src/State.antt =====
-- Code that changes a state and may stop: the source's functions over its global variables.
use kek_on_rails.Base.{◌≡◌, refl, Bool, true, false}
use kek_on_rails.Outcome.{Stop, Outcome, ok, stop, vm_error}

abbrev pub State : Type 0 → Type 0 → Type 0
State S A = S → Outcome (A × S)

abbrev pub pure : {S A : Type 0} → A → State S A
pure a s = ok (a, s)

abbrev pub and_then : {S A B : Type 0} → Outcome (A × S) → (A → State S B) → Outcome (B × S)
and_then (ok (a, s)) k = k a s
and_then (stop e) k = stop e

infixl 5 ◌>>=◌ ◌>>◌
abbrev pub ◌>>=◌ : {S A B : Type 0} → State S A → (A → State S B) → State S B
◌>>=◌ m k s = and_then (m s) k

abbrev pub ◌>>◌ : {S B : Type 0} → State S (Unit {0}) → State S B → State S B
m >> k = m >>= λ _. k

abbrev pub get : {S : Type 0} → State S S
get s = ok (s, s)

abbrev pub put : {S : Type 0} → S → State S (Unit {0})
put s _ = ok (tt, s)

abbrev pub halt : {S A : Type 0} → Stop → State S A
halt e s = stop e

-- `if (!b) …` with one of the ways to stop
abbrev pub check : {S : Type 0} → Bool → Stop → State S (Unit {0})
check true e s = ok (tt, s)
check false e s = stop e

-- A computation that reads no state.
abbrev pub lift : {S A : Type 0} → Outcome A → State S A
lift (ok a) s = ok (a, s)
lift (stop e) s = stop e

pub and_then-eq-ok :
    {S A B : Type 0} (o : Outcome (A × S)) (k : A → State S B) {b : B} {t : S}
    → and_then o k ≡ ok (b, t)
    → (a : A) × (s : S) × (o ≡ ok (a, s)) × (k a s ≡ ok (b, t))
and_then-eq-ok (ok (a, s)) k h = (a, s, refl, h)
and_then-eq-ok (stop e) k h = cc

-- Total correctness of a run: it does not stop, and its result and last state satisfy `P`.
pub data Returns {S A : Type 0} (P : A → S → Type 0) : Outcome (A × S) → Type 0 where
  returns : {a : A} {s : S} → P a s → Returns P (ok (a, s))

module _ {S A : Type 0} {P : A → S → Type 0} where
  pub Returns-bind :
      {B : Type 0} {Q : B → S → Type 0} {r : Outcome (A × S)} {k : A → State S B}
      → Returns P r
      → ((a : A) (s : S) → P a s → Returns Q (k a s))
      → Returns Q (and_then r k)
  Returns-bind (returns p) next = next _ _ p

  pub Returns-mono :
      {Q : A → S → Type 0} {r : Outcome (A × S)}
      → Returns P r
      → ((a : A) (s : S) → P a s → Q a s)
      → Returns Q r
  Returns-mono (returns p) weaken = returns (weaken _ _ p)

  pub Returns-eq : {r : Outcome (A × S)} → Returns P r → (a : A) × (s : S) × (r ≡ ok (a, s)) × P a s
  Returns-eq (returns {a} {s} p) = (a, s, refl, p)

-- A run that may stop only by the source's own error, and not where `C` holds: otherwise its result
-- and last state satisfy `P`.
pub data Ends {S A : Type 0} (C : Type 0) (P : A → S → Type 0) : Outcome (A × S) → Type 0 where
  ends : {a : A} {s : S} → P a s → Ends C P (ok (a, s))
  gives_up : ¬ C → Ends C P (stop vm_error)

module _ {S A C : Type 0} {P : A → S → Type 0} where
  pub Ends-bind :
      {B : Type 0} {Q : B → S → Type 0} {r : Outcome (A × S)} {k : A → State S B}
      → Ends C P r
      → ((a : A) (s : S) → P a s → Ends C Q (k a s))
      → Ends C Q (and_then r k)
  Ends-bind (ends p) next = next _ _ p
  Ends-bind (gives_up full) next = gives_up full

  pub Ends-mono :
      {Q : A → S → Type 0} {r : Outcome (A × S)}
      → Ends C P r
      → ((a : A) (s : S) → P a s → Q a s)
      → Ends C Q r
  Ends-mono (ends p) weaken = ends (weaken _ _ p)
  Ends-mono (gives_up full) weaken = gives_up full

  pub Ends-Returns : {r : Outcome (A × S)} → Ends C P r → C → Returns P r
  Ends-Returns (ends p) c = returns p
  Ends-Returns (gives_up full) c = absurd (full c)
