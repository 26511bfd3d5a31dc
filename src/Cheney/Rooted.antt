-- ===== src/Cheney/Rooted.antt =====
-- vm/memory.c: `gc_rootset` moves what the roots point to.
use kek_on_rails.Base.{ℕ, ◌≡◌, refl, true, false, some, List, [], ◌∷◌}
use kek_on_rails.Cheney.Copying.{
  IsMoved, Follows, IsCopying, GoesOn, GoesOn-refl, GoesOn-trans, Follows-mono, Fits,
}
use kek_on_rails.Cheney.Fields.{MovesObjects, move_value-Ends}
use kek_on_rails.Cheney.Roots.{move_all, variable_root}
use kek_on_rails.Cheney.Whole.{Outside, IsObject, IsGood}
use kek_on_rails.Objects.{Value, Obj, null, ptr}
use kek_on_rails.OldSpace.{outside_generations, move_value}
use kek_on_rails.Space.{Space, is_const}
use kek_on_rails.State.{State, pure, Ends, Ends-bind, Ends-mono, ends}

pub data All {A : Type 0} (P : A → Type 0) : List A → Type 0 where
  all_nil : All P []
  all_cons : {a : A} {xs : List A} → P a → All P xs → All P (a ∷ xs)

pub data Both {A B : Type 0} (R : A → B → Type 0) : List A → List B → Type 0 where
  both_nil : Both R [] []
  both_cons :
      {a : A} {b : B} {xs : List A} {ys : List B} → R a b → Both R xs ys → Both R (a ∷ xs) (b ∷ ys)

-- What the walk over one kind of variables gives.
abbrev pub MovesAll : Space → ℕ → Space → List Value → List Value → Space → Type 0
MovesAll s0 d s vs ws t = IsCopying s0 d t × GoesOn s0 s t × Both (Follows s0 t) vs ws

-- A variable of one kind, whatever has been done before.
abbrev pub MovesRoot : Space → (Value → Type 0) → (Value → State Space Value) → Type 0
MovesRoot s0 P move =
    (s : Space) (d : ℕ) (v : Value)
    → IsCopying s0 d s
    → P v
    → Ends (Fits s0 s0) (λ w t. IsCopying s0 d t × GoesOn s0 s t × Follows s0 t v w) (move v s)

pub Both-mono :
    {s0 s t : Space} {vs ws : List Value}
    → ((p q : ℕ) → IsMoved s0 s p q → IsMoved s0 t p q)
    → Both (Follows s0 s) vs ws
    → Both (Follows s0 t) vs ws
Both-mono on both_nil = both_nil
Both-mono on (both_cons f fs) = both_cons (Follows-mono on f) (Both-mono on fs)

pub move_all-Ends :
    {s0 s : Space} {d : ℕ} {P : Value → Type 0} {move : Value → State Space Value}
    → MovesRoot s0 P move
    → (vs : List Value) → All P vs
    → IsCopying s0 d s
    → Ends (Fits s0 s0) (MovesAll s0 d s vs) (move_all move vs s)
unfolding move_all
move_all-Ends {s0} {s} moves [] good h = ends (h, GoesOn-refl s0 s, both_nil)
move_all-Ends {s0} {s} {d} moves (v ∷ vs) (all_cons good more) h =
    Ends-bind (moves s d v h good) λ w t one.
      Ends-bind (move_all-Ends moves vs more one.0) λ ws u rest.
        ends (rest.0, GoesOn-trans one.1 rest.1, both_cons (Follows-mono rest.1.moves one.2) rest.2)

-- A variable of the root set points to an object.
pub data IsVariable (s : Space) : Value → Type 0 where
  variable_ptr : {p : ℕ} → IsObject s p → IsVariable s (ptr p)

-- A slot of the stack may also point to a class or to the stack.
pub data IsSlot (s : Space) : Value → Type 0 where
  slot_good : {v : Value} → IsGood s v → IsSlot s v
  slot_class :
      {p : ℕ} {o : Obj}
      → s.cell p ≡ some o
      → Outside s p
      → is_const s p ≡ false
      → outside_generations o.body ≡ true
      → IsSlot s (ptr p)

module _ {s0 : Space} {move : ℕ → State Space ℕ} (moves : MovesObjects s0 move) where
  pub static-MovesRoot : MovesRoot s0 (IsGood s0) (move_value move (pure null))
  static-MovesRoot s d v h good =
      Ends-mono (move_value-Ends move moves (pure null) false (λ e. refl) v h good (λ e. cc))
        λ w t m. (m.0, m.1, m.2)

  pub IsVariable-MovesRoot : MovesRoot s0 (IsVariable s0) (variable_root move)
  IsVariable-MovesRoot s d v h (variable_ptr {p} object) =
      Ends-bind (moves s d p h object) λ q t m. ends (m.0, m.1, m.2)
