-- ===== src/Classes/Methods.antt =====
-- vm/vm.c: which method of a class answers a search for a name.
use mathlib.Core.Path.{subst}
use kek_on_rails.Base.{
  ℕ, ◌≤◌, ◌≡◌, refl, sym, ap, ◌∙◌, inl, inr, Bool, true, false, ◌&&◌, Option, none, some, List, [],
  ◌∷◌, ◌++◌, ◌==◌, if◌then◌else◌, eq→==, Bool-cases, ==→eq, length,
}
use kek_on_rails.Classes.Names.{and-true, streq→eq, streq_refl, true-false, streq-false, some_same}
use kek_on_rails.Classes.Search.{
  Lineage, nearest, find_in_lineage-nearest, NoneOwn, IsAnswer, IsAnswer-nearest,
}
use kek_on_rails.Classes.Table.{
  first, Class, streq, bool_val, constructor_or, is_method, own_method, vm_find_method_in_class,
}
use kek_on_rails.Loader.Records.{Method}
use kek_on_rails.Outcome.{ok}

-- The flag that a method must have, as the loader gives it.
abbrev pub flag_of : Bool → ℕ
flag_of true = 1
flag_of false = 0

abbrev pub Matches : List ℕ → Bool → Method → Type 0
Matches name is_static m = (m.name ≡ name) × (m.is_static ≡ flag_of is_static)

abbrev pub NoneMatch : List ℕ → Bool → List Method → Type 0
NoneMatch name is_static [] = Unit {0}
NoneMatch name is_static (m ∷ ms) = (¬ Matches name is_static m) × NoneMatch name is_static ms

-- The class has no constructor of that name.
abbrev pub OtherName : List ℕ → Option Method → Type 0
OtherName name none = Unit {0}
OtherName name (some k) = ¬ (k.name ≡ name)

-- `m` is the first method in a list with the name and the flag.
pub record IsFirstMatch (name : List ℕ) (is_static : Bool) (ms : List Method) (m : Method)
    : Type 0 where
  pub before : List Method
  pub after : List Method
  pub split : ms ≡ before ++ m ∷ after
  pub skipped : NoneMatch name is_static before
  pub matches : Matches name is_static m

-- The method of the class itself: its constructor, if that has the name, whether the search is for a
-- static method or not, and else the first method with the name and the flag.
pub data Owns (name : List ℕ) (is_static : Bool) (c : Class) (m : Method) : Type 0 where
  by_constructor : c.constructor ≡ some m → m.name ≡ name → Owns name is_static c m
  by_method :
      OtherName name c.constructor
      → IsFirstMatch name is_static c.methods m
      → Owns name is_static c m

abbrev pub OwnsNone : List ℕ → Bool → Class → Type 0
OwnsNone name is_static c = OtherName name c.constructor × NoneMatch name is_static c.methods

abbrev pub AllOwnNone : List ℕ → Bool → List Class → Type 0
AllOwnNone name is_static [] = Unit {0}
AllOwnNone name is_static (c ∷ cs) = OwnsNone name is_static c × AllOwnNone name is_static cs

-- The method is that of the first class of a lineage that has one.
pub record IsNearestMethod (name : List ℕ) (is_static : Bool) (l : List Class) (m : Method)
    : Type 0 where
  pub before : List Class
  pub owner : Class
  pub after : List Class
  pub split : l ≡ before ++ owner ∷ after
  pub skipped : AllOwnNone name is_static before
  pub owned : Owns name is_static owner m

-- What a search for a method must give for a class with this lineage.
abbrev pub IsMethodAnswer : List ℕ → Bool → List Class → Option Method → Type 0
IsMethodAnswer name is_static l none = AllOwnNone name is_static l
IsMethodAnswer name is_static l (some m) = IsNearestMethod name is_static l m

bool_val_flag : (b : Bool) → bool_val b ≡ flag_of b
bool_val_flag true = refl
bool_val_flag false = refl

module _ (name : List ℕ) (is_static : Bool) where
  is_method-true : (m : Method) → is_method name is_static m ≡ true → Matches name is_static m
  is_method-true m e =
      let (n, fl) = and-true (streq m.name name) (m.is_static == bool_val is_static) e in
      (streq→eq m.name name n, ==→eq m.is_static (bool_val is_static) fl ∙ bool_val_flag is_static)

  is_method-false : (m : Method) → is_method name is_static m ≡ false → ¬ Matches name is_static m
  is_method-false m e (n, fl) =
      let same : streq m.name name ≡ true =
        subst (λ x. streq m.name x ≡ true) n (streq_refl m.name) in
      let flag : (m.is_static == bool_val is_static) ≡ true =
        eq→== m.is_static (bool_val is_static) (fl ∙ sym (bool_val_flag is_static)) in
      true-false (sym (ap (λ b. b && (m.is_static == bool_val is_static)) same ∙ flag) ∙ e)

  first-some :
      (ms : List Method) (m : Method)
      → first (is_method name is_static) ms ≡ some m
      → IsFirstMatch name is_static ms m
  first-some [] m e = cc
  first-some (x ∷ ms) m e = elim (Bool-cases (is_method name is_static x)) [
    | inl it_is ↦
        let same : x ≡ m =
          some_same
            (sym (ap (λ b. if b then some x else first (is_method name is_static) ms) it_is) ∙ e) in
        record {
          before = [];
          after = ms;
          split = ap (λ y. y ∷ ms) same;
          skipped = tt;
          matches = subst (Matches name is_static) same (is_method-true x it_is);
        }
    | inr other ↦
        let further =
          first-some ms m
            (sym (ap (λ b. if b then some x else first (is_method name is_static) ms) other) ∙ e) in
        record {
          before = x ∷ further.before;
          after = further.after;
          split = ap (λ l. x ∷ l) further.split;
          skipped = (is_method-false x other, further.skipped);
          matches = further.matches;
        }
  ]

  first-none :
      (ms : List Method) → first (is_method name is_static) ms ≡ none → NoneMatch name is_static ms
  first-none [] e = tt
  first-none (x ∷ ms) e = elim (Bool-cases (is_method name is_static x)) [
    | inl it_is ↦
        let shown : some x ≡ none =
          sym (ap (λ b. if b then some x else first (is_method name is_static) ms) it_is) ∙ e in
        cc
    | inr other ↦ (
      is_method-false x other,
      first-none ms
          (sym (ap (λ b. if b then some x else first (is_method name is_static) ms) other) ∙ e),
    )
  ]

  own_some :
      (k : Option Method) (c : Class) (m : Method)
      → c.constructor ≡ k
      → constructor_or name k (first (is_method name is_static) c.methods) ≡ some m
      → Owns name is_static c m
  own_some none c m stands e =
      by_method (subst (OtherName name) (sym stands) tt) (first-some c.methods m e)
  own_some (some k) c m stands e = elim (Bool-cases (streq k.name name)) [
    | inl it_is ↦
        let same : k ≡ m = some_same (
          sym (ap (λ b. if b then some k else first (is_method name is_static) c.methods) it_is)
          ∙ e) in
        by_constructor (stands ∙ ap some same)
          (subst (λ x. x.name ≡ name) same (streq→eq k.name name it_is))
    | inr other ↦ by_method (subst (OtherName name) (sym stands) (streq-false k.name name other)) (
        first-some c.methods m (
          sym (ap (λ b. if b then some k else first (is_method name is_static) c.methods) other)
          ∙ e))
  ]

  own_none :
      (k : Option Method) (c : Class)
      → c.constructor ≡ k
      → constructor_or name k (first (is_method name is_static) c.methods) ≡ none
      → OwnsNone name is_static c
  own_none none c stands e = (subst (OtherName name) (sym stands) tt, first-none c.methods e)
  own_none (some k) c stands e = elim (Bool-cases (streq k.name name)) [
    | inl it_is ↦
        let found : some k ≡ none =
          sym (ap (λ b. if b then some k else first (is_method name is_static) c.methods) it_is)
          ∙ e in
        cc
    | inr other ↦ (
      subst (OtherName name) (sym stands) (streq-false k.name name other),
      first-none c.methods (
          sym (ap (λ b. if b then some k else first (is_method name is_static) c.methods) other)
          ∙ e),
    )
  ]

  own_method-none : (c : Class) → own_method name is_static c ≡ none → OwnsNone name is_static c
  unfolding own_method
  own_method-none c e = own_none c.constructor c refl e

  all_own_none :
      (l : List Class) → NoneOwn (own_method name is_static) l → AllOwnNone name is_static l
  all_own_none [] h = tt
  all_own_none (c ∷ l) (h, hs) = (own_method-none c h, all_own_none l hs)

  own_method-Owns :
      (c : Class) (m : Method) → own_method name is_static c ≡ some m → Owns name is_static c m
  unfolding own_method
  own_method-Owns c m e = own_some c.constructor c m refl e

  IsAnswer-IsMethodAnswer :
      (l : List Class) (o : Option Method)
      → IsAnswer (own_method name is_static) l o
      → IsMethodAnswer name is_static l o
  IsAnswer-IsMethodAnswer l none h = all_own_none l h
  IsAnswer-IsMethodAnswer l (some m) h = record {
    before = h.before;
    owner = h.owner;
    after = h.after;
    split = h.split;
    skipped = all_own_none h.before h.skipped;
    owned = own_method-Owns h.owner m h.owned;
  }

-- A search for a method in a class whose parents end gives the method of the nearest class that
-- has one, and nothing where none has; it ends as soon as the fuel covers the lineage. A class has
-- its constructor, if that has the name, whatever the flag, and else the first of its methods with
-- the name and the flag.
pub vm_find_method_in_class-IsMethodAnswer :
    (fuel : ℕ) {cs : List Class} {i : ℕ} {l : List Class} (name : List ℕ) (is_static : Bool)
    → Lineage cs i l
    → length l ≤ fuel
    → (o : Option Method) × (vm_find_method_in_class fuel cs i name is_static ≡ ok o)
      × IsMethodAnswer name is_static l o
unfolding vm_find_method_in_class
vm_find_method_in_class-IsMethodAnswer fuel {l} name is_static line enough =
    let own = own_method name is_static in
    (
      nearest own l,
      find_in_lineage-nearest own fuel line enough,
      IsAnswer-IsMethodAnswer name is_static l _ (IsAnswer-nearest own l _ refl),
    )
