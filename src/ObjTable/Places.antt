-- ===== src/ObjTable/Places.antt =====
-- vm/memory.c: the places of objects in the table.
use mathlib.Core.Path.{subst}
use kek_on_rails.Base.{
  ℕ, zero, suc, ◌+◌, ◌≡◌, refl, sym, ap, ◌∙◌, inl, inr, true, Option, none, some, List, [], ◌∷◌,
  ◌++◌, if◌then◌else◌, Bool-cases, ==→eq, length, get_elem?, set, Bool, false, arith, ◌==◌,
  some-ne-none, eq→==, ◌*◌, ◌/◌, ◌^◌, ltb,
}
use kek_on_rails.Classes.Names.{some_same, ok_same}
use kek_on_rails.ObjTable.{
  TableEntry, holds, find_from, with_obj, taken_or, add_from, first_taken, grow_table, entry_regptr,
  regptr_at, obj_table_find, or_grow, obj_table_add, entry_or_fault, regptr_found, obj_table_regptr,
  is_set, sizeof_entry, upper_half, made_arr, roomy_arr, with_ptr,
}
use kek_on_rails.Operators.Bop.{both}
use kek_on_rails.Outcome.{◌>>=◌, ◌>>◌, Outcome, require, >>=-eq-ok, assertion, ok}
use kek_on_rails.State.{put}

-- Where `x` has a place of an object, `y` has the same.
abbrev pub KeepsPlace : Option ℕ → Option ℕ → Type 0
KeepsPlace x y = (j : ℕ) → x ≡ some j → y ≡ some j

holds_eq : (x : Option ℕ) (obj : ℕ) → holds x obj ≡ true → x ≡ some obj
holds_eq none obj e = cc
holds_eq (some q) obj e = ap some (==→eq q obj e)

-- Setting an entry that keeps its object.
find_from-set :
    (obj k i : ℕ) (t : List TableEntry) (e e' : TableEntry)
    → get_elem? t i ≡ some e
    → e'.obj_ptr ≡ e.obj_ptr
    → find_from obj k (set t i e') ≡ find_from obj k t
unfolding find_from
find_from-set obj k i [] e e' there same = refl
find_from-set obj k zero (x ∷ t) e e' there same =
    let same' : e'.obj_ptr ≡ x.obj_ptr = same ∙ sym (ap (λ y. y.obj_ptr) (some_same there)) in
    ap (λ p. if holds p obj then some k else find_from obj (k + 1) t) same'
find_from-set obj k (suc i) (x ∷ t) e e' there same =
    ap (λ r. if holds x.obj_ptr obj then some k else r)
      (find_from-set obj (k + 1) i t e e' there same)

if_keeps :
    (b : Bool) (k : ℕ) {j : ℕ} {r r' : Option ℕ}
    → (if b then some k else r) ≡ some j
    → (r ≡ some j → r' ≡ some j)
    → (if b then some k else r') ≡ some j
if_keeps true k e f = e
if_keeps false k e f = f e

if_missed :
    (b : Bool) (k : ℕ) {r r' x : Option ℕ}
    → (if b then some k else r) ≡ none
    → (r ≡ none → r' ≡ x)
    → (if b then some k else r') ≡ x
if_missed true k e f = cc
if_missed false k e f = f e

-- A search in two parts of a table.
find_from-append-some :
    (obj k : ℕ) (t u : List TableEntry) → KeepsPlace (find_from obj k t) (find_from obj k (t ++ u))
unfolding find_from
find_from-append-some obj k [] u j e = cc
find_from-append-some obj k (x ∷ t) u j e =
    if_keeps (holds x.obj_ptr obj) k e (find_from-append-some obj (k + 1) t u j)

find_from-append-none :
    (obj k : ℕ) (t u : List TableEntry)
    → find_from obj k t ≡ none
    → find_from obj k (t ++ u) ≡ find_from obj (k + length t) u
unfolding find_from
find_from-append-none obj k [] u e = ap (λ n. find_from obj n u) (omega arith)
find_from-append-none obj k (x ∷ t) u e =
    if_missed (holds x.obj_ptr obj) k e
      (λ e'. find_from-append-none obj (k + 1) t u e' ∙ ap (λ n. find_from obj n u) (omega arith))

-- An entry that is taken for `obj`, which was in no entry.
taken_first :
    (objptr obj q k j : ℕ) (e : TableEntry) (es : List TableEntry)
    → find_from obj (k + 1) es ≡ none
    → find_from q (k + 1) es ≡ some j
    → find_from q k (with_obj objptr obj e ∷ es) ≡ some j
unfolding find_from
taken_first objptr obj q k j e es missed found = elim (Bool-cases (obj == q)) [
  | inl same ↦
      absurd
        (some-ne-none found (subst (λ x. find_from x (k + 1) es ≡ none) (==→eq obj q same) missed))
  | inr other ↦ ap (λ b. if b then some k else find_from q (k + 1) es) other ∙ found
]

-- `t'` has a place `i` for `obj`, and all the places that `t` has.
pub record IsExtended (obj k i : ℕ) (t t' : List TableEntry) : Type 0 where
  pub placed : find_from obj k t' ≡ some i
  pub kept : (q : ℕ) → KeepsPlace (find_from q k t) (find_from q k t')

taken-IsExtended :
    (p : Option ℕ) (objptr obj k i : ℕ) (e : TableEntry) (es t' : List TableEntry)
    (rest : Option (ℕ × List TableEntry))
    → e.obj_ptr ≡ p
    → find_from obj (k + 1) es ≡ none
    → holds p obj ≡ false
    → ((es' : List TableEntry) → rest ≡ some (i, es') → IsExtended obj (k + 1) i es es')
    → taken_or p objptr obj k e es rest ≡ some (i, t')
    → IsExtended obj k i (e ∷ es) t'
unfolding find_from
taken-IsExtended none objptr obj k i e es t' rest free missed other more eq =
    let same : (k, with_obj objptr obj e ∷ es) ≡ (i, t') = some_same eq in
    subst (λ r. IsExtended obj k r.0 (e ∷ es) r.1) same
      (record {
        placed = ap (λ b. if b then some k else find_from obj (k + 1) es) (eq→== obj obj refl);
        kept = λ q j h.
            taken_first objptr obj q k j e es missed
              (sym (ap (λ p. if holds p q then some k else find_from q (k + 1) es) free) ∙ h);
      })
taken-IsExtended (some p) objptr obj k i e es t' (some (i', es')) full missed other more eq =
    let same : (i', e ∷ es') ≡ (i, t') = some_same eq in
    let deeper : IsExtended obj (k + 1) i es es' = more es' (ap (λ r. some (r.0, es')) same) in
    subst (λ r. IsExtended obj k i (e ∷ es) r.1) same
      (record {
        placed =
            ap (λ b. if b then some k else find_from obj (k + 1) es')
              (ap (λ p. holds p obj) full ∙ other)
            ∙ deeper.placed;
        kept = λ q j x. if_keeps (holds e.obj_ptr q) k x (deeper.kept q j);
      })
taken-IsExtended (some p) objptr obj k i e es t' none full missed other more eq = cc

missed_parts :
    (b : Bool) (k : ℕ) {r : Option ℕ} → (if b then some k else r) ≡ none → (b ≡ false) × (r ≡ none)
missed_parts true k e = cc
missed_parts false k e = (refl, e)

add_from-IsExtended :
    (objptr obj k i : ℕ) (t t' : List TableEntry)
    → find_from obj k t ≡ none
    → add_from objptr obj k t ≡ some (i, t')
    → IsExtended obj k i t t'
unfolding find_from add_from
add_from-IsExtended objptr obj k i [] t' missed eq = cc
add_from-IsExtended objptr obj k i (e ∷ es) t' missed eq =
    let (other, missed') = missed_parts (holds e.obj_ptr obj) k missed in
    taken-IsExtended e.obj_ptr objptr obj k i e es t' (add_from objptr obj (k + 1) es) refl missed'
      other (λ es' eq'. add_from-IsExtended objptr obj (k + 1) i es es' missed' eq') eq

first_taken-found :
    (objptr obj k : ℕ) (us upper : List TableEntry)
    → first_taken objptr obj us ≡ ok upper
    → find_from obj k upper ≡ some k
unfolding find_from
first_taken-found objptr obj k [] upper eq = cc
first_taken-found objptr obj k (u ∷ us) upper eq =
    let same : with_obj objptr obj u ∷ us ≡ upper = ok_same eq in
    subst (λ r. find_from obj k r ≡ some k) same
      (ap (λ b. if b then some k else find_from obj (k + 1) us) (eq→== obj obj refl))

grow_table-IsExtended :
    (junk : ℕ → TableEntry) (objptr obj i : ℕ) (t t' : List TableEntry)
    → find_from obj 0 t ≡ none
    → grow_table junk objptr obj t ≡ ok (i, t')
    → IsExtended obj 0 i t t'
unfolding grow_table
grow_table-IsExtended junk objptr obj i t t' missed eq =
    let us : List TableEntry = upper_half junk (length t / sizeof_entry) 0 (length t) in
    let checked : Outcome (Unit {0}) = require (ltb (length t * 2) (2 ^ 32)) assertion in
    let (upper, both, same) =
      >>=-eq-ok (checked >> first_taken objptr obj us) (λ x. ok (length t, t ++ x)) eq in
    let (u, fits, taken) = >>=-eq-ok checked (λ _. first_taken objptr obj us) both in
    let one : find_from obj (0 + length t) upper ≡ some (0 + length t) =
      first_taken-found objptr obj (0 + length t) us upper taken in
    let two : ◌≡◌ {A = Option ℕ} (some (0 + length t)) (some (length t)) = ap some (omega arith) in
    subst (λ r. IsExtended obj 0 r.0 t r.1) (ok_same same)
      (record {
        placed = find_from-append-none obj 0 t upper missed ∙ one ∙ two;
        kept = λ q. find_from-append-some q 0 t upper;
      })

entry_regptr_obj :
    (fresh : ℕ → ℕ) (objptr : ℕ) (e e' : TableEntry)
    → entry_regptr fresh objptr e ≡ ok e'
    → e'.obj_ptr ≡ e.obj_ptr
unfolding entry_regptr
entry_regptr_obj fresh objptr e e' eq =
    let (a, put, same) =
      >>=-eq-ok
        (require (is_set e.ptr) assertion >> with_ptr (roomy_arr (made_arr fresh e.ptr_arr)) objptr)
        (λ a. ok (record e { ptr_arr = some a })) eq in
    sym (ap (λ x. x.obj_ptr) (ok_same same))

entry_or_fault_lem : (x : Option TableEntry) (e : TableEntry) → entry_or_fault x ≡ ok e → x ≡ some e
entry_or_fault_lem none e eq = cc
entry_or_fault_lem (some a) e eq = ap some (ok_same eq)

regptr_at-IsExtended :
    (fresh : ℕ → ℕ) (objptr obj i j : ℕ) (t t' : List TableEntry)
    → find_from obj 0 t ≡ some j
    → regptr_at fresh t objptr j ≡ ok (i, t')
    → IsExtended obj 0 i t t'
unfolding regptr_at
regptr_at-IsExtended fresh objptr obj i j t t' found eq =
    let (e, there, eq') =
      >>=-eq-ok (entry_or_fault (get_elem? t j))
        (λ e. entry_regptr fresh objptr e >>= λ e'. ok (j, set t j e')) eq in
    let (e', changed, same) =
      >>=-eq-ok (entry_regptr fresh objptr e) (λ e'. ok (j, set t j e')) eq' in
    let unmoved : (q : ℕ) → find_from q 0 (set t j e') ≡ find_from q 0 t = λ q.
      find_from-set q 0 j t e e' (entry_or_fault_lem _ e there)
        (entry_regptr_obj fresh objptr e e' changed) in
    subst (λ r. IsExtended obj 0 r.0 t r.1) (ok_same same)
      (record { placed = unmoved obj ∙ found; kept = λ q k h. unmoved q ∙ h })

obj_table_add-IsExtended :
    (x : Option (ℕ × List TableEntry)) (junk : ℕ → TableEntry) (objptr obj i : ℕ)
    (t t' : List TableEntry)
    → find_from obj 0 t ≡ none
    → add_from objptr obj 0 t ≡ x
    → or_grow x (grow_table junk objptr obj t) ≡ ok (i, t')
    → IsExtended obj 0 i t t'
obj_table_add-IsExtended none junk objptr obj i t t' missed full eq =
    grow_table-IsExtended junk objptr obj i t t' missed eq
obj_table_add-IsExtended (some r) junk objptr obj i t t' missed taken eq =
    add_from-IsExtended objptr obj 0 i t t' missed (taken ∙ ap some (ok_same eq))

found-IsExtended :
    (x : Option ℕ) (junk : ℕ → TableEntry) (fresh : ℕ → ℕ) (objptr obj i : ℕ)
    (t t' : List TableEntry)
    → find_from obj 0 t ≡ x
    → regptr_found junk fresh t objptr obj x ≡ ok (i, t')
    → IsExtended obj 0 i t t'
unfolding obj_table_add
found-IsExtended none junk fresh objptr obj i t t' missed eq =
    obj_table_add-IsExtended (add_from objptr obj 0 t) junk objptr obj i t t' missed refl eq
found-IsExtended (some j) junk fresh objptr obj i t t' found eq =
    regptr_at-IsExtended fresh objptr obj i j t t' found eq

-- Whether the object is in the table already, takes a free entry or makes the table grow, whatever
-- stands in memory behind the part that is cleared: if a registration of a variable that points to
-- `obj` gives `i`, a search for `obj` then gives `i`, and a search for any object that the table had
-- gives the index that it gave before.
pub obj_table_regptr_keeps :
    (junk : ℕ → TableEntry) (fresh : ℕ → ℕ) (objptr obj i : ℕ) (t t' : List TableEntry)
    → obj_table_regptr junk fresh t objptr (some obj) ≡ ok (i, t')
    → (obj_table_find t' obj ≡ some i)
      × ((q : ℕ) → KeepsPlace (obj_table_find t q) (obj_table_find t' q))
unfolding obj_table_regptr obj_table_find
obj_table_regptr_keeps junk fresh objptr obj i t t' eq =
    let h : IsExtended obj 0 i t t' =
      found-IsExtended (find_from obj 0 t) junk fresh objptr obj i t t' refl eq in
    (h.placed, h.kept)
