-- ===== src/RememberSet/Dups.antt =====
-- vm/memory.c: the entries that gc_os_remove_dups_in_rs leaves.
use mathlib.Core.Path.{subst, ap₂}
use kek_on_rails.Base.{
  ℕ, zero, suc, ◌<◌, ◌≡◌, refl, sym, ◌∙◌, ◌⊎◌, inl, inr, List, [], ◌∷◌, arith, ◌==◌, eq→==,
  Bool-cases, ==→eq, length,
}
use kek_on_rails.Classes.Names.{true-false}
use kek_on_rails.Outcome.{ok}
use kek_on_rails.RememberSet.{Entry, drop_dups, remove_dups_loop, gc_os_remove_dups_in_rs}
use kek_on_rails.RememberSet.Part.{
  IsPart, Mem, Apart, Agree, Distinct, Consistent, Apart-IsPart, Consistent-IsPart, length-IsPart,
  IsPart-trans, empty, keep, skip, at_head, in_tail,
}

Entry_eq : (e m : Entry) → e.new_obj ≡ m.new_obj → e.old_obj ≡ m.old_obj → m ≡ e
Entry_eq e m new old = ap₂ (λ a b. record { old_obj = a; new_obj = b }) (sym old) (sym new)

pub record Dropped (e : Entry) (es out : List Entry) : Type 0 where
  pub part : IsPart out es
  pub apart : Apart e out
  pub kept : (x : Entry) → Mem x es → (x ≡ e) ⊎ Mem x out

none_in : (e x : Entry) → Mem x [] → (x ≡ e) ⊎ Mem x []
none_in e x h = elim h [ ]

dropped_kept :
    (e m : Entry) (ms out : List Entry)
    → m ≡ e
    → ((x : Entry) → Mem x ms → (x ≡ e) ⊎ Mem x out)
    → (x : Entry) → Mem x (m ∷ ms)
    → (x ≡ e) ⊎ Mem x out
dropped_kept e m ms out eq old x at_head = inl eq
dropped_kept e m ms out eq old x (in_tail h) = old x h

kept_kept :
    (e m : Entry) (ms out : List Entry)
    → ((x : Entry) → Mem x ms → (x ≡ e) ⊎ Mem x out)
    → (x : Entry) → Mem x (m ∷ ms)
    → (x ≡ e) ⊎ Mem x (m ∷ out)
kept_kept e m ms out old x at_head = inr at_head
kept_kept e m ms out old x (in_tail h) = elim (old x h) [
  | inl same ↦ inl same
  | inr there ↦ inr (in_tail there)
]

drop_dups-Dropped :
    (e : Entry) (es : List Entry)
    → Agree e es
    → (out : List Entry) × (drop_dups e es ≡ ok out) × Dropped e es out
unfolding drop_dups
drop_dups-Dropped e [] h = ([], refl, record { part = empty; apart = tt; kept = none_in e })
drop_dups-Dropped e (m ∷ ms) (same, h) =
    let (out, run, d) = drop_dups-Dropped e ms h in
    elim (Bool-cases (e.new_obj == m.new_obj)) [
      | inl equal ↦
          let new = ==→eq e.new_obj m.new_obj equal in
          let old = same new in
          (
            out,
            rw (drop_dups, equal, eq→== e.old_obj m.old_obj old, run) refl,
            record {
              part = skip d.part;
              apart = d.apart;
              kept = dropped_kept e m ms out (Entry_eq e m new old) d.kept;
            },
          )
      | inr other ↦ (
        m ∷ out,
        rw (drop_dups, other, run) refl,
        record {
          part = keep d.part;
          apart = (λ x. true-false (sym (eq→== e.new_obj m.new_obj x) ∙ other), d.apart);
          kept = kept_kept e m ms out d.kept;
        },
      )
    ]

-- What the set is after the duplicates are removed: a part of what it was, in its order, with one
-- entry for each slot and every entry still in it.
pub record Deduped (es out : List Entry) : Type 0 where
  pub part : IsPart out es
  pub distinct : Distinct out
  pub kept : (x : Entry) → Mem x es → Mem x out

head_kept :
    (e : Entry) (es rest more : List Entry)
    → ((x : Entry) → Mem x es → (x ≡ e) ⊎ Mem x rest)
    → ((x : Entry) → Mem x rest → Mem x more)
    → (x : Entry) → Mem x (e ∷ es)
    → Mem x (e ∷ more)
head_kept e es rest more one two x at_head = at_head
head_kept e es rest more one two x (in_tail h) = elim (one x h) [
  | inl same ↦ subst (λ y. Mem x (y ∷ more)) same at_head
  | inr there ↦ in_tail (two x there)
]

remove_dups_loop-Deduped :
    (fuel : ℕ) (es : List Entry)
    → Consistent es
    → length es < fuel
    → (out : List Entry) × (remove_dups_loop fuel es ≡ ok out) × Deduped es out
unfolding remove_dups_loop
remove_dups_loop-Deduped zero es c h = absurd (omega arith)
remove_dups_loop-Deduped (suc fuel) [] c h =
    ([], refl, record { part = empty; distinct = tt; kept = λ x m. m })
remove_dups_loop-Deduped (suc fuel) (e ∷ es) (a, c) h =
    let (rest, run, d) = drop_dups-Dropped e es a in
    let (more, run', r) =
      remove_dups_loop-Deduped fuel rest (Consistent-IsPart d.part c)
        (omega (arith, length-IsPart d.part)) in
    (
      e ∷ more,
      rw (remove_dups_loop, run, run') refl,
      record {
        part = keep (IsPart-trans r.part d.part);
        distinct = (Apart-IsPart e r.part d.apart, r.distinct);
        kept = head_kept e es rest more d.kept r.kept;
      },
    )

-- Removing the duplicates of a remember set in which each slot belongs to one object ends without
-- an error, with one entry for each slot, in their order, and none of the entries lost.
pub gc_os_remove_dups_in_rs-Deduped :
    (es : List Entry)
    → Consistent es
    → (out : List Entry) × (gc_os_remove_dups_in_rs es ≡ ok out) × Deduped es out
unfolding gc_os_remove_dups_in_rs
gc_os_remove_dups_in_rs-Deduped es c = remove_dups_loop-Deduped (suc (length es)) es c (omega arith)
