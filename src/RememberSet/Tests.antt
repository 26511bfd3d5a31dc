-- ===== src/RememberSet/Tests.antt =====
-- A remember set with two entries for the slot 8.
use kek_on_rails.Base.{ℕ, ◌≡◌, refl, sym, ◌≢◌, List, [], ◌∷◌, arith}
use kek_on_rails.Outcome.{ok}
use kek_on_rails.RememberSet.{Entry, drop_dups, remove_dups_loop, gc_os_remove_dups_in_rs}
use kek_on_rails.RememberSet.Dups.{Deduped, gc_os_remove_dups_in_rs-Deduped}
use kek_on_rails.RememberSet.Part.{Consistent}

abbrev entry : ℕ → ℕ → Entry
entry a b = record { old_obj = a; new_obj = b }

abbrev remembered : List Entry
remembered = entry 1 8 ∷ entry 2 16 ∷ entry 1 8 ∷ []

one_left : gc_os_remove_dups_in_rs remembered ≡ ok (entry 1 8 ∷ entry 2 16 ∷ [])
unfolding gc_os_remove_dups_in_rs remove_dups_loop drop_dups
one_left = refl

slots_differ : ◌≢◌ {A = ℕ} 8 16
slots_differ e = absurd (omega (arith, e))

remembered-Consistent : Consistent remembered
remembered-Consistent = (
  ((λ e. absurd (slots_differ e)), ((λ e. refl), tt)),
  (((λ e. absurd (slots_differ (sym e))), tt), (tt, tt)),
)

gc_os_remove_dups_in_rs-Deduped_example :
    (out : List Entry) × (gc_os_remove_dups_in_rs remembered ≡ ok out) × Deduped remembered out
gc_os_remove_dups_in_rs-Deduped_example =
    gc_os_remove_dups_in_rs-Deduped remembered remembered-Consistent
