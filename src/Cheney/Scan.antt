-- ===== src/Cheney/Scan.antt =====
-- vm/memory.c: the loop of `gc_cheney_scavenge` over the copies.
use mathlib.Core.Path.{subst}
use kek_on_rails.Base.{
  ℕ, zero, suc, ◌+◌, ◌≤◌, ◌<◌, ◌≡◌, refl, ◌∙◌, inl, inr, some, List, arith, Bool-cases, ltb, ltb→ge,
  sym, ltb→lt,
}
use kek_on_rails.Cheney.{copy_neighbor, scan_loop}
use kek_on_rails.Cheney.Advance.{Layout-first, after_scan-IsCopying, scan-Persists}
use kek_on_rails.Cheney.Copying.{
  IsMoved, Layout, Stands, IsCopying, HasScannedCopy-mono, end, laid, Kept-mono, Persists,
  Persists-refl, Persists-trans, GoesOn-Persists, Fits, Within-mono,
}
use kek_on_rails.Cheney.Fields.{MovesBody, inner_fields-Ends}
use kek_on_rails.Cheney.Inner.{obj_size-same}
use kek_on_rails.Cheney.Moves.{Layout-le, Layout-mono, load_lem}
use kek_on_rails.Cheney.Whole.{IsSound, IsWhole, aligned-le}
use kek_on_rails.Heap.{aligned}
use kek_on_rails.Objects.{Body, Obj}
use kek_on_rails.Outcome.{ok}
use kek_on_rails.Space.{new_segment_size, Space, store, obj_size}
use kek_on_rails.State.{Ends, Ends-bind, ends, Ends-mono}

-- The object that is scanned next.
pub Layout-head :
    {s0 s : Space} {a b : ℕ} {qs : List ℕ}
    → Layout s0 s a qs b
    → a < b
    → (o : Obj) × (n : ℕ) × (s.cell a ≡ some o)
      × IsSound s0 o.cls o.body
      × (obj_size s0.var_count o ≡ ok n)
      × (32 ≤ n)
Layout-head end short = absurd (omega arith)
Layout-head (laid {n} {o} e sound size big rest) short = (o, n, e, sound, size, big)

abbrev pub at_scan : Space → ℕ → Space
at_scan s k = record s { scan_ptr = k }

module _ {s0 s : Space} (k : ℕ) where
  pub at_scan-on : (p q : ℕ) → IsMoved s0 s p q → IsMoved s0 (at_scan s k) p q
  at_scan-on p q m = record {
    old = m.old;
    place = m.place;
    variable = m.variable;
    was = m.was;
    sound = m.sound;
    now = m.now;
  }

  pub at_scan-back : (p q : ℕ) → IsMoved s0 (at_scan s k) p q → IsMoved s0 s p q
  at_scan-back p q m = record {
    old = m.old;
    place = m.place;
    variable = m.variable;
    was = m.was;
    sound = m.sound;
    now = m.now;
  }

  pub at_scan-Persists : Persists s0 s (at_scan s k)
  at_scan-Persists = record { moves = at_scan-on; same_consts = λ p c out. refl }

  at_scan-Stands :
      {d : ℕ} {qs : List ℕ} {old : Obj} {q : ℕ}
      → Stands s0 s d qs old q
      → Stands s0 (at_scan s k) d qs old q
  at_scan-Stands (inl (l, copy)) = inl (l, HasScannedCopy-mono at_scan-on refl copy)
  at_scan-Stands (inr waits) = inr waits

  -- The scan pointer is of no account for the invariant.
  pub at_scan-IsCopying : {d : ℕ} → IsCopying s0 d s → IsCopying s0 d (at_scan s k)
  unfolding at_scan-back
  at_scan-IsCopying h = record {
    spaces = record {
      to_same = h.spaces.to_same;
      from_same = h.spaces.from_same;
      const_same = h.spaces.const_same;
      count_same = h.spaces.count_same;
      generation_same = h.spaces.generation_same;
    };
    pending = h.pending;
    low = h.low;
    high = h.high;
    layout = Layout-mono (λ q l u. refl) h.layout;
    fits = λ f. Within-mono refl (λ p o mortal e. e) (h.fits f);
    one_copy = λ p p' q m k. h.one_copy p p' q (at_scan-back p q m) (at_scan-back p' q k);
    kept = λ p old out was. Kept-mono at_scan-on refl (h.kept p old out was);
    stands =
        λ p q m. let (l, u, st) = h.stands p q (at_scan-back p q m) in (l, u, at_scan-Stands st);
  }

-- What a step of the loop gives: the copies up to `d` have been scanned.
abbrev pub Scans : Space → ℕ → ℕ → Space → Unit {0} → Space → Type 0
Scans s0 d k s _ t = IsCopying s0 d t × Persists s0 s t × (t.scan_ptr ≡ k)

module _ {s0 s : Space} {a n : ℕ} {o : Obj} (whole : IsWhole s0) (h : IsCopying s0 a s)
    (short : a < s.to_space_free) (e : s.cell a ≡ some o) (sound : IsSound s0 o.cls o.body)
    (size : obj_size s0.var_count o ≡ ok n) (big : 32 ≤ n) where
  stored :
      (b : Body) (t : Space)
      → MovesBody s0 a s o.cls o.body b t
      → Ends
          (Fits s0 s0)
          (Scans s0 (a + aligned n) s.scan_ptr s)
          (store a (record o { body = b }) t)
  unfolding store
  stored b t (k, goes_on, scanned) =
      let there : t.cell a ≡ some o = goes_on.same_copies a h.low short ∙ e in
      let (rest, waiting, others) =
        Layout-first k.layout (omega (arith, goes_on.grows)) there size in
      ends (
        after_scan-IsCopying k there size waiting others big scanned,
        Persists-trans (GoesOn-Persists goes_on)
            (scan-Persists k there size waiting others big scanned),
        goes_on.same_scan,
      )

  pub copy_neighbor-Ends :
      Ends (Fits s0 s0) (Scans s0 (a + aligned n) s.scan_ptr s) (copy_neighbor a s)
  unfolding copy_neighbor
  copy_neighbor-Ends =
      rw (load_lem s e) (Ends-bind (inner_fields-Ends whole h o.cls o.body sound) stored)

-- The loop ends with all copies scanned.
abbrev pub Finished : Space → Space → Unit {0} → Space → Type 0
Finished s0 s _ t = IsCopying s0 t.scan_ptr t × Persists s0 s t × (t.to_space_free ≤ t.scan_ptr)

pub scan_loop-Ends :
    {s0 : Space}
    → IsWhole s0
    → (fuel : ℕ) (s : Space) → IsCopying s0 s.scan_ptr s
    → s0.to_space + new_segment_size < s.scan_ptr + fuel
    → Ends (Fits s0 s0) (Finished s0 s) (scan_loop fuel s)
unfolding scan_loop
scan_loop-Ends whole zero s h enough = absurd (omega (arith, h.high, Layout-le h.layout))
scan_loop-Ends {s0} whole (suc fuel) s h enough =
    elim (Bool-cases (ltb s.scan_ptr s.to_space_free)) [
      | inl more ↦
          let short = ltb→lt s.scan_ptr s.to_space_free more in
          let (o, n, e, sound, size, big) = Layout-head h.layout short in
          rw (more, load_lem s e, obj_size-same h o size)
            (Ends-bind (copy_neighbor-Ends whole (at_scan-IsCopying _ h) short e sound size big)
              λ _ t m.
                Ends-mono
                  (scan_loop-Ends whole fuel t (subst (λ d. IsCopying s0 d t) (sym m.2) m.0)
                    (omega (arith, m.2, aligned-le n)))
                  λ _ u f. (f.0, Persists-trans (at_scan-Persists _) (Persists-trans m.1 f.1), f.2))
      | inr all ↦ rw all (ends (h, Persists-refl s0 s, ltb→ge s.scan_ptr s.to_space_free all))
    ]
