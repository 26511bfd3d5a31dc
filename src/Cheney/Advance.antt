-- ===== src/Cheney/Advance.antt =====
-- vm/memory.c: `gc_cheney_copy_neighbor` keeps the invariant, with one more copy scanned.
use mathlib.Core.Path.{subst}
use kek_on_rails.Base.{
  ℕ, ◌+◌, ◌<◌, ◌≡◌, refl, sym, ap, ◌∙◌, some, List, ◌∷◌, arith, ◌≤◌, ◌≢◌, inl, inr,
}
use kek_on_rails.Cheney.Copying.{
  Layout, end, laid, IsMoved, IsScanned, HasScannedCopy, Pending, Stands, IsCopying, IsScanned-mono,
  HasScannedCopy-mono, first, later, Kept-mono, Persists, Within-mono,
}
use kek_on_rails.Cheney.Moves.{Layout-le, Pending-le, Layout-mono, update_self, update_ne}
use kek_on_rails.Cheney.Steps.{place-ne}
use kek_on_rails.Cheney.Whole.{Outside, aligned-le}
use kek_on_rails.Classes.Names.{ok_same, some_same}
use kek_on_rails.Heap.{aligned, update}
use kek_on_rails.Objects.{Obj, Body}
use kek_on_rails.Outcome.{ok}
use kek_on_rails.Space.{Space, obj_size, new_segment_size}

-- The first of the copies that wait, and the others.
pub Layout-first :
    {s0 t : Space} {a b n : ℕ} {qs : List ℕ} {o : Obj}
    → Layout s0 t a qs b
    → a < b
    → t.cell a ≡ some o
    → obj_size s0.var_count o ≡ ok n
    → (rest : List ℕ) × (qs ≡ a ∷ rest) × Layout s0 t (a + aligned n) rest b
Layout-first end short e size = absurd (omega arith)
Layout-first {s0} {t} {n} (laid {a} {b} {n = n'} {qs} {o = o'} e' sound size' big rest) short e
      size =
    let same = some_same (sym e' ∙ e) in
    let same_size : n' ≡ n = ok_same (sym size' ∙ ap (λ x. obj_size s0.var_count x) same ∙ size) in
    (qs, refl, subst (λ x. Layout s0 t (a + aligned x) qs b) same_size rest)

module _ {s0 t : Space} {a n : ℕ} {o : Obj} {b : Body} {rest : List ℕ} (h : IsCopying s0 a t)
    (e : t.cell a ≡ some o) (size : obj_size s0.var_count o ≡ ok n) (waiting : h.pending ≡ a ∷ rest)
    (others : Layout s0 t (a + aligned n) rest t.to_space_free) (big : 32 ≤ n)
    (scanned : IsScanned s0 t o.cls o.body b) where
  abbrev pub after_scan : Space
  after_scan = record t { cell = update t.cell a (record o { body = b }) }

  inside : a < s0.to_space + new_segment_size
  inside = omega (arith, aligned-le n, Layout-le others, h.high)

  not_a : (p : ℕ) → Outside s0 p → a ≢ p
  not_a p out f = place-ne s0 p a out h.low inside (sym f)

  pub scan_moves : (p q : ℕ) → IsMoved s0 t p q → IsMoved s0 after_scan p q
  scan_moves p q m = record {
    old = m.old;
    place = m.place;
    variable = m.variable;
    was = m.was;
    sound = m.sound;
    now = update_ne t.cell a p _ (not_a p m.place) ∙ m.now;
  }

  pub scan-Persists : Persists s0 t after_scan
  scan-Persists = record {
    moves = scan_moves;
    same_consts = λ p c out. update_ne t.cell a p _ (not_a p out);
  }

  back : (p q : ℕ) → IsMoved s0 after_scan p q → IsMoved s0 t p q
  back p q m = record {
    old = m.old;
    place = m.place;
    variable = m.variable;
    was = m.was;
    sound = m.sound;
    now = sym (update_ne t.cell a p _ (not_a p m.place)) ∙ m.now;
  }

  scanned_copy : (old : Obj) → t.cell a ≡ some old → HasScannedCopy s0 after_scan old a
  scanned_copy old there =
      let same : o ≡ old = some_same (sym e ∙ there) in
      subst (λ x. HasScannedCopy s0 after_scan x a) same
        (record {
          body = b;
          copy = update_self t.cell a (record o { body = b });
          scanned = IsScanned-mono scan_moves scanned;
        })

  pending_on :
      (old : Obj) (q : ℕ)
      → Pending q (a ∷ rest)
      → t.cell q ≡ some old
      → Stands s0 after_scan (a + aligned n) rest old q
  pending_on old q first there = inl (omega (arith, aligned-le n), scanned_copy old there)
  pending_on old q (later waits) there =
      let (l, u) = Pending-le others waits in
      inr (waits, update_ne t.cell a q _ (λ f. absurd (omega (arith, aligned-le n, l, f))) ∙ there)

  Stands-after :
      (old : Obj) (q : ℕ)
      → Stands s0 t a h.pending old q
      → Stands s0 after_scan (a + aligned n) rest old q
  Stands-after old q (inl (below_a, copy)) = inl (
    omega arith,
    HasScannedCopy-mono scan_moves (update_ne t.cell a q _ (λ f. absurd (omega (arith, f)))) copy,
  )
  Stands-after old q (inr (waits, there)) = pending_on old q (subst (Pending q) waiting waits) there

  pub after_scan-IsCopying : IsCopying s0 (a + aligned n) after_scan
  unfolding back
  after_scan-IsCopying = record {
    spaces = record {
      to_same = h.spaces.to_same;
      from_same = h.spaces.from_same;
      const_same = h.spaces.const_same;
      count_same = h.spaces.count_same;
      generation_same = h.spaces.generation_same;
    };
    pending = rest;
    low = omega (arith, h.low);
    high = h.high;
    layout =
        Layout-mono
          (λ q l u. update_ne t.cell a q _ (λ f. absurd (omega (arith, aligned-le n, l, f))))
          others;
    fits = λ f.
        Within-mono refl (λ p x mortal g. sym (update_ne t.cell a p _ (not_a p mortal.place)) ∙ g)
          (h.fits f);
    one_copy = λ p p' q m k. h.one_copy p p' q (back p q m) (back p' q k);
    kept = λ p old out was.
        Kept-mono scan_moves (update_ne t.cell a p _ (not_a p out)) (h.kept p old out was);
    stands = λ p q m. let (l, u, st) = h.stands p q (back p q m) in (l, u, Stands-after m.old q st);
  }
