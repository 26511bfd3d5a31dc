-- ===== src/Loader/Prefix.antt =====
-- vm/loader.c: files that are cut short.
use mathlib.Core.List.{append-nil}
use kek_on_rails.Base.{
  ℕ, zero, suc, ◌≡◌, refl, ap, ◌≢◌, Bool, true, false, Option, none, some, List, [], ◌∷◌, ◌++◌,
  arith, ◌==◌, if◌then◌else◌, length, length-append,
}
use kek_on_rails.Loader.Image.{
  Image, load_magic, load_const_table, load_bc_arr, load_image, kexe_load,
}
use kek_on_rails.Loader.Read.{◌>>=◌, Input, pure, load_bytes, load_size, size_max, checked}
use kek_on_rails.Loader.Records.{
  Symbol, Method, load_sym, load_syms_loop, load_syms, load_method, load_methods_loop, load_methods,
  load_method_if, load_class, load_classes_loop, load_classes,
}
use kek_on_rails.Loader.RoundTrip.File.{FitsProgram, load_image-bcout_to_file}
use kek_on_rails.Loader.Rules.{
  Extends, Extends-bind, Extends-pure, Extends-lift, load_bytes-Extends, load_uint8-Extends,
  load_uint32-Extends, load_size-Extends, checked-Extends, load_string-Extends,
}
use kek_on_rails.Loader.Writer.{Program, bcout_to_file, image_of}
use kek_on_rails.Outcome.{Outcome, ok, stop}

load_sym-Extends : Extends load_sym
unfolding load_sym
load_sym-Extends = Extends-bind _ _ load_string-Extends λ name.
    Extends-bind _ _ (checked-Extends _ _ load_uint32-Extends)
      λ addr. Extends-bind _ _ (checked-Extends _ _ load_uint32-Extends) λ ptr. Extends-pure _

load_syms_loop-Extends : (n : ℕ) (acc : List Symbol) → Extends (load_syms_loop n acc)
unfolding load_syms_loop
load_syms_loop-Extends zero acc = Extends-pure acc
load_syms_loop-Extends (suc n) acc =
    Extends-bind _ _ load_sym-Extends λ s. load_syms_loop-Extends n (s ∷ acc)

load_syms-Extends : Extends load_syms
unfolding load_syms
load_syms-Extends =
    Extends-bind _ _ (checked-Extends _ _ load_uint32-Extends)
      λ cnt. Extends-bind _ _ (load_syms_loop-Extends _ []) λ syms. Extends-pure _

load_method-Extends : Extends load_method
unfolding load_method
load_method-Extends = Extends-bind _ _ load_string-Extends λ name.
    Extends-bind _ _ (checked-Extends _ _ load_uint32-Extends) λ args.
      Extends-bind _ _ (checked-Extends _ _ load_uint32-Extends) λ locals.
        Extends-bind _ _ (checked-Extends _ _ load_uint32-Extends) λ entry.
          Extends-bind _ _ (checked-Extends _ _ load_uint8-Extends) λ static. Extends-pure _

load_methods_loop-Extends : (n : ℕ) → Extends (load_methods_loop n)
unfolding load_methods_loop
load_methods_loop-Extends zero = Extends-pure []
load_methods_loop-Extends (suc n) =
    Extends-bind _ _ load_method-Extends
      λ m. Extends-bind _ _ (load_methods_loop-Extends n) λ ms. Extends-pure _

load_methods-Extends : Extends load_methods
unfolding load_methods
load_methods-Extends =
    Extends-bind _ _ (checked-Extends _ _ load_uint32-Extends) λ cnt. load_methods_loop-Extends cnt

load_flagged-Extends :
    (b : Bool)
    → Extends (if b then pure {A = Option Method} none else (load_method >>= λ m. pure (some m)))
load_flagged-Extends true = Extends-pure none
load_flagged-Extends false = Extends-bind _ _ load_method-Extends λ m. Extends-pure _

load_method_if-Extends : Extends load_method_if
unfolding load_method_if
load_method_if-Extends =
    Extends-bind _ _ (checked-Extends _ _ load_uint8-Extends) λ has. load_flagged-Extends (has == 0)

load_class-Extends : Extends load_class
unfolding load_class
load_class-Extends = Extends-bind _ _ load_string-Extends λ name.
    Extends-bind _ _ load_string-Extends λ parent. Extends-bind _ _ load_syms-Extends λ static.
      Extends-bind _ _ load_syms-Extends λ instance'.
        Extends-bind _ _ load_method_if-Extends λ init.
          Extends-bind _ _ load_method_if-Extends
            λ ctor. Extends-bind _ _ load_methods-Extends λ ms. Extends-pure _

load_classes_loop-Extends : (capacity i n : ℕ) → Extends (load_classes_loop capacity i n)
unfolding load_classes_loop
load_classes_loop-Extends capacity i zero = Extends-pure []
load_classes_loop-Extends capacity i (suc n) = Extends-bind _ _ (Extends-lift _) λ _.
    Extends-bind _ _ load_class-Extends
      λ c. Extends-bind _ _ (load_classes_loop-Extends capacity (suc i) n) λ cs. Extends-pure _

load_classes-Extends : Extends load_classes
unfolding load_classes
load_classes-Extends =
    Extends-bind _ _ (checked-Extends _ _ load_uint32-Extends)
      λ cnt. load_classes_loop-Extends _ 0 cnt

load_table-Extends : Extends (checked size_max load_size >>= load_bytes)
load_table-Extends =
    Extends-bind _ _ (checked-Extends _ _ load_size-Extends) λ cnt. load_bytes-Extends cnt

load_image-Extends : Extends load_image
unfolding load_image load_magic load_const_table load_bc_arr
load_image-Extends =
    Extends-bind _ _
      (Extends-bind _ _ (checked-Extends _ _ load_uint32-Extends) λ n. Extends-lift _)
      λ _. Extends-bind _ _ load_classes-Extends λ cs. Extends-bind _ _ load_table-Extends λ table.
        Extends-bind _ _ load_table-Extends
          λ code. Extends-bind _ _ (Extends-lift _) λ _. Extends-pure _

pub kexe_load-eq-ok :
    (f : Input) {im : Image}
    → kexe_load (some f) ≡ ok im
    → (r : Input) × (load_image f ≡ ok (im, r))
unfolding kexe_load
kexe_load-eq-ok f h = go (load_image f) refl h
  where
    go :
        {im : Image} (o : Outcome (Image × Input))
        → load_image f ≡ o
        → (elim o [ ok (im', _) ↦ ok im' | stop e ↦ stop e ]) ≡ ok im
        → (r : Input) × (load_image f ≡ ok (im, r))
    go (ok (im', r)) e h = (r, cc)
    go (stop x) e h = cc

ok_rest :
    {o o' : Outcome (Image × Input)} (im im' : Image) (r r' : Input)
    → o ≡ ok (im, r)
    → o' ≡ ok (im', r')
    → o ≡ o'
    → r ≡ r'
ok_rest im im' r r' h h' e = cc

-- A file that the compiler wrote for a program within the format, cut anywhere short of its last
-- byte, does not load: no proper prefix of it gives an image.
pub kexe_load-prefix :
    (p : Program) (f : Input) (b : ℕ) (g : Input)
    → FitsProgram p
    → bcout_to_file p ≡ f ++ b ∷ g
    → (im : Image) → kexe_load (some f) ≢ ok im
kexe_load-prefix p f b g fits e im h =
    let (r, loaded) = kexe_load-eq-ok f h in
    let longer : load_image (f ++ b ∷ g) ≡ ok (im, r ++ b ∷ g) =
      load_image-Extends f (b ∷ g) im r loaded in
    let whole : load_image (f ++ b ∷ g) ≡ ok (image_of p, []) =
      rw (← e, ← append-nil (bcout_to_file p)) (load_image-bcout_to_file p fits []) in
    let rest : r ++ b ∷ g ≡ [] = ok_rest im (image_of p) _ _ longer whole refl in
    absurd (omega (arith, length-append r (b ∷ g), ap length rest))
