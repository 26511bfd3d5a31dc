-- ===== src/Loader/Facts.antt =====
-- vm/loader.c: properties of every image that loads.
use mathlib.Core.List.{map}
use kek_on_rails.Base.{
  ℕ, zero, suc, ◌+◌, ◌≡◌, refl, ap, ◌∙◌, none, some, List, [], ◌∷◌, arith, ltb, if◌then◌else◌,
  length, ◌<◌,
}
use kek_on_rails.Loader.Image.{
  Image, load_magic, load_const_table, load_bc_arr, init_const_sym, init_class_syms,
  init_const_sym_pointers, const_0_is_nil, load_image, kexe_load,
}
use kek_on_rails.Loader.Prefix.{kexe_load-eq-ok}
use kek_on_rails.Loader.Read.{
  Input, lift, load_uint32, uint32_max, checked, load_string, fread, load_bytes,
}
use kek_on_rails.Loader.Records.{
  Symbol, SymTable, LoadedClass, load_sym, load_syms_loop, syms_rounds, load_syms, load_methods,
  load_method_if, load_class, load_classes_loop, load_classes,
}
use kek_on_rails.Loader.Rules.{Gives, Gives-bind, Gives-pure, Gives-any, then_load-eq-ok}
use kek_on_rails.Outcome.{ok, require, bad_access}

abbrev pub AllSyms : (Symbol → Type 0) → List Symbol → Type 0
AllSyms P [] = Unit
AllSyms P (s ∷ ss) = P s × AllSyms P ss

abbrev pub AllClasses : (LoadedClass → Type 0) → List LoadedClass → Type 0
AllClasses P [] = Unit
AllClasses P (c ∷ cs) = P c × AllClasses P cs

-- A symbol as it stands after the reading of its record: no value yet.
abbrev IsFresh : Symbol → Type 0
IsFresh s = (s.value ≡ none) × (s.const_flag ≡ ltb 0 s.const_ptr)

-- A constant's value is its offset; the memory of a variable's value was never written.
abbrev pub HasConstValue : Symbol → Type 0
HasConstValue s = s.value ≡ (if ltb 0 s.const_ptr then some s.const_ptr else none)

-- The count of static symbols is that of the symbols read, unless it is above 2 ^ 31.
abbrev pub HasSymsRead : SymTable → Type 0
HasSymsRead t = length t.syms ≡ syms_rounds t.cnt

abbrev FreshTable : SymTable → Type 0
FreshTable t = AllSyms IsFresh t.syms × HasSymsRead t

load_sym-IsFresh : Gives IsFresh load_sym
unfolding load_sym
load_sym-IsFresh = Gives-bind _ _ (Gives-any load_string) λ name _.
    Gives-bind _ _ (Gives-any (checked uint32_max load_uint32)) λ addr _.
      Gives-bind _ _ (Gives-any (checked uint32_max load_uint32))
        λ ptr _. Gives-pure IsFresh _ (refl, refl)

load_syms_loop-IsFresh :
    (n : ℕ) (acc : List Symbol)
    → AllSyms IsFresh acc
    → Gives (λ ss. AllSyms IsFresh ss × (length ss ≡ n + length acc)) (load_syms_loop n acc)
unfolding load_syms_loop
load_syms_loop-IsFresh zero acc h = Gives-pure _ acc (h, omega arith)
load_syms_loop-IsFresh (suc n) acc h = Gives-bind _ _ load_sym-IsFresh λ s hs f ss r e.
    let (all, len) = load_syms_loop-IsFresh n (s ∷ acc) (hs, h) f ss r e in (all, omega arith)

load_syms-FreshTable : Gives FreshTable load_syms
unfolding load_syms
load_syms-FreshTable = Gives-bind _ _ (Gives-any (checked uint32_max load_uint32)) λ cnt _.
    Gives-bind _ _ (load_syms_loop-IsFresh _ [] tt)
      λ syms h. Gives-pure FreshTable _ (h.0, omega (arith, h.1))

abbrev FreshClass : LoadedClass → Type 0
FreshClass c = FreshTable c.syms_static

load_class-FreshClass : Gives FreshClass load_class
unfolding load_class
load_class-FreshClass = Gives-bind _ _ (Gives-any load_string) λ name _.
    Gives-bind _ _ (Gives-any load_string) λ parent _.
      Gives-bind _ _ load_syms-FreshTable λ static h. Gives-bind _ _ (Gives-any load_syms) λ inst _.
        Gives-bind _ _ (Gives-any load_method_if) λ init _.
          Gives-bind _ _ (Gives-any load_method_if)
            λ ctor _. Gives-bind _ _ (Gives-any load_methods) λ ms _. Gives-pure FreshClass _ h

load_classes_loop-FreshClass :
    (capacity i n : ℕ) → Gives (AllClasses FreshClass) (load_classes_loop capacity i n)
unfolding load_classes_loop
load_classes_loop-FreshClass capacity i zero = Gives-pure _ [] tt
load_classes_loop-FreshClass capacity i (suc n) =
    Gives-bind (lift (require (ltb i capacity) bad_access)) _ (Gives-any _) λ _ _.
      Gives-bind _ _ load_class-FreshClass λ c h.
        Gives-bind _ _ (load_classes_loop-FreshClass capacity (suc i) n)
          λ cs hs. Gives-pure (AllClasses FreshClass) _ (h, hs)

load_classes-FreshClass : Gives (AllClasses FreshClass) load_classes
unfolding load_classes
load_classes-FreshClass =
    Gives-bind _ _ (Gives-any (checked uint32_max load_uint32))
      λ cnt _. load_classes_loop-FreshClass _ 0 cnt

-- The static symbols of a class after loading.
abbrev pub HasStaticValues : LoadedClass → Type 0
HasStaticValues c = AllSyms HasConstValue c.syms_static.syms × HasSymsRead c.syms_static

init_const_sym_lem : (s : Symbol) → IsFresh s → HasConstValue (init_const_sym s)
unfolding init_const_sym
init_const_sym_lem s h = ground arith

AllSyms-map-init :
    (ss : List Symbol)
    → AllSyms IsFresh ss
    → AllSyms HasConstValue (map init_const_sym ss) × (length (map init_const_sym ss) ≡ length ss)
AllSyms-map-init [] h = (tt, refl)
AllSyms-map-init (s ∷ ss) (h, hs) =
    let (all, len) = AllSyms-map-init ss hs in ((init_const_sym_lem s h, all), ap suc len)

AllClasses-init :
    (cs : List LoadedClass)
    → AllClasses FreshClass cs
    → AllClasses HasStaticValues (init_const_sym_pointers cs)
unfolding init_const_sym_pointers init_class_syms
AllClasses-init [] h = tt
AllClasses-init (c ∷ cs) ((h, read), hs) =
    let (all, len) = AllSyms-map-init c.syms_static.syms h in
    ((all, len ∙ read), AllClasses-init cs hs)

abbrev HasImageValues : Image → Type 0
HasImageValues im = AllClasses HasStaticValues im.classes

load_image-HasStaticValues : Gives HasImageValues load_image
unfolding load_image
load_image-HasStaticValues = Gives-bind _ _ (Gives-any load_magic) λ _ _.
    Gives-bind _ _ load_classes-FreshClass λ cs h.
      Gives-bind _ _ (Gives-any load_const_table) λ table _.
        Gives-bind _ _ (Gives-any load_bc_arr) λ code _.
          Gives-bind _ _ (Gives-any (lift (const_0_is_nil table)))
            λ _ _. Gives-pure HasImageValues _ (AllClasses-init cs h)

-- Whatever file loads: a static symbol with a constant offset has that offset as its value, every
-- other static symbol has a value that was never written, and the symbols of a class are as many
-- as its count says, or none where the count is above 2 ^ 31.
pub kexe_load-HasStaticValues :
    (f : Input) (im : Image) → kexe_load (some f) ≡ ok im → AllClasses HasStaticValues im.classes
kexe_load-HasStaticValues f im h =
    let (r, e) = kexe_load-eq-ok f h in load_image-HasStaticValues f im r e

-- The bytes of the magic number, lowest first.
abbrev pub BeginsWithMagic : Input → Type 0
BeginsWithMagic (a ∷ b ∷ c ∷ d ∷ rest) = (a ≡ 0xec) × (b ≡ 0x6c) × (c ≡ 0x66) × (d ≡ 0x42)
BeginsWithMagic _ = ⊥

abbrev pub AllBytes : Input → Type 0
AllBytes [] = Unit
AllBytes (b ∷ bs) = (b < 256) × AllBytes bs

magic_bytes : (f : Input) → AllBytes f → Gives (λ _. BeginsWithMagic f) (λ g. load_magic f)
unfolding load_magic checked load_uint32 load_bytes fread
magic_bytes [] h g a r e = cc
magic_bytes (a ∷ []) h g _ r e = cc
magic_bytes (a ∷ b ∷ []) h g _ r e = cc
magic_bytes (a ∷ b ∷ c ∷ []) h g _ r e = cc
magic_bytes (a ∷ b ∷ c ∷ d ∷ f) h g _ r e = ground arith

-- Only a file that begins with the magic number 0x42666CEC loads: any other, also one shorter than
-- four bytes, ends the machine.
pub kexe_load-BeginsWithMagic :
    (f : Input) (im : Image) → AllBytes f → kexe_load (some f) ≡ ok im → BeginsWithMagic f
unfolding load_image
kexe_load-BeginsWithMagic f im h e =
    let (r, e') = kexe_load-eq-ok f e in
    let (_, r', m, _) = then_load-eq-ok (load_magic f) _ e' in magic_bytes f h f tt r' m
