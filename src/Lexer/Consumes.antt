-- ===== src/Lexer/Consumes.antt =====
-- compiler/lexan.cpp: each symbol but the end of the input takes characters from it.
use mathlib.Core.Path.{subst}
use kek_on_rails.Base.{
  ℕ, zero, suc, ◌+◌, ◌-◌, ◌*◌, ◌^◌, ◌≤◌, ◌<◌, ◌≡◌, refl, sym, ap, ◌⊎◌, inl, inr, Bool, true, false,
  ◌&&◌, Option, none, some, List, [], ◌∷◌, arith, ltb, ◌==◌, if◌then◌else◌, Bool-cases, length,
}
use kek_on_rails.Classes.Names.{ok_same}
use kek_on_rails.Lexer.{
  LexSymbolType, LexicalSymbol, InputCharType, between, input_type, is_blank, skip_blank, op_char,
  Next, op_or, operators, operator_in, line_comment, long_comment, slash_next, max_ident_len,
  is_ident_char, ident_span, ident_next, decimal, hex_digit, is_letter, hex_end, hexadecimal,
  number_next, escaped, with_char, text_span, text_next, typed_next, special_next, char_next,
  lex_step, go_on, read_lexem, sy_eoi, in_letter, in_number, in_underscore, in_white_space,
  in_new_line, in_end, in_no_type, emits, again,
}
use kek_on_rails.Outcome.{◌>>=◌, ◌>>◌, Stop, Outcome, require, bad_access, undefined, ok, stop}

-- A name with or without the character `c`.
abbrev cut_name : Bool → ℕ → List ℕ → List ℕ × List ℕ
cut_name b c cs = if b then (c ∷ (ident_span cs).0, (ident_span cs).1) else ([], c ∷ cs)

-- Fewer than `n` characters are left, or the input is at its end.
abbrev pub Consumes : ℕ → Outcome Next → Type 0
Consumes n (ok (emits y rest)) = (y.type ≡ sy_eoi) ⊎ (length rest < n)
Consumes n (ok (again rest)) = length rest < n
Consumes n (stop e) = Unit {0}

if-Consumes :
    (b : Bool) (n : ℕ) (x y : Outcome Next)
    → Consumes n x
    → Consumes n y
    → Consumes n (if b then x else y)
if-Consumes true n x y p q = p
if-Consumes false n x y p q = q

require-Consumes :
    (b : Bool) (e : Stop) (n : ℕ) (x : Outcome Next) → Consumes n x → Consumes n (require b e >> x)
require-Consumes true e n x p = p
require-Consumes false e n x p = tt

skip_blank-length : (cs : List ℕ) → length (skip_blank cs) ≤ length cs
unfolding skip_blank
skip_blank-length [] = omega arith
skip_blank-length (c ∷ cs) = elim (Bool-cases (is_blank (input_type c))) [
  | inl blank_char ↦
      subst (λ b. length (if b then skip_blank cs else c ∷ cs) ≤ length (c ∷ cs)) (sym blank_char)
        (omega (arith, skip_blank-length cs))
  | inr other ↦
      subst (λ b. length (if b then skip_blank cs else c ∷ cs) ≤ length (c ∷ cs)) (sym other)
        (omega arith)
]

line_comment-Consumes : (n : ℕ) (cs : List ℕ) → length cs ≤ n → Consumes n (line_comment cs)
unfolding line_comment
line_comment-Consumes n [] h = tt
line_comment-Consumes n (c ∷ cs) h = if-Consumes (c == 255) n _ _ tt (
    if-Consumes (c == 10) n (ok (again cs)) (line_comment cs) (omega (arith, h))
      (line_comment-Consumes n cs (omega (arith, h))))

long_comment-Consumes :
    (after_star : Bool) (n : ℕ) (cs : List ℕ)
    → length cs ≤ n
    → Consumes n (long_comment after_star cs)
unfolding long_comment
long_comment-Consumes after_star n [] h = tt
long_comment-Consumes after_star n (c ∷ cs) h =
    if-Consumes (after_star && (c == 47)) n (ok (again cs)) _ (omega (arith, h))
      (if-Consumes (c == 255) n _ _ tt (long_comment-Consumes (c == 42) n cs (omega (arith, h))))

slash_next-Consumes : (n : ℕ) (cs : List ℕ) → length cs < n → Consumes n (slash_next cs)
slash_next-Consumes n [] h = inr h
slash_next-Consumes n (c ∷ cs) h = if-Consumes (c == 61) n _ _ (inr (omega (arith, h))) (
    if-Consumes (c == 47) n _ _ (line_comment-Consumes n cs (omega (arith, h)))
      (if-Consumes (c == 42) n _ _ (long_comment-Consumes false n cs (omega (arith, h))) (inr h)))

decimal-Consumes : (m n : ℕ) (cs : List ℕ) → length cs < m → Consumes m (decimal n cs)
unfolding decimal
decimal-Consumes m n [] h = inr h
decimal-Consumes m n (c ∷ cs) h =
    if-Consumes (between 48 57 c) m _ _
      (require-Consumes (ltb (10 * n + (c - 48)) (2 ^ 31)) undefined m _
        (decimal-Consumes m (10 * n + (c - 48)) cs (omega (arith, h))))
      (inr h)

-- What a digit, or a character that is none, makes of the rest.
hexadecimal_rest-Consumes :
    (x : Option ℕ) (m n c : ℕ) (cs : List ℕ)
    → length (c ∷ cs) < m
    → ((k : ℕ) → Consumes m (hexadecimal k cs))
    → Consumes m (elim x as (λ _. Outcome Next) [
      | none ↦ hex_end n c cs
      | some d ↦ require (ltb (16 * n + d) (2 ^ 31)) undefined >> hexadecimal (16 * n + d) cs
    ])
hexadecimal_rest-Consumes none m n c cs h more =
    if-Consumes (is_letter (input_type c)) m _ _ tt (inr h)
hexadecimal_rest-Consumes (some d) m n c cs h more =
    require-Consumes (ltb (16 * n + d) (2 ^ 31)) undefined m _ (more (16 * n + d))

hexadecimal-Consumes : (m n : ℕ) (cs : List ℕ) → length cs < m → Consumes m (hexadecimal n cs)
unfolding hexadecimal
hexadecimal-Consumes m n [] h = inr h
hexadecimal-Consumes m n (c ∷ cs) h =
    hexadecimal_rest-Consumes (hex_digit c) m n c cs h
      (λ k. hexadecimal-Consumes m k cs (omega (arith, h)))

number_next-Consumes : (m n : ℕ) (cs : List ℕ) → length cs < m → Consumes m (number_next n cs)
number_next-Consumes m n [] h = decimal-Consumes m n [] h
number_next-Consumes m n (c ∷ cs) h =
    if-Consumes ((n == 0) && (c == 120)) m _ _ (hexadecimal-Consumes m 0 cs (omega (arith, h)))
      (decimal-Consumes m n (c ∷ cs) h)

ident_span-length : (cs : List ℕ) → length ((ident_span cs).1) ≤ length cs
unfolding ident_span
ident_span-length [] = omega arith
ident_span-length (c ∷ cs) = elim (Bool-cases (is_ident_char (input_type c))) [
  | inl goes_with ↦
      subst (λ b. length ((cut_name b c cs).1) ≤ length (c ∷ cs)) (sym goes_with)
        (omega (arith, ident_span-length cs))
  | inr other ↦
      subst (λ b. length ((cut_name b c cs).1) ≤ length (c ∷ cs)) (sym other) (omega arith)
]

ident_next-Consumes :
    (m c : ℕ) (cs : List ℕ)
    → is_ident_char (input_type c) ≡ true
    → length cs < m
    → Consumes m (ident_next (ident_span (c ∷ cs)))
unfolding ident_span
ident_next-Consumes m c cs e h =
    subst (λ b. Consumes m (ident_next (cut_name b c cs))) (sym e)
      (require-Consumes (ltb (length (c ∷ (ident_span cs).0)) max_ident_len) bad_access m _
        (inr (omega (arith, ident_span-length cs, h))))

-- Fewer than `n` characters are left behind a text.
abbrev Shortens : ℕ → Outcome (List ℕ × List ℕ) → Type 0
Shortens n (ok (text, rest)) = length rest < n
Shortens n (stop e) = Unit {0}

with_char-Shortens :
    (n c : ℕ) (x : Outcome (List ℕ × List ℕ)) → Shortens n x → Shortens n (with_char c x)
with_char-Shortens n c (ok (text, rest)) p = p
with_char-Shortens n c (stop e) p = tt

if-Shortens :
    (b : Bool) (n : ℕ) (x y : Outcome (List ℕ × List ℕ))
    → Shortens n x
    → Shortens n y
    → Shortens n (if b then x else y)
if-Shortens true n x y p q = p
if-Shortens false n x y p q = q

text_span-Shortens :
    (backslash : Bool) (n : ℕ) (cs : List ℕ) → length cs ≤ n → Shortens n (text_span backslash cs)
unfolding text_span
text_span-Shortens true n [] h = tt
text_span-Shortens false n [] h = tt
text_span-Shortens true n (c ∷ cs) h =
    with_char-Shortens n (escaped c) _ (text_span-Shortens false n cs (omega (arith, h)))
text_span-Shortens false n (c ∷ cs) h =
    let rest = text_span-Shortens (c == 92) n cs (omega (arith, h)) in
    if-Shortens (c == 34) n _ _ (omega (arith, h))
      (if-Shortens (c == 92) n _ _ rest (with_char-Shortens n c _ rest))

text_next-Consumes :
    (m : ℕ) (x : Outcome (List ℕ × List ℕ)) → Shortens m x → Consumes m (x >>= text_next)
text_next-Consumes m (ok (text, rest)) p =
    require-Consumes (ltb (length text) max_ident_len) bad_access m _ (inr p)
text_next-Consumes m (stop e) p = tt

typed_next-Consumes :
    (y : InputCharType) (m c : ℕ) (cs : List ℕ)
    → input_type c ≡ y
    → length cs < m
    → Consumes m (typed_next y c cs)
typed_next-Consumes in_new_line m c cs e h = inr (omega (arith, skip_blank-length cs, h))
typed_next-Consumes in_white_space m c cs e h = h
typed_next-Consumes in_letter m c cs e h = ident_next-Consumes m c cs (ap is_ident_char e) h
typed_next-Consumes in_underscore m c cs e h = ident_next-Consumes m c cs (ap is_ident_char e) h
typed_next-Consumes in_number m c cs e h = number_next-Consumes m (c - 48) cs h
typed_next-Consumes in_end m c cs e h = inl refl
typed_next-Consumes in_no_type m c cs e h = tt

special_next-Consumes : (m c : ℕ) (cs : List ℕ) → length cs < m → Consumes m (special_next c cs)
special_next-Consumes m c cs h = if-Consumes (c == 47) m _ _ (slash_next-Consumes m cs h) (
    if-Consumes (c == 59) m _ _ (inr (omega (arith, skip_blank-length cs, h))) (
      if-Consumes (c == 34) m _ _
        (text_next-Consumes m (text_span false cs)
          (text_span-Shortens false m cs (omega (arith, h))))
        (typed_next-Consumes (input_type c) m c cs refl h)))

op_or-Consumes :
    (x : Option LexSymbolType) (short : LexSymbolType) (m c : ℕ) (cs : List ℕ)
    → length (c ∷ cs) < m
    → Consumes m (ok (op_or x short c cs))
op_or-Consumes none short m c cs h = inr h
op_or-Consumes (some y) short m c cs h = inr (omega (arith, h))

char_next-Consumes :
    (op : Option (List (ℕ × LexSymbolType) × LexSymbolType)) (m c : ℕ) (cs : List ℕ)
    → length cs < m
    → Consumes m (char_next op c cs)
char_next-Consumes none m c cs h = special_next-Consumes m c cs h
char_next-Consumes (some (longer, short)) m c [] h = inr h
char_next-Consumes (some (longer, short)) m c (d ∷ cs) h =
    op_or-Consumes (op_char longer d) short m d cs h

lex_step-Consumes : (cs : List ℕ) → Consumes (length cs) (lex_step cs)
unfolding lex_step
lex_step-Consumes [] = inl refl
lex_step-Consumes (c ∷ cs) =
    char_next-Consumes (operator_in operators c) (length (c ∷ cs)) c cs (omega arith)

-- The symbol is that of the end of the input, or fewer than `n` characters are left behind it.
abbrev pub ReadsOn : ℕ → LexicalSymbol × List ℕ → Type 0
ReadsOn n (y, rest) = (y.type ≡ sy_eoi) ⊎ (length rest < n)

go_on-ReadsOn :
    (n : ℕ) (x : Outcome Next) (more : List ℕ → Outcome (LexicalSymbol × List ℕ))
    (r : LexicalSymbol × List ℕ)
    → Consumes n x
    → (x >>= go_on more) ≡ ok r
    → ((rest : List ℕ) → more rest ≡ ok r → ReadsOn (length rest) r)
    → ReadsOn n r
go_on-ReadsOn n (ok (emits y rest)) more r p e next = subst (ReadsOn n) (ok_same e) p
go_on-ReadsOn n (ok (again rest)) more (y, left) p e next = elim (next rest e) [
  | inl at_end ↦ inl at_end
  | inr fewer ↦ inr (omega (arith, fewer, p))
]
go_on-ReadsOn n (stop why) more r p e next = cc

-- A symbol that the lexer gives, whatever the fuel, is that of the end of the input, or fewer
-- characters are left behind it than there were before it.
pub read_lexem-ReadsOn :
    (fuel : ℕ) (cs : List ℕ) (y : LexicalSymbol) (rest : List ℕ)
    → read_lexem fuel cs ≡ ok (y, rest)
    → ReadsOn (length cs) (y, rest)
unfolding read_lexem
read_lexem-ReadsOn zero cs y rest e = cc
read_lexem-ReadsOn (suc fuel) cs y rest e =
    go_on-ReadsOn (length cs) (lex_step cs) (read_lexem fuel) (y, rest) (lex_step-Consumes cs) e
      (λ left e'. read_lexem-ReadsOn fuel left y rest e')
