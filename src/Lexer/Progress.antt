-- ===== src/Lexer/Progress.antt =====
-- compiler/lexan.cpp: each way through the lexer that gives no symbol reads something.
use kek_on_rails.Base.{
  ℕ, zero, suc, ◌+◌, ◌-◌, ◌*◌, ◌^◌, ◌≤◌, ◌<◌, ◌≡◌, Bool, true, false, ◌&&◌, Option, none, some,
  List, [], ◌∷◌, arith, ltb, ◌==◌, if◌then◌else◌, length,
}
use kek_on_rails.Lexer.{
  LexSymbolType, LexicalSymbol, InputCharType, between, input_type, op_char, Next, op_or, operators,
  operator_in, line_comment, long_comment, slash_next, max_ident_len, ident_span, ident_next,
  decimal, hex_digit, is_letter, hexadecimal, number_next, escaped, with_char, text_span, text_next,
  typed_next, special_next, char_next, lex_step, go_on, read_lexem, in_letter, in_number,
  in_underscore, in_white_space, in_new_line, in_no_type, emits, again, hex_end, in_end,
}
use kek_on_rails.Outcome.{
  ◌>>=◌, ◌>>◌, Stop, Outcome, require, vm_error, bad_access, undefined, out_of_fuel, ok, stop,
}

-- `x` does not stop for want of fuel.
abbrev pub IsFuelled : {A : Type 0} → Outcome A → Type 0
IsFuelled (ok a) = Unit {0}
IsFuelled (stop e) = ¬ (e ≡ out_of_fuel)

-- Where the lexer goes on, fewer than `n` characters are left.
abbrev pub IsAdvance : ℕ → Outcome Next → Type 0
IsAdvance n (ok (emits y rest)) = Unit {0}
IsAdvance n (ok (again rest)) = length rest < n
IsAdvance n (stop e) = ¬ (e ≡ out_of_fuel)

if-IsAdvance :
    (b : Bool) (n : ℕ) (x y : Outcome Next)
    → IsAdvance n x
    → IsAdvance n y
    → IsAdvance n (if b then x else y)
if-IsAdvance true n x y p q = p
if-IsAdvance false n x y p q = q

require-IsAdvance :
    (b : Bool) (e : Stop) (n : ℕ) (x : Outcome Next)
    → ¬ (e ≡ out_of_fuel)
    → IsAdvance n x
    → IsAdvance n (require b e >> x)
require-IsAdvance true e n x other p = p
require-IsAdvance false e n x other p = other

no_access : ¬ (bad_access ≡ out_of_fuel)
no_access e = cc

no_error : ¬ (vm_error ≡ out_of_fuel)
no_error e = cc

no_value : ¬ (undefined ≡ out_of_fuel)
no_value e = cc

line_comment-IsAdvance : (n : ℕ) (cs : List ℕ) → length cs ≤ n → IsAdvance n (line_comment cs)
unfolding line_comment
line_comment-IsAdvance n [] h = no_error
line_comment-IsAdvance n (c ∷ cs) h = if-IsAdvance (c == 255) n _ _ no_error (
    if-IsAdvance (c == 10) n (ok (again cs)) (line_comment cs) (omega (arith, h))
      (line_comment-IsAdvance n cs (omega (arith, h))))

long_comment-IsAdvance :
    (star : Bool) (n : ℕ) (cs : List ℕ) → length cs ≤ n → IsAdvance n (long_comment star cs)
unfolding long_comment
long_comment-IsAdvance star n [] h = no_error
long_comment-IsAdvance star n (c ∷ cs) h =
    if-IsAdvance (star && (c == 47)) n (ok (again cs)) _ (omega (arith, h)) (
      if-IsAdvance (c == 255) n _ _ no_error
        (long_comment-IsAdvance (c == 42) n cs (omega (arith, h))))

slash_next-IsAdvance : (n : ℕ) (cs : List ℕ) → length cs < n → IsAdvance n (slash_next cs)
slash_next-IsAdvance n [] h = tt
slash_next-IsAdvance n (c ∷ cs) h = if-IsAdvance (c == 61) n _ _ tt (
    if-IsAdvance (c == 47) n _ _ (line_comment-IsAdvance n cs (omega (arith, h)))
      (if-IsAdvance (c == 42) n _ _ (long_comment-IsAdvance false n cs (omega (arith, h))) tt))

decimal-IsAdvance : (m n : ℕ) (cs : List ℕ) → IsAdvance m (decimal n cs)
unfolding decimal
decimal-IsAdvance m n [] = tt
decimal-IsAdvance m n (c ∷ cs) =
    if-IsAdvance (between 48 57 c) m _ _
      (require-IsAdvance (ltb (10 * n + (c - 48)) (2 ^ 31)) undefined m _ no_value
        (decimal-IsAdvance m (10 * n + (c - 48)) cs))
      tt

-- What a digit, or a character that is none, makes of the rest.
hex_case :
    (x : Option ℕ) (m n c : ℕ) (cs : List ℕ)
    → ((k : ℕ) → IsAdvance m (hexadecimal k cs))
    → IsAdvance m (elim x as (λ _. Outcome Next) [
      | none ↦ hex_end n c cs
      | some d ↦ require (ltb (16 * n + d) (2 ^ 31)) undefined >> hexadecimal (16 * n + d) cs
    ])
hex_case none m n c cs more = if-IsAdvance (is_letter (input_type c)) m _ _ no_error tt
hex_case (some d) m n c cs more =
    require-IsAdvance (ltb (16 * n + d) (2 ^ 31)) undefined m _ no_value (more (16 * n + d))

hexadecimal-IsAdvance : (m n : ℕ) (cs : List ℕ) → IsAdvance m (hexadecimal n cs)
unfolding hexadecimal
hexadecimal-IsAdvance m n [] = tt
hexadecimal-IsAdvance m n (c ∷ cs) =
    hex_case (hex_digit c) m n c cs (λ k. hexadecimal-IsAdvance m k cs)

number_next-IsAdvance : (m n : ℕ) (cs : List ℕ) → IsAdvance m (number_next n cs)
number_next-IsAdvance m n [] = decimal-IsAdvance m n []
number_next-IsAdvance m n (c ∷ cs) =
    if-IsAdvance ((n == 0) && (c == 120)) m _ _ (hexadecimal-IsAdvance m 0 cs)
      (decimal-IsAdvance m n (c ∷ cs))

ident_next-IsAdvance : (m : ℕ) (r : List ℕ × List ℕ) → IsAdvance m (ident_next r)
ident_next-IsAdvance m (name, rest) =
    require-IsAdvance (ltb (length name) max_ident_len) bad_access m _ no_access tt

text_next-IsAdvance : (m : ℕ) (r : List ℕ × List ℕ) → IsAdvance m (text_next r)
text_next-IsAdvance m (text, rest) =
    require-IsAdvance (ltb (length text) max_ident_len) bad_access m _ no_access tt

with_char-IsFuelled :
    (c : ℕ) (x : Outcome (List ℕ × List ℕ)) → IsFuelled x → IsFuelled (with_char c x)
with_char-IsFuelled c (ok (text, rest)) p = tt
with_char-IsFuelled c (stop e) p = p

if-IsFuelled :
    {A : Type 0} (b : Bool) (x y : Outcome A)
    → IsFuelled x
    → IsFuelled y
    → IsFuelled (if b then x else y)
if-IsFuelled true x y p q = p
if-IsFuelled false x y p q = q

text_span-IsFuelled : (backslash : Bool) (cs : List ℕ) → IsFuelled (text_span backslash cs)
unfolding text_span
text_span-IsFuelled true [] = no_access
text_span-IsFuelled false [] = no_access
text_span-IsFuelled true (c ∷ cs) = with_char-IsFuelled (escaped c) _ (text_span-IsFuelled false cs)
text_span-IsFuelled false (c ∷ cs) = if-IsFuelled (c == 34) _ _ tt (
    if-IsFuelled (c == 92) _ _ (text_span-IsFuelled (c == 92) cs)
      (with_char-IsFuelled c _ (text_span-IsFuelled (c == 92) cs)))

text-IsAdvance :
    (m : ℕ) (x : Outcome (List ℕ × List ℕ)) → IsFuelled x → IsAdvance m (x >>= text_next)
text-IsAdvance m (ok r) p = text_next-IsAdvance m r
text-IsAdvance m (stop e) p = p

typed_next-IsAdvance :
    (y : InputCharType) (m c : ℕ) (cs : List ℕ) → length cs < m → IsAdvance m (typed_next y c cs)
typed_next-IsAdvance in_new_line m c cs h = tt
typed_next-IsAdvance in_white_space m c cs h = h
typed_next-IsAdvance in_letter m c cs h = ident_next-IsAdvance m (ident_span (c ∷ cs))
typed_next-IsAdvance in_underscore m c cs h = ident_next-IsAdvance m (ident_span (c ∷ cs))
typed_next-IsAdvance in_number m c cs h = number_next-IsAdvance m (c - 48) cs
typed_next-IsAdvance in_end m c cs h = tt
typed_next-IsAdvance in_no_type m c cs h = no_error

special_next-IsAdvance : (m c : ℕ) (cs : List ℕ) → length cs < m → IsAdvance m (special_next c cs)
special_next-IsAdvance m c cs h = if-IsAdvance (c == 47) m _ _ (slash_next-IsAdvance m cs h) (
    if-IsAdvance (c == 59) m _ _ tt (
      if-IsAdvance (c == 34) m _ _
        (text-IsAdvance m (text_span false cs) (text_span-IsFuelled false cs))
        (typed_next-IsAdvance (input_type c) m c cs h)))

op_or-IsAdvance :
    (x : Option LexSymbolType) (short : LexSymbolType) (m c : ℕ) (cs : List ℕ)
    → IsAdvance m (ok (op_or x short c cs))
op_or-IsAdvance none short m c cs = tt
op_or-IsAdvance (some y) short m c cs = tt

char_next-IsAdvance :
    (op : Option (List (ℕ × LexSymbolType) × LexSymbolType)) (m c : ℕ) (cs : List ℕ)
    → length cs < m
    → IsAdvance m (char_next op c cs)
char_next-IsAdvance none m c cs h = special_next-IsAdvance m c cs h
char_next-IsAdvance (some (longer, short)) m c [] h = tt
char_next-IsAdvance (some (longer, short)) m c (d ∷ cs) h =
    op_or-IsAdvance (op_char longer d) short m d cs

lex_step-IsAdvance : (cs : List ℕ) → IsAdvance (length cs) (lex_step cs)
unfolding lex_step
lex_step-IsAdvance [] = tt
lex_step-IsAdvance (c ∷ cs) =
    char_next-IsAdvance (operator_in operators c) (length (c ∷ cs)) c cs (omega arith)

go_on-IsFuelled :
    (n : ℕ) (x : Outcome Next) (more : List ℕ → Outcome (LexicalSymbol × List ℕ))
    → IsAdvance n x
    → ((rest : List ℕ) → length rest < n → IsFuelled (more rest))
    → IsFuelled (x >>= go_on more)
go_on-IsFuelled n (ok (emits y rest)) more p next = tt
go_on-IsFuelled n (ok (again rest)) more p next = next rest p
go_on-IsFuelled n (stop e) more p next = p

-- The lexer ends on every input: with more rounds than there are characters, it gives a symbol or
-- stops for another reason than that the rounds are over.
pub read_lexem-IsFuelled :
    (fuel : ℕ) (cs : List ℕ) → length cs < fuel → IsFuelled (read_lexem fuel cs)
unfolding read_lexem
read_lexem-IsFuelled zero cs h = absurd (omega (arith, h))
read_lexem-IsFuelled (suc fuel) cs h =
    go_on-IsFuelled (length cs) (lex_step cs) (read_lexem fuel) (lex_step-IsAdvance cs)
      (λ rest less. read_lexem-IsFuelled fuel rest (omega (arith, h, less)))
