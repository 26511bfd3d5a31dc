-- ===== src/Lexer.antt =====
-- compiler/lexan.cpp: the reading of lexical symbols. The input is the list of the characters that are
-- still to be read, the current one first; an empty list is at the end of the file.
pub mod Progress
pub mod Names
pub mod Consumes
mod Tests
use kek_on_rails.Base.{
  ℕ, zero, suc, ◌+◌, ◌-◌, ◌*◌, ◌^◌, Bool, true, false, ◌&&◌, ◌||◌, Option, none, some, List, [],
  ◌∷◌, ltb, leb, ◌==◌, if◌then◌else◌, length,
}
use kek_on_rails.Classes.Table.{streq}
use kek_on_rails.Outcome.{
  ◌>>=◌, ◌>>◌, Outcome, require, vm_error, bad_access, undefined, out_of_fuel, ok, stop,
}

pub data LexSymbolType : Type 0 where
  sy_ident sy_numb sy_str sy_plus sy_minus sy_times sy_divide sy_modulo sy_eq : LexSymbolType
  sy_neq sy_lt sy_gt sy_lte sy_gte sy_lpar sy_rpar sy_assign sy_comma : LexSymbolType
  sy_semicolon sy_newline kw_var kw_const sy_lcurly sy_rcurly kw_if kw_then : LexSymbolType
  kw_else kw_while kw_do kw_write sy_eoi sy_err kw_switch kw_case kw_default : LexSymbolType
  sy_dot sy_double_dot sy_colon sy_dash kw_integer kw_record sy_lbrac : LexSymbolType
  sy_rbrac kw_for kw_to kw_downto kw_break sy_add_assign sy_sub_assign : LexSymbolType
  sy_mul_assign sy_div_assign sy_mod_assign sy_increment sy_decrement : LexSymbolType
  sy_log_not sy_log_or sy_log_and sy_bit_or sy_bit_and sy_xor sy_lshift : LexSymbolType
  sy_rshift kw_class kw_enum kw_static kw_return kw_this kw_super kw_new : LexSymbolType
  kw_nil kw_try kw_catch kw_throw : LexSymbolType

-- `ident` and `number` are set for the symbols that have them.
pub record LexicalSymbol : Type 0 where
  pub type : LexSymbolType
  pub ident : List ℕ
  pub number : ℕ

abbrev pub plain : LexSymbolType → LexicalSymbol
plain y = record { type = y; ident = []; number = 0 }

pub data InputCharType : Type 0 where
  in_letter in_number in_underscore in_white_space in_new_line in_end in_no_type : InputCharType

abbrev pub between : ℕ → ℕ → ℕ → Bool
between low high c = leb low c && leb c high

-- `readInput`. A character is the byte that `getChar` gives as a signed char: from 128 on it is negative
-- and so below a blank, and 255 is -1, the code of the end of the file. `getChar` never gives 0.
abbrev pub input_type : ℕ → InputCharType
input_type c =
    if between 65 90 c || between 97 122 c
    then in_letter
    else (if between 48 57 c
        then in_number
        else (if c == 95
            then in_underscore
            else (if c == 255
                then in_end
                else (if c == 10
                    then in_new_line
                    else (if leb c 32 || leb 128 c then in_white_space else in_no_type)))))

abbrev pub key_words : List (List ℕ × LexSymbolType)
key_words =
    (118 ∷ 97 ∷ 114 ∷ [], kw_var)
    ∷ (99 ∷ 111 ∷ 110 ∷ 115 ∷ 116 ∷ [], kw_const)
    ∷ (105 ∷ 102 ∷ [], kw_if)
    ∷ (101 ∷ 108 ∷ 115 ∷ 101 ∷ [], kw_else)
    ∷ (119 ∷ 104 ∷ 105 ∷ 108 ∷ 101 ∷ [], kw_while)
    ∷ (119 ∷ 114 ∷ 105 ∷ 116 ∷ 101 ∷ [], kw_write)
    ∷ (115 ∷ 119 ∷ 105 ∷ 116 ∷ 99 ∷ 104 ∷ [], kw_switch)
    ∷ (99 ∷ 97 ∷ 115 ∷ 101 ∷ [], kw_case)
    ∷ (100 ∷ 101 ∷ 102 ∷ 97 ∷ 117 ∷ 108 ∷ 116 ∷ [], kw_default)
    ∷ (102 ∷ 111 ∷ 114 ∷ [], kw_for)
    ∷ (100 ∷ 111 ∷ 119 ∷ 110 ∷ 116 ∷ 111 ∷ [], kw_downto)
    ∷ (98 ∷ 114 ∷ 101 ∷ 97 ∷ 107 ∷ [], kw_break)
    ∷ (99 ∷ 108 ∷ 97 ∷ 115 ∷ 115 ∷ [], kw_class)
    ∷ (101 ∷ 110 ∷ 117 ∷ 109 ∷ [], kw_enum)
    ∷ (115 ∷ 116 ∷ 97 ∷ 116 ∷ 105 ∷ 99 ∷ [], kw_static)
    ∷ (114 ∷ 101 ∷ 116 ∷ 117 ∷ 114 ∷ 110 ∷ [], kw_return)
    ∷ (116 ∷ 104 ∷ 105 ∷ 115 ∷ [], kw_this)
    ∷ (115 ∷ 117 ∷ 112 ∷ 101 ∷ 114 ∷ [], kw_super)
    ∷ (110 ∷ 101 ∷ 119 ∷ [], kw_new)
    ∷ (110 ∷ 105 ∷ 108 ∷ [], kw_nil)
    ∷ (116 ∷ 114 ∷ 121 ∷ [], kw_try)
    ∷ (99 ∷ 97 ∷ 116 ∷ 99 ∷ 104 ∷ [], kw_catch)
    ∷ (116 ∷ 104 ∷ 114 ∷ 111 ∷ 119 ∷ [], kw_throw)
    ∷ []

unfoldable pub key_word_in : List (List ℕ × LexSymbolType) → List ℕ → LexSymbolType
key_word_in [] id = sy_ident
key_word_in ((word, y) ∷ words) id = if streq id word then y else key_word_in words id

-- `keyWord`
abbrev pub key_word : List ℕ → LexSymbolType
key_word id = key_word_in key_words id

abbrev pub is_blank : InputCharType → Bool
is_blank in_new_line = true
is_blank in_white_space = true
is_blank _ = false

-- The new lines and blanks behind a semicolon or a new line.
unfoldable pub skip_blank : List ℕ → List ℕ
skip_blank [] = []
skip_blank (c ∷ cs) = if is_blank (input_type c) then skip_blank cs else c ∷ cs

-- What the next character makes of an operator.
unfoldable pub op_char : List (ℕ × LexSymbolType) → ℕ → Option LexSymbolType
op_char [] c = none
op_char ((d, y) ∷ more) c = if d == c then some y else op_char more c

pub data Next : Type 0 where
  emits : LexicalSymbol → List ℕ → Next
  again : List ℕ → Next

abbrev pub op_or : Option LexSymbolType → LexSymbolType → ℕ → List ℕ → Next
op_or none short c cs = emits (plain short) (c ∷ cs)
op_or (some y) short c cs = emits (plain y) cs

abbrev pub op_next : List (ℕ × LexSymbolType) → LexSymbolType → List ℕ → Next
op_next longer short [] = emits (plain short) []
op_next longer short (c ∷ cs) = op_or (op_char longer c) short c cs

-- The symbols that start with a character of their own, with what may follow it.
abbrev pub operators : List (ℕ × (List (ℕ × LexSymbolType) × LexSymbolType))
operators =
    (123, ([], sy_lcurly))
    ∷ (125, ([], sy_rcurly))
    ∷ (43, ((61, sy_add_assign) ∷ (43, sy_increment) ∷ [], sy_plus))
    ∷ (45, ((61, sy_sub_assign) ∷ (45, sy_decrement) ∷ [], sy_minus))
    ∷ (42, ((61, sy_mul_assign) ∷ [], sy_times))
    ∷ (37, ((61, sy_mod_assign) ∷ [], sy_modulo))
    ∷ (40, ([], sy_lpar))
    ∷ (41, ([], sy_rpar))
    ∷ (61, ((61, sy_eq) ∷ [], sy_assign))
    ∷ (60, ((61, sy_lte) ∷ (60, sy_lshift) ∷ [], sy_lt))
    ∷ (62, ((61, sy_gte) ∷ (62, sy_rshift) ∷ [], sy_gt))
    ∷ (58, ([], sy_colon))
    ∷ (44, ([], sy_comma))
    ∷ (46, ((46, sy_double_dot) ∷ [], sy_dot))
    ∷ (91, ([], sy_lbrac))
    ∷ (93, ([], sy_rbrac))
    ∷ (33, ((61, sy_neq) ∷ [], sy_log_not))
    ∷ (124, ((124, sy_log_or) ∷ [], sy_bit_or))
    ∷ (38, ((38, sy_log_and) ∷ [], sy_bit_and))
    ∷ (94, ([], sy_xor))
    ∷ []

unfoldable pub operator_in :
    List (ℕ × (List (ℕ × LexSymbolType) × LexSymbolType))
    → ℕ
    → Option (List (ℕ × LexSymbolType) × LexSymbolType)
operator_in [] c = none
operator_in ((d, op) ∷ more) c = if d == c then some op else operator_in more c

-- A comment up to the end of its line, and a long one; `star` is set behind a star. The byte 255
-- counts as the end of the file.
unfoldable pub line_comment : List ℕ → Outcome Next
line_comment [] = stop vm_error
line_comment (c ∷ cs) =
    let rest = line_comment cs in
    if c == 255 then stop vm_error else (if c == 10 then ok (again cs) else rest)

unfoldable pub long_comment : Bool → List ℕ → Outcome Next
long_comment star [] = stop vm_error
long_comment star (c ∷ cs) =
    let rest = long_comment (c == 42) cs in
    if star && (c == 47) then ok (again cs) else (if c == 255 then stop vm_error else rest)

-- q1
abbrev pub slash_next : List ℕ → Outcome Next
slash_next [] = ok (emits (plain sy_divide) [])
slash_next (c ∷ cs) =
    if c == 61
    then ok (emits (plain sy_div_assign) cs)
    else (if c == 47
        then line_comment cs
        else (if c == 42 then long_comment false cs else ok (emits (plain sy_divide) (c ∷ cs))))

abbrev pub max_ident_len : ℕ
max_ident_len = 1024

abbrev pub is_ident_char : InputCharType → Bool
is_ident_char in_letter = true
is_ident_char in_number = true
is_ident_char in_underscore = true
is_ident_char _ = false

-- q2: the rest of a name, and what is behind it.
unfoldable pub ident_span : List ℕ → List ℕ × List ℕ
ident_span [] = ([], [])
ident_span (c ∷ cs) =
    let (name, rest) = ident_span cs in
    if is_ident_char (input_type c) then (c ∷ name, rest) else ([], c ∷ cs)

-- A name with its final 0 must fit the buffer; behind it is other memory.
abbrev pub ident_next : List ℕ × List ℕ → Outcome Next
ident_next (name, rest) =
    require (ltb (length name) max_ident_len) bad_access
    >> ok (emits (record { type = key_word name; ident = name; number = 0 }) rest)

abbrev pub number_symbol : ℕ → LexicalSymbol
number_symbol n = record { type = sy_numb; ident = []; number = n }

-- q3, and q7 for hexadecimal digits. A number out of the range of int has no defined value.
unfoldable pub decimal : ℕ → List ℕ → Outcome Next
decimal n [] = ok (emits (number_symbol n) [])
decimal n (c ∷ cs) =
    let rest = decimal (10 * n + (c - 48)) cs in
    if between 48 57 c
    then (require (ltb (10 * n + (c - 48)) (2 ^ 31)) undefined >> rest)
    else ok (emits (number_symbol n) (c ∷ cs))

abbrev pub hex_digit : ℕ → Option ℕ
hex_digit c =
    if between 48 57 c
    then some (c - 48)
    else (if between 97 102 c
        then some (c - 97 + 10)
        else (if between 65 70 c then some (c - 65 + 10) else none))

abbrev pub is_letter : InputCharType → Bool
is_letter in_letter = true
is_letter _ = false

abbrev pub hex_end : ℕ → ℕ → List ℕ → Outcome Next
hex_end n c cs =
    if is_letter (input_type c) then stop vm_error else ok (emits (number_symbol n) (c ∷ cs))

unfoldable pub hexadecimal : ℕ → List ℕ → Outcome Next
hexadecimal n [] = ok (emits (number_symbol n) [])
hexadecimal n (c ∷ cs) = elim (hex_digit c) [
  | none ↦ hex_end n c cs
  | some d ↦ require (ltb (16 * n + d) (2 ^ 31)) undefined >> hexadecimal (16 * n + d) cs
]

abbrev pub number_next : ℕ → List ℕ → Outcome Next
number_next n [] = decimal n []
number_next n (c ∷ cs) = if (n == 0) && (c == 120) then hexadecimal 0 cs else decimal n (c ∷ cs)

abbrev pub escaped : ℕ → ℕ
escaped c =
    if c == 110
    then 10
    else (if c == 116 then 9 else (if c == 98 then 8 else (if c == 114 then 13 else c)))

abbrev pub with_char : ℕ → Outcome (List ℕ × List ℕ) → Outcome (List ℕ × List ℕ)
with_char c (stop e) = stop e
with_char c (ok (text, rest)) = ok (c ∷ text, rest)

-- q8, and q9 behind a backslash. At the end of the file its code is written on and on, until it is
-- behind the buffer.
unfoldable pub text_span : Bool → List ℕ → Outcome (List ℕ × List ℕ)
text_span backslash [] = stop bad_access
text_span true (c ∷ cs) = with_char (escaped c) (text_span false cs)
text_span false (c ∷ cs) =
    let rest = text_span (c == 92) cs in
    if c == 34 then ok ([], cs) else (if c == 92 then rest else with_char c rest)

abbrev pub text_next : List ℕ × List ℕ → Outcome Next
text_next (text, rest) =
    require (ltb (length text) max_ident_len) bad_access
    >> ok (emits (record { type = sy_str; ident = text; number = 0 }) rest)

abbrev pub typed_next : InputCharType → ℕ → List ℕ → Outcome Next
typed_next in_new_line c cs = ok (emits (plain sy_newline) (skip_blank cs))
typed_next in_white_space c cs = ok (again cs)
typed_next in_letter c cs = ident_next (ident_span (c ∷ cs))
typed_next in_underscore c cs = ident_next (ident_span (c ∷ cs))
typed_next in_number c cs = number_next (c - 48) cs
typed_next in_end c cs = ok (emits (plain sy_eoi) (c ∷ cs))
typed_next in_no_type c cs = stop vm_error

abbrev pub special_next : ℕ → List ℕ → Outcome Next
special_next c cs =
    if c == 47
    then slash_next cs
    else (if c == 59
        then ok (emits (plain sy_semicolon) (skip_blank cs))
        else (if c == 34
            then (text_span false cs >>= text_next)
            else typed_next (input_type c) c cs))

abbrev pub char_next : Option (List (ℕ × LexSymbolType) × LexSymbolType) → ℕ → List ℕ → Outcome Next
char_next (some (longer, short)) c cs = ok (op_next longer short cs)
char_next none c cs = special_next c cs

-- One way through the states from q0: a symbol, or what is left where a blank or a comment was.
unfoldable pub lex_step : List ℕ → Outcome Next
lex_step [] = ok (emits (plain sy_eoi) [])
lex_step (c ∷ cs) = char_next (operator_in operators c) c cs

abbrev pub go_on :
    (List ℕ → Outcome (LexicalSymbol × List ℕ)) → Next → Outcome (LexicalSymbol × List ℕ)
go_on more (emits y rest) = ok (y, rest)
go_on more (again rest) = more rest

unfoldable pub read_lexem : ℕ → List ℕ → Outcome (LexicalSymbol × List ℕ)
read_lexem zero cs = stop out_of_fuel
read_lexem (suc fuel) cs = lex_step cs >>= go_on (read_lexem fuel)
