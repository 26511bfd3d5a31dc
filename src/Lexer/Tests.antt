-- ===== src/Lexer/Tests.antt =====
-- Short programs for the lexer.
use kek_on_rails.Base.{ℕ, ◌≡◌, refl, List, [], ◌∷◌, arith}
use kek_on_rails.Lexer.{
  key_word_in, operator_in, line_comment, ident_span, number_symbol, hexadecimal, text_span,
  lex_step, read_lexem, kw_if, key_word, plain, sy_eoi,
}
use kek_on_rails.Lexer.Consumes.{ReadsOn, read_lexem-ReadsOn}
use kek_on_rails.Lexer.Names.{read_lexem-name}
use kek_on_rails.Lexer.Progress.{IsFuelled, read_lexem-IsFuelled}
use kek_on_rails.Outcome.{bad_access, ok, stop}

-- // x
--  if
abbrev commented : List ℕ
commented = 47 ∷ 47 ∷ 120 ∷ 10 ∷ 32 ∷ 105 ∷ 102 ∷ 40 ∷ []

-- A blank and a comment are passed over.
finds_if :
    read_lexem 9 commented
    ≡ ok (record { type = kw_if; ident = 105 ∷ 102 ∷ []; number = 0 }, 40 ∷ [])
unfolding read_lexem lex_step operator_in line_comment ident_span key_word_in
finds_if = refl

-- 0x1F;
finds_number : read_lexem 1 (48 ∷ 120 ∷ 49 ∷ 70 ∷ 59 ∷ []) ≡ ok (number_symbol 31, 59 ∷ [])
unfolding read_lexem lex_step operator_in hexadecimal
finds_number = refl

-- A text without an end runs over the buffer.
open_text : read_lexem 1 (34 ∷ 97 ∷ []) ≡ stop bad_access
unfolding read_lexem lex_step operator_in text_span
open_text = refl

read_lexem-IsFuelled_example : IsFuelled (read_lexem 9 commented)
read_lexem-IsFuelled_example = read_lexem-IsFuelled 9 commented (omega arith)

-- The name if2.
read_lexem-name_example :
    read_lexem 1 (105 ∷ 102 ∷ 50 ∷ 40 ∷ [])
    ≡ ok (
      record { type = key_word (105 ∷ 102 ∷ 50 ∷ []); ident = 105 ∷ 102 ∷ 50 ∷ []; number = 0 },
      40 ∷ [],
    )
read_lexem-name_example =
    read_lexem-name 0 105 (102 ∷ 50 ∷ []) (40 ∷ []) refl (refl, (refl, (refl, tt))) (omega arith)
      refl

-- A letter that is not ASCII, in two bytes, is taken for blanks.
no_ascii :
    read_lexem 3 (195 ∷ 169 ∷ 105 ∷ 102 ∷ [])
    ≡ ok (record { type = kw_if; ident = 105 ∷ 102 ∷ []; number = 0 }, [])
unfolding read_lexem lex_step operator_in ident_span key_word_in
no_ascii = refl

-- The byte 255 ends the file, and stays.
last_byte : read_lexem 1 (255 ∷ 59 ∷ []) ≡ ok (plain sy_eoi, 255 ∷ 59 ∷ [])
unfolding read_lexem lex_step operator_in
last_byte = refl

read_lexem-ReadsOn_example :
    ReadsOn 8 (record { type = kw_if; ident = 105 ∷ 102 ∷ []; number = 0 }, 40 ∷ [])
read_lexem-ReadsOn_example = read_lexem-ReadsOn 9 commented _ (40 ∷ []) finds_if
