-- ===== src/Lexer/Names.antt =====
-- compiler/lexan.cpp: a name is read as it was written.
use kek_on_rails.Base.{
  ℕ, suc, ◌<◌, ◌≡◌, refl, sym, ap, ◌∙◌, Bool, true, false, none, some, List, [], ◌∷◌, ◌++◌, ◌==◌,
  if◌then◌else◌, lt→ltb, ne→==, ==_comm, length,
}
use kek_on_rails.Classes.Names.{true-false}
use kek_on_rails.Lexer.{
  LexSymbolType, plain, InputCharType, input_type, key_word, skip_blank, Next, operators,
  operator_in, slash_next, max_ident_len, is_ident_char, ident_span, ident_next, text_span,
  text_next, typed_next, special_next, char_next, lex_step, go_on, read_lexem, in_letter, in_number,
  in_underscore, in_white_space, in_new_line, in_no_type, emits, sy_semicolon, in_end,
}
use kek_on_rails.Outcome.{◌>>=◌, ◌>>◌, Outcome, require, bad_access, ok}

abbrev pub AreIdentChars : List ℕ → Type 0
AreIdentChars [] = Unit {0}
AreIdentChars (c ∷ cs) = (is_ident_char (input_type c) ≡ true) × AreIdentChars cs

-- What comes behind a name does not go on with it.
abbrev pub IsNameEnd : List ℕ → Type 0
IsNameEnd [] = Unit {0}
IsNameEnd (c ∷ cs) = is_ident_char (input_type c) ≡ false

ident_span_end : (rest : List ℕ) → IsNameEnd rest → ident_span rest ≡ ([], rest)
unfolding ident_span
ident_span_end [] h = refl
ident_span_end (c ∷ cs) h =
    ap (λ b. if b then (c ∷ (ident_span cs).0, (ident_span cs).1) else ([], c ∷ cs)) h

ident_span-append :
    (name rest : List ℕ)
    → AreIdentChars name
    → IsNameEnd rest
    → ident_span (name ++ rest) ≡ (name, rest)
unfolding ident_span
ident_span-append [] rest a h = unfold ident_span in ident_span_end rest h
ident_span-append (c ∷ cs) rest (i, a) h =
    ap
      (λ b.
        if b
        then (c ∷ (ident_span (cs ++ rest)).0, (ident_span (cs ++ rest)).1)
        else ([], c ∷ (cs ++ rest)))
      i
    ∙ ap (λ r. (c ∷ r.0, r.1)) (ident_span-append cs rest a h)

-- None of the characters of these operators starts a name.
abbrev AreSigns : List (ℕ × (List (ℕ × LexSymbolType) × LexSymbolType)) → Type 0
AreSigns [] = Unit {0}
AreSigns ((d, op) ∷ more) = (input_type d ≡ in_no_type) × AreSigns more

abbrev pub starts_name : InputCharType → Bool
starts_name in_letter = true
starts_name in_underscore = true
starts_name _ = false

differs :
    (c d : ℕ) → starts_name (input_type c) ≡ true → input_type d ≡ in_no_type → (c == d) ≡ false
differs c d starts sign = ne→== c d (λ e.
    let b : false ≡ true =
      sym (ap starts_name sign) ∙ ap (λ x. starts_name (input_type x)) (sym e) ∙ starts in
    true-false (sym b))

operator_in-none :
    (ops : List (ℕ × (List (ℕ × LexSymbolType) × LexSymbolType))) (c : ℕ)
    → AreSigns ops
    → starts_name (input_type c) ≡ true
    → operator_in ops c ≡ none
unfolding operator_in
operator_in-none [] c signs starts = refl
operator_in-none ((d, op) ∷ more) c (sign, signs) starts =
    ap (λ b. if b then some op else operator_in more c) (==_comm d c ∙ differs c d starts sign)
    ∙ operator_in-none more c signs starts

operators-AreSigns : AreSigns operators
operators-AreSigns = (
  refl,
  (
    refl,
    (
      refl,
      (
        refl,
        (
          refl,
          (
            refl,
            (
              refl,
              (
                refl,
                (
                  refl,
                  (
                    refl,
                    (
                      refl,
                      (refl, (refl, (refl, (refl, (refl, (refl, (refl, (refl, (refl, tt))))))))),
                    ),
                  ),
                ),
              ),
            ),
          ),
        ),
      ),
    ),
  ),
)

typed_name :
    (y : InputCharType) (c : ℕ) (cs : List ℕ)
    → starts_name y ≡ true
    → typed_next y c cs ≡ ident_next (ident_span (c ∷ cs))
typed_name in_letter c cs h = refl
typed_name in_underscore c cs h = refl
typed_name in_number c cs h = cc
typed_name in_white_space c cs h = cc
typed_name in_new_line c cs h = cc
typed_name in_end c cs h = cc
typed_name in_no_type c cs h = cc

-- What the last tests for a special character leave.
abbrev text_or_typed : ℕ → List ℕ → Outcome Next
text_or_typed c cs =
    if c == 34 then (text_span false cs >>= text_next) else typed_next (input_type c) c cs

abbrev semicolon_or : ℕ → List ℕ → Outcome Next
semicolon_or c cs =
    if c == 59 then ok (emits (plain sy_semicolon) (skip_blank cs)) else text_or_typed c cs

special_name :
    (c : ℕ) (cs : List ℕ)
    → starts_name (input_type c) ≡ true
    → special_next c cs ≡ ident_next (ident_span (c ∷ cs))
special_name c cs starts =
    ap (λ b. if b then slash_next cs else semicolon_or c cs) (differs c 47 starts refl)
    ∙ ap (λ b. if b then ok (emits (plain sy_semicolon) (skip_blank cs)) else text_or_typed c cs)
        (differs c 59 starts refl)
    ∙ ap (λ b. if b then (text_span false cs >>= text_next) else typed_next (input_type c) c cs)
        (differs c 34 starts refl)
    ∙ typed_name (input_type c) c cs starts

-- A name of at most 1023 letters, digits and underscores, which does not start with a digit, is read
-- back as it is, as a keyword or an identifier, up to the first character that is none of these.
pub read_lexem-name :
    (fuel c : ℕ) (cs rest : List ℕ)
    → starts_name (input_type c) ≡ true
    → AreIdentChars (c ∷ cs)
    → length (c ∷ cs) < max_ident_len
    → IsNameEnd rest
    → read_lexem (suc fuel) ((c ∷ cs) ++ rest)
      ≡ ok (record { type = key_word (c ∷ cs); ident = c ∷ cs; number = 0 }, rest)
unfolding read_lexem lex_step
read_lexem-name fuel c cs rest starts chars fits h =
    ap (λ op. char_next op c (cs ++ rest) >>= go_on (read_lexem fuel))
      (operator_in-none operators c operators-AreSigns starts)
    ∙ ap (λ x. x >>= go_on (read_lexem fuel)) (special_name c (cs ++ rest) starts)
    ∙ ap (λ r. ident_next r >>= go_on (read_lexem fuel)) (ident_span-append (c ∷ cs) rest chars h)
    ∙ ap
        (λ b.
          (require b bad_access
            >> ok (emits (record { type = key_word (c ∷ cs); ident = c ∷ cs; number = 0 }) rest))
          >>= go_on (read_lexem fuel))
        (lt→ltb (length (c ∷ cs)) max_ident_len fits)
