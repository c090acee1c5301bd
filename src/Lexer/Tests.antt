-- ===== src/Lexer/Tests.antt =====
-- Tests of the lexer and the tokenizer on the texts of tokenizer/mod.rs, and the theorems at them.
use aleotiktacto.Prelude.{
  ℕ, some, none, List, [], ◌∷◌, ◌++◌, ◌≡◌, refl, false, codes, arith, ◌||◌, if◌then◌else◌,
}
use aleotiktacto.Chars.{byte_len, is_ascii_whitespace, is_ascii_alphanumeric, is_whitespace}
use aleotiktacto.Token.{Token, display, keyword_to_symbol, is_keyword, token_eq}
use aleotiktacto.Token.Keywords.{keyword_to_symbol_lem}
use aleotiktacto.Lexer.{
  Eaten, ok, err, lexer_hex_number_provided, lexer_string_not_closed, could_not_lex,
  lexer_bidi_override, lexer_block_comment_does_not_close_before_eof, eat, eat_word, eat_identifier,
  identifier_token, eat_slash, find_arm, run_arm, find_keyword, starts_with, eat_integer,
  eat_digits, eat_string, before_quote, ensure_no_bidi_override, is_bidi_override, eat_line_comment,
  line, eat_block_comment, block, finish_block,
}
use aleotiktacto.Lexer.Fronts.{Fronts}
use aleotiktacto.Lexer.Text.{eat-Fronts}
use aleotiktacto.Lexer.Print.{eat-display}
use aleotiktacto.Tokenizer.{tokens, tokenize}
use aleotiktacto.Tokenizer.Tiles.{IsTokenized, tokenize-IsTokenized}
use aleotiktacto.Tokenizer.Print.{spaced, placed, AllLexable, tokenize-spaced}

-- `eat` with all that it calls unfolded.
run_eat : List ℕ → Eaten
unfolding eat eat_word eat_identifier identifier_token eat_slash find_arm run_arm find_keyword
    starts_with eat_integer eat_digits eat_string before_quote ensure_no_bidi_override
    is_bidi_override eat_line_comment line eat_block_comment block finish_block is_ascii_whitespace
    is_ascii_alphanumeric is_whitespace byte_len
run_eat = eat

eat_tests :
    (eat (codes "**=x") ≡ ok (3, Token.pow_assign))
    × (eat (codes "->") ≡ ok (2, Token.arrow))
    × (eat (codes "12_345u8") ≡ ok (6, Token.integer (codes "12_345")))
    × (eat (codes "i128 ") ≡ ok (4, Token.i128))
    × (eat (codes "i1289") ≡ ok (5, Token.identifier (codes "i1289")))
    × (eat (codes "aleo1qq ") ≡ ok (7, Token.address_lit (codes "aleo1qq")))
    × (eat (codes "/* a */ b") ≡ ok (7, Token.comment_block (codes "/* a */")))
    × (eat (codes "// a\nb") ≡ ok (5, Token.comment_line (codes "// a\n")))
    × (eat (codes "\"te{{}}\" x") ≡ ok (8, Token.static_string (codes "te{{}}")))
unfolding run_eat
eat_tests = (refl, refl, refl, refl, refl, refl, refl, refl, refl)

-- A `0` followed by `x` is an error also behind other digits.
eat_errors :
    (eat (codes "10x2") ≡ err (lexer_hex_number_provided (codes "10x")))
    × (eat (codes "\"ab") ≡ err (lexer_string_not_closed (codes "ab")))
    × (eat (codes "/*/") ≡ err (lexer_block_comment_does_not_close_before_eof (codes "/*/")))
    × (eat (codes "$a; b") ≡ err (could_not_lex (codes "$a")))
    × (eat (b'"' ∷ 0x202a ∷ b'"' ∷ []) ≡ err lexer_bidi_override)
unfolding run_eat
eat_errors = (refl, refl, refl, refl, refl)

eat-Fronts_example : Fronts (codes "**=x") 3 Token.pow_assign
eat-Fronts_example = eat-Fronts (codes "**=x") 3 Token.pow_assign eat_tests.0

abbrev sample : List Token
sample =
    Token.let_
    ∷ Token.identifier (codes "x")
    ∷ Token.colon
    ∷ Token.u8
    ∷ Token.assign
    ∷ Token.integer (codes "1_0")
    ∷ Token.semicolon
    ∷ []

sample-AllLexable : AllLexable sample
unfolding find_keyword starts_with is_ascii_alphanumeric
sample-AllLexable = (tt, ((refl, refl, refl), (tt, (tt, (tt, (refl, (tt, tt)))))))

eat-display_example :
    eat (display Token.shl_assign ++ 32 ∷ [])
    ≡ ok (byte_len (display Token.shl_assign), Token.shl_assign)
eat-display_example = eat-display Token.shl_assign [] tt

bytes-sample : byte_len (spaced sample) ≡ 19
unfolding spaced display byte_len
bytes-sample = refl

tokenize-spaced_example : tokenize (spaced sample) 7 ≡ tokens (placed 7 sample)
tokenize-spaced_example = tokenize-spaced sample 7 sample-AllLexable (omega (arith, bytes-sample))

tokenize-IsTokenized_example : IsTokenized 7 (spaced sample) (tokenize (spaced sample) 7)
tokenize-IsTokenized_example = tokenize-IsTokenized (spaced sample) 7 (omega (arith, bytes-sample))

keyword_tests :
    (is_keyword Token.block ≡ false) × (keyword_to_symbol Token.block ≡ some (codes "block"))
unfolding is_keyword keyword_to_symbol
keyword_tests = (refl, refl)

keyword_to_symbol_lem_example : keyword_to_symbol Token.transition ≡ (
    if is_keyword Token.transition
      || token_eq Token.transition Token.block
      || token_eq Token.transition Token.leo
    then some (display Token.transition)
    else none)
keyword_to_symbol_lem_example = keyword_to_symbol_lem Token.transition
