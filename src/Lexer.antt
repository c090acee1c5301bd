-- ===== src/Lexer.antt =====
-- compiler/parser/src/tokenizer/lexer.rs: one token from the front of a text. The commented-out
-- functions of the file have no counterpart.
pub mod Fronts
pub mod Bodies
pub mod Text
pub mod Print
pub mod Tests
use aleotiktacto.Prelude.{
  ℕ, zero, suc, ◌+◌, Bool, true, false, not, ◌&&◌, ◌||◌, Option, none, some, List, [], ◌∷◌, ◌++◌,
  ◌==◌, if◌then◌else◌, codes, equal,
}
use aleotiktacto.Chars.{
  between, is_ascii_digit, is_ascii_alphabetic, is_ascii_alphanumeric, is_ascii_whitespace,
  is_whitespace, byte_len, take_while, any,
}
use aleotiktacto.Token.{Token}

-- The errors of `ParserError` that the lexer makes.
pub data LexError : Type 0 where
  lexer_empty_input lexer_empty_block_comment lexer_bidi_override : LexError
  lexer_hex_number_provided : List ℕ → LexError
  lexer_string_not_closed : List ℕ → LexError
  lexer_block_comment_does_not_close_before_eof : List ℕ → LexError
  could_not_lex : List ℕ → LexError

pub data Result {ℓ} (A : Type ℓ) : Type ℓ where
  ok : A → Result A
  err : LexError → Result A

-- `Result<(usize, Token)>`
abbrev pub Eaten : Type 0
Eaten = Result (ℕ × Token)

abbrev pub is_identifier_char : ℕ → Bool
is_identifier_char c = is_ascii_alphanumeric c || c == b'_'

unfoldable pub eat_identifier : List ℕ → Option (List ℕ)
eat_identifier [] = none
eat_identifier (c ∷ s) =
    if is_ascii_alphabetic c then some (take_while is_identifier_char (c ∷ s)) else none

unfoldable pub is_bidi_override : ℕ → Bool
is_bidi_override c = between 0x202a 0x202e c || between 0x2066 0x2069 c

-- `ensure_no_bidi_override(string)?` before the rest.
unfoldable pub ensure_no_bidi_override : List ℕ → Eaten → Eaten
ensure_no_bidi_override string k =
    if any is_bidi_override string then err lexer_bidi_override else k

-- `matches!(input.peek(), Some(c))`
abbrev pub next_is : ℕ → List ℕ → Bool
next_is c [] = false
next_is c (x ∷ s) = x == c

-- The loop of `eat_integer`.
unfoldable pub eat_digits : List ℕ → List ℕ → Eaten
eat_digits int [] = ok (byte_len int, Token.integer int)
eat_digits int (c ∷ s) =
    if is_ascii_digit c || c == b'_'
    then (if c == b'0' && next_is b'x' s
        then err (lexer_hex_number_provided (int ++ c ∷ b'x' ∷ []))
        else eat_digits (int ++ c ∷ []) s)
    else ok (byte_len int, Token.integer int)

unfoldable pub eat_integer : List ℕ → Eaten
eat_integer [] = err lexer_empty_input
eat_integer (c ∷ s) = eat_digits [] (c ∷ s)

-- The closures `match_one` to `match_four` with their arguments.
pub data Arm : Type 0 where
  match_one : Token → Arm
  match_two : Token → ℕ → Token → Arm
  match_three : Token → ℕ → Token → ℕ → Token → Arm
  match_four : Token → ℕ → Token → ℕ → Token → ℕ → Token → Arm

-- `input.next()` on the text behind the first character.
abbrev pub advance : List ℕ → List ℕ
advance [] = []
advance (x ∷ s) = s

-- What an arm returns; `s` is the input behind the character that chose the arm.
unfoldable pub run_arm : Arm → List ℕ → ℕ × Token
run_arm (match_one t) s = (1, t)
run_arm (match_two t c2 t2) s = if next_is c2 s then (2, t2) else (1, t)
run_arm (match_three t c2 t2 c3 t3) s =
    if next_is c2 s then (2, t2) else if next_is c3 s then (2, t3) else (1, t)
run_arm (match_four t c2 t2 c3 t3 c4 t4) s =
    if next_is c2 s
    then (2, t2)
    else if next_is c3 s
    then (if next_is c4 (advance s) then (3, t4) else (2, t3))
    else (1, t)

-- The arms of `eat` for symbols, in order.
abbrev pub arms : List (ℕ × Arm)
arms =
    (b'!', match_two Token.not b'=' Token.not_eq)
    ∷ (b'?', match_one Token.question)
    ∷ (
      b'&',
      match_four Token.bit_and b'=' Token.bit_and_assign b'&' Token.and b'=' Token.and_assign,
    )
    ∷ (b'(', match_one Token.left_paren)
    ∷ (b')', match_one Token.right_paren)
    ∷ (b'_', match_one Token.underscore)
    ∷ (b'*', match_four Token.mul b'=' Token.mul_assign b'*' Token.pow b'=' Token.pow_assign)
    ∷ (b'+', match_two Token.add b'=' Token.add_assign)
    ∷ (b',', match_one Token.comma)
    ∷ (b'-', match_three Token.sub b'=' Token.sub_assign b'>' Token.arrow)
    ∷ (b'.', match_two Token.dot b'.' Token.dot_dot)
    ∷ (b'%', match_two Token.rem b'=' Token.rem_assign)
    ∷ (b':', match_two Token.colon b':' Token.double_colon)
    ∷ (b';', match_one Token.semicolon)
    ∷ (b'<', match_four Token.lt b'=' Token.lt_eq b'<' Token.shl b'=' Token.shl_assign)
    ∷ (b'>', match_four Token.gt b'=' Token.gt_eq b'>' Token.shr b'=' Token.shr_assign)
    ∷ (b'=', match_three Token.assign b'=' Token.eq b'>' Token.big_arrow)
    ∷ (b'[', match_one Token.left_square)
    ∷ (b']', match_one Token.right_square)
    ∷ (b'{', match_one Token.left_curly)
    ∷ (b'}', match_one Token.right_curly)
    ∷ (b'|', match_four Token.bit_or b'=' Token.bit_or_assign b'|' Token.or b'=' Token.or_assign)
    ∷ (b'^', match_two Token.bit_xor b'=' Token.bit_xor_assign)
    ∷ (b'@', match_one Token.at)
    ∷ []

unfoldable pub find_arm : ℕ → List (ℕ × Arm) → Option Arm
find_arm c [] = none
find_arm c ((x, a) ∷ r) = if c == x then some a else find_arm c r

-- The text up to the first `"`, if there is one.
unfoldable pub before_quote : List ℕ → Option (List ℕ)
before_quote [] = none
before_quote (c ∷ s) =
    if c == b'"' then some [] else elim (before_quote s) [ none ↦ none | some t ↦ some (c ∷ t) ]

-- The arm of `"`; `rest` is the input behind it.
unfoldable pub eat_string : List ℕ → Eaten
eat_string rest = elim (before_quote rest) [
  | none ↦ err (lexer_string_not_closed rest)
  | some string ↦
      ensure_no_bidi_override string (ok (byte_len string + 2, Token.static_string string))
]

-- The text up to and with the first line feed, or all of it.
unfoldable pub line : List ℕ → List ℕ
line [] = []
line (c ∷ s) = if c == b'\n' then c ∷ [] else c ∷ line s

unfoldable pub eat_line_comment : List ℕ → Eaten
eat_line_comment input_str =
    let comment = line input_str in
    ensure_no_bidi_override comment (ok (byte_len comment, Token.comment_line comment))

-- The loop of a block comment: the comment that was read, and whether it ended.
unfoldable pub block : List ℕ → List ℕ → List ℕ × Bool
block comment [] = (comment, false)
block comment (c ∷ s) =
    if c == b'*' && next_is b'/' s
    then (comment ++ c ∷ b'/' ∷ [], true)
    else block (comment ++ c ∷ []) s

unfoldable pub finish_block : List ℕ × Bool → Eaten
finish_block (comment, ended) = ensure_no_bidi_override comment (
    if not ended
    then err (lexer_block_comment_does_not_close_before_eof comment)
    else ok (byte_len comment, Token.comment_block comment))

-- `s` is the input behind `/*`.
unfoldable pub eat_block_comment : List ℕ → Eaten
eat_block_comment [] = err lexer_empty_block_comment
eat_block_comment (c ∷ s) = finish_block (block (codes "/*") (c ∷ s))

-- The arm of `/`; `s` is the input behind it.
unfoldable pub eat_slash : List ℕ → Eaten
eat_slash s =
    if next_is b'/' s
    then eat_line_comment (b'/' ∷ s)
    else if next_is b'*' s
    then eat_block_comment (advance s)
    else if next_is b'=' s
    then ok (2, Token.div_assign)
    else ok (1, Token.div)

-- The arms of the match on an identifier, but for the first and the last.
abbrev pub keywords : List (List ℕ × Token)
keywords =
    (codes "address", Token.address)
    ∷ (codes "as", Token.as_)
    ∷ (codes "assert", Token.assert)
    ∷ (codes "assert_eq", Token.assert_eq)
    ∷ (codes "assert_neq", Token.assert_neq)
    ∷ (codes "block", Token.block)
    ∷ (codes "bool", Token.bool)
    ∷ (codes "console", Token.console)
    ∷ (codes "const", Token.const)
    ∷ (codes "constant", Token.constant)
    ∷ (codes "else", Token.else_)
    ∷ (codes "false", Token.false_)
    ∷ (codes "field", Token.field)
    ∷ (codes "finalize", Token.finalize)
    ∷ (codes "for", Token.for)
    ∷ (codes "function", Token.function)
    ∷ (codes "group", Token.group)
    ∷ (codes "i8", Token.i8)
    ∷ (codes "i16", Token.i16)
    ∷ (codes "i32", Token.i32)
    ∷ (codes "i64", Token.i64)
    ∷ (codes "i128", Token.i128)
    ∷ (codes "if", Token.if_)
    ∷ (codes "import", Token.import)
    ∷ (codes "in", Token.in_)
    ∷ (codes "inline", Token.inline)
    ∷ (codes "let", Token.let_)
    ∷ (codes "leo", Token.leo)
    ∷ (codes "mapping", Token.mapping)
    ∷ (codes "private", Token.private)
    ∷ (codes "program", Token.program)
    ∷ (codes "public", Token.public)
    ∷ (codes "record", Token.record_)
    ∷ (codes "return", Token.return)
    ∷ (codes "scalar", Token.scalar)
    ∷ (codes "signature", Token.signature)
    ∷ (codes "self", Token.self_lower)
    ∷ (codes "string", Token.string)
    ∷ (codes "struct", Token.struct)
    ∷ (codes "then", Token.then_)
    ∷ (codes "transition", Token.transition)
    ∷ (codes "true", Token.true_)
    ∷ (codes "u8", Token.u8)
    ∷ (codes "u16", Token.u16)
    ∷ (codes "u32", Token.u32)
    ∷ (codes "u64", Token.u64)
    ∷ (codes "u128", Token.u128)
    ∷ []

unfoldable pub find_keyword : List ℕ → List (List ℕ × Token) → Option Token
find_keyword s [] = none
find_keyword s ((w, t) ∷ r) = if equal s w then some t else find_keyword s r

-- `str::starts_with`
unfoldable pub starts_with : List ℕ → List ℕ → Bool
starts_with [] s = true
starts_with (c ∷ p) [] = false
starts_with (c ∷ p) (x ∷ s) = c == x && starts_with p s

unfoldable pub identifier_token : List ℕ → Token
identifier_token identifier =
    if starts_with (codes "aleo1") identifier
    then Token.address_lit identifier
    else elim (find_keyword identifier keywords) [ none ↦ Token.identifier identifier | some t ↦ t ]

-- What follows the `match` of `eat`.
unfoldable pub eat_word : List ℕ → Eaten
eat_word input = elim (eat_identifier input) [
  | some identifier ↦ ok (byte_len identifier, identifier_token identifier)
  | none ↦ err (could_not_lex (take_while (λ c. not (c == b';') && not (is_whitespace c)) input))
]

-- `Token::eat`. The arms test for different characters, so those for symbols may stand last.
unfoldable pub eat : List ℕ → Eaten
eat [] = err lexer_empty_input
eat (c ∷ s) =
    if is_ascii_whitespace c
    then ok (1, Token.white_space)
    else if c == b'"'
    then eat_string s
    else if is_ascii_digit c
    then eat_integer (c ∷ s)
    else if c == b'/'
    then eat_slash s
    else elim (find_arm c arms) [ none ↦ eat_word (c ∷ s) | some a ↦ ok (run_arm a s) ]
