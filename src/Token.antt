-- ===== src/Token.antt =====
-- compiler/parser/src/tokenizer/token.rs: the tokens, their text, and the keywords. A character is
-- its code point and a string the list of these; a symbol is the string that it interns.
pub mod Keywords
use aleotiktacto.Prelude.{
  ℕ, Bool, true, false, Option, none, some, List, [], ◌∷◌, ◌++◌, ◌||◌, ◌&&◌, ◌==◌, codes, equal,
}

-- Constructors whose name is reserved end in `_`.
pub data Token : Type 0 where
  comment_line : List ℕ → Token
  comment_block : List ℕ → Token
  static_string : List ℕ → Token
  identifier : List ℕ → Token
  integer : List ℕ → Token
  address_lit : List ℕ → Token
  true_ false_ white_space not and and_assign or or_assign bit_and bit_and_assign bit_or : Token
  bit_or_assign eq not_eq lt lt_eq gt gt_eq add add_assign sub sub_assign mul mul_assign : Token
  div div_assign pow pow_assign rem rem_assign assign left_paren right_paren left_square : Token
  right_square left_curly right_curly comma dot dot_dot semicolon colon double_colon : Token
  question arrow big_arrow shl shl_assign shr shr_assign underscore bit_xor : Token
  bit_xor_assign at address bool field group scalar signature string i8 i16 i32 i64 i128 : Token
  u8 u16 u32 u64 u128 record_ as_ assert assert_eq assert_neq console const constant : Token
  else_ finalize for function if_ import in_ inline let_ mapping private program public : Token
  return self_lower struct then_ transition block eof leo : Token

-- `fmt::Display for Token`
unfoldable pub display : Token → List ℕ
display (Token.comment_line s) = s
display (Token.comment_block s) = s
display (Token.static_string s) = b'"' ∷ (s ++ b'"' ∷ [])
display (Token.identifier s) = s
display (Token.integer s) = s
display Token.true_ = codes "true"
display Token.false_ = codes "false"
display (Token.address_lit s) = s
display Token.white_space = codes "whitespace"
display Token.not = codes "!"
display Token.and = codes "&&"
display Token.and_assign = codes "&&="
display Token.or = codes "||"
display Token.or_assign = codes "||="
display Token.bit_and = codes "&"
display Token.bit_and_assign = codes "&="
display Token.bit_or = codes "|"
display Token.bit_or_assign = codes "|="
display Token.eq = codes "=="
display Token.not_eq = codes "!="
display Token.lt = codes "<"
display Token.lt_eq = codes "<="
display Token.gt = codes ">"
display Token.gt_eq = codes ">="
display Token.add = codes "+"
display Token.add_assign = codes "+="
display Token.sub = codes "-"
display Token.sub_assign = codes "-="
display Token.mul = codes "*"
display Token.mul_assign = codes "*="
display Token.div = codes "/"
display Token.div_assign = codes "/="
display Token.pow = codes "**"
display Token.pow_assign = codes "**="
display Token.rem = codes "%"
display Token.rem_assign = codes "%="
display Token.assign = codes "="
display Token.left_paren = codes "("
display Token.right_paren = codes ")"
display Token.left_square = codes "["
display Token.right_square = codes "]"
display Token.left_curly = codes "{"
display Token.right_curly = codes "}"
display Token.comma = codes ","
display Token.dot = codes "."
display Token.dot_dot = codes ".."
display Token.semicolon = codes ";"
display Token.colon = codes ":"
display Token.double_colon = codes "::"
display Token.question = codes "?"
display Token.arrow = codes "->"
display Token.big_arrow = codes "=>"
display Token.shl = codes "<<"
display Token.shl_assign = codes "<<="
display Token.shr = codes ">>"
display Token.shr_assign = codes ">>="
display Token.underscore = codes "_"
display Token.bit_xor = codes "^"
display Token.bit_xor_assign = codes "^="
display Token.at = codes "@"
display Token.address = codes "address"
display Token.bool = codes "bool"
display Token.field = codes "field"
display Token.group = codes "group"
display Token.scalar = codes "scalar"
display Token.signature = codes "signature"
display Token.string = codes "string"
display Token.i8 = codes "i8"
display Token.i16 = codes "i16"
display Token.i32 = codes "i32"
display Token.i64 = codes "i64"
display Token.i128 = codes "i128"
display Token.u8 = codes "u8"
display Token.u16 = codes "u16"
display Token.u32 = codes "u32"
display Token.u64 = codes "u64"
display Token.u128 = codes "u128"
display Token.record_ = codes "record"
display Token.as_ = codes "as"
display Token.assert = codes "assert"
display Token.assert_eq = codes "assert_eq"
display Token.assert_neq = codes "assert_neq"
display Token.console = codes "console"
display Token.const = codes "const"
display Token.constant = codes "constant"
display Token.else_ = codes "else"
display Token.finalize = codes "finalize"
display Token.for = codes "for"
display Token.function = codes "function"
display Token.if_ = codes "if"
display Token.import = codes "import"
display Token.in_ = codes "in"
display Token.inline = codes "inline"
display Token.let_ = codes "let"
display Token.mapping = codes "mapping"
display Token.private = codes "private"
display Token.program = codes "program"
display Token.public = codes "public"
display Token.return = codes "return"
display Token.self_lower = codes "self"
display Token.struct = codes "struct"
display Token.then_ = codes "then"
display Token.transition = codes "transition"
display Token.block = codes "block"
display Token.eof = codes "<eof>"
display Token.leo = codes "leo"

-- `KEYWORD_TOKENS`
abbrev pub keyword_tokens : List Token
keyword_tokens =
    Token.address ∷ Token.as_ ∷ Token.assert ∷ Token.assert_eq ∷ Token.assert_neq ∷ Token.bool
    ∷ Token.console ∷ Token.const ∷ Token.constant ∷ Token.else_ ∷ Token.false_ ∷ Token.field
    ∷ Token.finalize ∷ Token.for ∷ Token.function ∷ Token.group ∷ Token.i8 ∷ Token.i16 ∷ Token.i32
    ∷ Token.i64 ∷ Token.i128 ∷ Token.if_ ∷ Token.import ∷ Token.in_ ∷ Token.inline ∷ Token.let_
    ∷ Token.mapping ∷ Token.private ∷ Token.program ∷ Token.public ∷ Token.record_ ∷ Token.return
    ∷ Token.self_lower ∷ Token.signature ∷ Token.scalar ∷ Token.string ∷ Token.struct ∷ Token.then_
    ∷ Token.transition ∷ Token.true_ ∷ Token.u8 ∷ Token.u16 ∷ Token.u32 ∷ Token.u64 ∷ Token.u128
    ∷ []

-- The position of a variant in the enumeration: what the derived equality compares first.
unfoldable pub discriminant : Token → ℕ
discriminant (Token.comment_line s) = 0
discriminant (Token.comment_block s) = 1
discriminant (Token.static_string s) = 2
discriminant (Token.identifier s) = 3
discriminant (Token.integer s) = 4
discriminant Token.true_ = 5
discriminant Token.false_ = 6
discriminant (Token.address_lit s) = 7
discriminant Token.white_space = 8
discriminant Token.not = 9
discriminant Token.and = 10
discriminant Token.and_assign = 11
discriminant Token.or = 12
discriminant Token.or_assign = 13
discriminant Token.bit_and = 14
discriminant Token.bit_and_assign = 15
discriminant Token.bit_or = 16
discriminant Token.bit_or_assign = 17
discriminant Token.eq = 18
discriminant Token.not_eq = 19
discriminant Token.lt = 20
discriminant Token.lt_eq = 21
discriminant Token.gt = 22
discriminant Token.gt_eq = 23
discriminant Token.add = 24
discriminant Token.add_assign = 25
discriminant Token.sub = 26
discriminant Token.sub_assign = 27
discriminant Token.mul = 28
discriminant Token.mul_assign = 29
discriminant Token.div = 30
discriminant Token.div_assign = 31
discriminant Token.pow = 32
discriminant Token.pow_assign = 33
discriminant Token.rem = 34
discriminant Token.rem_assign = 35
discriminant Token.assign = 36
discriminant Token.left_paren = 37
discriminant Token.right_paren = 38
discriminant Token.left_square = 39
discriminant Token.right_square = 40
discriminant Token.left_curly = 41
discriminant Token.right_curly = 42
discriminant Token.comma = 43
discriminant Token.dot = 44
discriminant Token.dot_dot = 45
discriminant Token.semicolon = 46
discriminant Token.colon = 47
discriminant Token.double_colon = 48
discriminant Token.question = 49
discriminant Token.arrow = 50
discriminant Token.big_arrow = 51
discriminant Token.shl = 52
discriminant Token.shl_assign = 53
discriminant Token.shr = 54
discriminant Token.shr_assign = 55
discriminant Token.underscore = 56
discriminant Token.bit_xor = 57
discriminant Token.bit_xor_assign = 58
discriminant Token.at = 59
discriminant Token.address = 60
discriminant Token.bool = 61
discriminant Token.field = 62
discriminant Token.group = 63
discriminant Token.scalar = 64
discriminant Token.signature = 65
discriminant Token.string = 66
discriminant Token.i8 = 67
discriminant Token.i16 = 68
discriminant Token.i32 = 69
discriminant Token.i64 = 70
discriminant Token.i128 = 71
discriminant Token.u8 = 72
discriminant Token.u16 = 73
discriminant Token.u32 = 74
discriminant Token.u64 = 75
discriminant Token.u128 = 76
discriminant Token.record_ = 77
discriminant Token.as_ = 78
discriminant Token.assert = 79
discriminant Token.assert_eq = 80
discriminant Token.assert_neq = 81
discriminant Token.console = 82
discriminant Token.const = 83
discriminant Token.constant = 84
discriminant Token.else_ = 85
discriminant Token.finalize = 86
discriminant Token.for = 87
discriminant Token.function = 88
discriminant Token.if_ = 89
discriminant Token.import = 90
discriminant Token.in_ = 91
discriminant Token.inline = 92
discriminant Token.let_ = 93
discriminant Token.mapping = 94
discriminant Token.private = 95
discriminant Token.program = 96
discriminant Token.public = 97
discriminant Token.return = 98
discriminant Token.self_lower = 99
discriminant Token.struct = 100
discriminant Token.then_ = 101
discriminant Token.transition = 102
discriminant Token.block = 103
discriminant Token.eof = 104
discriminant Token.leo = 105

-- The string of a variant that carries one.
unfoldable pub payload : Token → List ℕ
payload (Token.comment_line s) = s
payload (Token.comment_block s) = s
payload (Token.static_string s) = s
payload (Token.identifier s) = s
payload (Token.integer s) = s
payload (Token.address_lit s) = s
payload _ = []

-- `PartialEq for Token`, which is derived.
unfoldable pub token_eq : Token → Token → Bool
unfolding discriminant payload
token_eq s t = (discriminant s == discriminant t) && equal (payload s) (payload t)

-- `KEYWORD_TOKENS.contains(self)`
unfoldable pub any_eq : List Token → Token → Bool
unfolding token_eq
any_eq [] t = false
any_eq (k ∷ ks) t = token_eq k t || any_eq ks t

-- `Token::is_keyword`
unfoldable pub is_keyword : Token → Bool
unfolding any_eq
is_keyword t = any_eq keyword_tokens t

-- `Token::keyword_to_symbol`
unfoldable pub keyword_to_symbol : Token → Option (List ℕ)
keyword_to_symbol Token.address = some (codes "address")
keyword_to_symbol Token.as_ = some (codes "as")
keyword_to_symbol Token.assert = some (codes "assert")
keyword_to_symbol Token.assert_eq = some (codes "assert_eq")
keyword_to_symbol Token.assert_neq = some (codes "assert_neq")
keyword_to_symbol Token.block = some (codes "block")
keyword_to_symbol Token.bool = some (codes "bool")
keyword_to_symbol Token.console = some (codes "console")
keyword_to_symbol Token.const = some (codes "const")
keyword_to_symbol Token.constant = some (codes "constant")
keyword_to_symbol Token.else_ = some (codes "else")
keyword_to_symbol Token.false_ = some (codes "false")
keyword_to_symbol Token.field = some (codes "field")
keyword_to_symbol Token.finalize = some (codes "finalize")
keyword_to_symbol Token.for = some (codes "for")
keyword_to_symbol Token.function = some (codes "function")
keyword_to_symbol Token.group = some (codes "group")
keyword_to_symbol Token.i8 = some (codes "i8")
keyword_to_symbol Token.i16 = some (codes "i16")
keyword_to_symbol Token.i32 = some (codes "i32")
keyword_to_symbol Token.i64 = some (codes "i64")
keyword_to_symbol Token.i128 = some (codes "i128")
keyword_to_symbol Token.if_ = some (codes "if")
keyword_to_symbol Token.import = some (codes "import")
keyword_to_symbol Token.in_ = some (codes "in")
keyword_to_symbol Token.inline = some (codes "inline")
keyword_to_symbol Token.let_ = some (codes "let")
keyword_to_symbol Token.leo = some (codes "leo")
keyword_to_symbol Token.mapping = some (codes "mapping")
keyword_to_symbol Token.private = some (codes "private")
keyword_to_symbol Token.program = some (codes "program")
keyword_to_symbol Token.public = some (codes "public")
keyword_to_symbol Token.record_ = some (codes "record")
keyword_to_symbol Token.return = some (codes "return")
keyword_to_symbol Token.scalar = some (codes "scalar")
keyword_to_symbol Token.signature = some (codes "signature")
keyword_to_symbol Token.self_lower = some (codes "self")
keyword_to_symbol Token.string = some (codes "string")
keyword_to_symbol Token.struct = some (codes "struct")
keyword_to_symbol Token.then_ = some (codes "then")
keyword_to_symbol Token.transition = some (codes "transition")
keyword_to_symbol Token.true_ = some (codes "true")
keyword_to_symbol Token.u8 = some (codes "u8")
keyword_to_symbol Token.u16 = some (codes "u16")
keyword_to_symbol Token.u32 = some (codes "u32")
keyword_to_symbol Token.u64 = some (codes "u64")
keyword_to_symbol Token.u128 = some (codes "u128")
keyword_to_symbol _ = none
