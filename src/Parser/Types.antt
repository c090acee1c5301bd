-- ===== src/Parser/Types.antt =====
-- compiler/parser/src/parser/type_.rs: types. The fuel bounds the nesting of types and the length of
-- their lists.
use aleotiktacto.Prelude.{ℕ, zero, suc, Option, none, some, List, [], ◌∷◌, codes, if◌then◌else◌}
use aleotiktacto.Ast.{Span, Identifier, IntegerType, Ty, TyList}
use aleotiktacto.Token.{Token, token_eq}
use aleotiktacto.Parser.{
  out_of_fuel, M, pure, fail, panics, ◌>>=◌, ◌>>◌, get_context, expect, expect_any, eat_identifier,
  tuple_must_have_at_least_two_elements, unreachable,
}
use aleotiktacto.Parser.Numbers.{eat_whole_number}
use aleotiktacto.Parser.Lists.{parse_paren_comma_list}

abbrev pub type_tokens : List Token
type_tokens =
    Token.address ∷ Token.bool ∷ Token.field ∷ Token.group ∷ Token.scalar ∷ Token.signature
    ∷ Token.string ∷ Token.i8 ∷ Token.i16 ∷ Token.i32 ∷ Token.i64 ∷ Token.i128 ∷ Token.u8
    ∷ Token.u16 ∷ Token.u32 ∷ Token.u64 ∷ Token.u128 ∷ []

unfoldable pub token_to_int_type : Token → Option IntegerType
token_to_int_type Token.i8 = some IntegerType.i8
token_to_int_type Token.i16 = some IntegerType.i16
token_to_int_type Token.i32 = some IntegerType.i32
token_to_int_type Token.i64 = some IntegerType.i64
token_to_int_type Token.i128 = some IntegerType.i128
token_to_int_type Token.u8 = some IntegerType.u8
token_to_int_type Token.u16 = some IntegerType.u16
token_to_int_type Token.u32 = some IntegerType.u32
token_to_int_type Token.u64 = some IntegerType.u64
token_to_int_type Token.u128 = some IntegerType.u128
token_to_int_type _ = none

-- `expect` on the integer type of a token.
unfoldable pub integer_type : Option IntegerType → M IntegerType
integer_type (some t) = pure t
integer_type none = panics unreachable

unfoldable pub primitive_type : Token → M Ty
primitive_type Token.address = pure Ty.address
primitive_type Token.bool = pure Ty.boolean
primitive_type Token.field = pure Ty.field
primitive_type Token.group = pure Ty.group
primitive_type Token.scalar = pure Ty.scalar
primitive_type Token.signature = pure Ty.signature
primitive_type Token.string = pure Ty.string
primitive_type x = integer_type (token_to_int_type x) >>= λ t. pure (Ty.integer t)

unfoldable pub parse_primitive_type : M (Ty × Span)
parse_primitive_type = do
  span ← expect_any type_tokens
  c ← get_context
  t ← primitive_type c.prev_token.token
  pure (t, span)

abbrev pub to_types : List (Ty × Span) → TyList
to_types [] = TyList.nil
to_types (t ∷ ts) = TyList.cons t.0 (to_types ts)

-- The type that a list in parentheses stands for.
unfoldable pub tuple_type : List (Ty × Span) → Span → M (Ty × Span)
tuple_type [] span = pure (Ty.unit, span)
tuple_type (t ∷ []) span = fail (tuple_must_have_at_least_two_elements (codes "type") span)
tuple_type (t ∷ u ∷ ts) span = pure (Ty.tuple (to_types (t ∷ u ∷ ts)), span)

-- The rest of `parse_type`, where no identifier was eaten; `parse_type` is the parser of the types
-- within.
unfoldable pub parse_array_type : M (Ty × Span) → M (Ty × Span)
parse_array_type parse_type = do
  expect Token.left_square
  t ← parse_type
  expect Token.semicolon
  n ← eat_whole_number
  expect Token.right_square
  c ← get_context
  pure (Ty.array t.0 n.0, c.prev_token.span)

unfoldable pub parse_tuple_type : ℕ → M (Ty × Span) → M (Ty × Span)
parse_tuple_type fuel parse_type = do
  types ← parse_paren_comma_list fuel parse_type
  tuple_type types.list types.span

unfoldable pub type_behind : ℕ → M (Ty × Span) → Option Identifier → M (Ty × Span)
type_behind fuel parse_type (some ident) c = pure (Ty.identifier ident, ident.info.span) c
type_behind fuel parse_type none c =
    if token_eq c.token.token Token.left_square
    then parse_array_type parse_type c
    else if token_eq c.token.token Token.left_paren
    then parse_tuple_type fuel parse_type c
    else parse_primitive_type c

unfoldable pub parse_type : ℕ → M (Ty × Span)
parse_type zero c = out_of_fuel
parse_type (suc fuel) c = (eat_identifier >>= type_behind (suc fuel) (parse_type fuel)) c
